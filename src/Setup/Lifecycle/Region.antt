-- ===== src/Setup/Lifecycle/Region.antt =====
-- The ashmem region that the constructor asks for holds all that the descriptor places in it.
use native.Mathlib.Nat.{div-add-mod', mod-lt}
use platform_system_libfmq.Base.{
  ℕ, ◌+◌, ◌-◌, ◌*◌, ◌/◌, ◌^◌, ◌≤◌, ◌<◌, ◌≡◌, refl, Bool, true, false, Option, none, some, List, [],
  ◌∷◌, if◌then◌else◌, arith, add64,
}
use platform_system_libfmq.Descriptor.{
  MqFlavor, NativeHandle, GrantorDescriptor, Descriptor, init_descriptor,
}
use platform_system_libfmq.Descriptor.Layout.{align-some, init_descriptor-laid_out, laid_out}
use platform_system_libfmq.Setup.{Vm}
use platform_system_libfmq.Setup.Lifecycle.{align_to_page, region_size}

-- Every area ends within the first `n` bytes.
pub AllWithin : ℕ → List GrantorDescriptor → Type 0
AllWithin n [] = Unit
AllWithin n (g ∷ gs) = (g.offset + g.extent ≤ n) × AllWithin n gs

module _ (vm : Vm) (some_page : 0 < vm.page_size) (small_page : vm.page_size ≤ 2 ^ 31) where
  align_to_page-le : (n : ℕ) → n ≤ 2 ^ 32 → n ≤ align_to_page vm n
  align_to_page-le n small = omega (
    arith,
    div-add-mod' (add64 n (vm.page_size - 1)) vm.page_size,
    mod-lt (add64 n (vm.page_size - 1)) some_page,
  )

  module _ (flavor : MqFlavor) (buffer_size : ℕ) (handle : Option NativeHandle) (message_size : ℕ)
      (room : buffer_size + 24 ≤ 2 ^ 31) (small : message_size < 2 ^ 31) where
    abbrev region : Bool → ℕ
    region configure =
        align_to_page vm (add64 ((buffer_size + 7) / 8 * 8) (16 + (if configure then 4 else 0)))

    region-some :
        (configure : Bool)
        → region_size vm buffer_size (16 + (if configure then 4 else 0)) none
          ≡ some (region configure)
    unfolding region_size
    region-some configure = rw (align-some buffer_size (omega arith)) refl

    -- For a queue within the limits, and a page size of at most 2 ^ 31, the page-aligned size of
    -- the ashmem region is found, and all the areas of the descriptor, that of the event flag
    -- included, lie within the region.
    pub areas-AllWithin :
        (configure : Bool)
        → (n : ℕ) × (d : Descriptor) × (region_size vm buffer_size
              (16 + (if configure then 4 else 0))
              none
            ≡ some n)
          × (init_descriptor flavor buffer_size handle message_size configure ≡ some d)
          × AllWithin n d.grantors
    unfolding AllWithin
    areas-AllWithin true =
        let enough = align_to_page-le (add64 ((buffer_size + 7) / 8 * 8) 20) (omega arith) in
        (
          region true,
          laid_out flavor buffer_size handle message_size true,
          region-some true,
          init_descriptor-laid_out flavor buffer_size handle message_size room small true,
          (
            omega (arith, enough),
            (omega (arith, enough), (omega (arith, enough), (omega (arith, enough), tt))),
          ),
        )
    areas-AllWithin false =
        let enough = align_to_page-le (add64 ((buffer_size + 7) / 8 * 8) 16) (omega arith) in
        (
          region false,
          laid_out flavor buffer_size handle message_size false,
          region-some false,
          init_descriptor-laid_out flavor buffer_size handle message_size room small false,
          (omega (arith, enough), (omega (arith, enough), (omega (arith, enough), tt))),
        )
