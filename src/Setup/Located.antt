-- ===== src/Setup/Located.antt =====
-- Memory that processes share: where the locations of a file's memory are.
use platform_system_libfmq.Base.{
  inl, inr, ℕ, ◌+◌, ◌^◌, ◌≤◌, ◌<◌, ◌≡◌, ◌≢◌, ap, refl, Bool, List, some, get_elem?, pos, arith,
}
use native.Mathlib.Nat.{div-mul-le_self}
use platform_system_libfmq.Store.{nullptr}
use platform_system_libfmq.Descriptor.{MqFlavor, GrantorDescriptor, NativeHandle, Descriptor, int32}
use platform_system_libfmq.Setup.{Vm, mapped, map_offset, map_grantor, map_grantor_descr}
use platform_system_libfmq.Setup.Mapping.{Mmaps, placed-Mmaps, option-cases}

-- `mmap` of shared memory: the byte at an offset of a file is one location, whichever mapping it is
-- reached by. `base` is the location of a file's first byte.
pub record Locates (vm : Vm) : Type 0 where
  pub base : ℕ → ℕ
  pub located :
      (writable : Bool) (len fd offset : ℕ) (w : vm.World) (address : ℕ)
      → (vm.mmap writable len fd (pos offset) w).0 ≡ mapped address
      → address ≡ base fd + offset

module _ (vm : Vm) (locates : Locates vm) where
  open locates use {base, located}

  map_offset-le : (g : GrantorDescriptor) → map_offset vm g ≤ g.offset
  map_offset-le g = div-mul-le_self g.offset vm.page_size

  int32-map_offset :
      (g : GrantorDescriptor) → g.offset < 2 ^ 31 → int32 (map_offset vm g) ≡ pos (map_offset vm g)
  int32-map_offset g fits = ground (arith, map_offset-le g)

  Mmaps-located :
      (g : GrantorDescriptor) (fd address : ℕ) {w : vm.World}
      → g.offset < 2 ^ 31
      → Mmaps vm g fd address w
      → address ≡ base fd + map_offset vm g
  Mmaps-located g fd address fits (writable, v, e) =
      located writable _ fd _ v address (ap (λ m. m.0) (rw (int32-map_offset g fits) at e))

  placed-located :
      (flavor : MqFlavor) (grantors : List GrantorDescriptor) (g : GrantorDescriptor) (fd : ℕ)
      (w : vm.World)
      → g.offset < 2 ^ 31
      → (map_grantor vm flavor grantors g fd w).0 ≢ nullptr
      → (map_grantor vm flavor grantors g fd w).0 ≡ base fd + g.offset
  placed-located flavor grantors g fd w fits ne =
      let (address, at, call) = placed-Mmaps vm flavor g fd w grantors ne in
      omega (arith, at, Mmaps-located g fd address fits call, map_offset-le g)

  -- A grantor that is mapped is at its offset of its file.
  pub map_grantor_descr-located :
      (flavor : MqFlavor) (d : Descriptor) (i : ℕ) (w : vm.World) (h : NativeHandle)
      (g : GrantorDescriptor) (fd : ℕ)
      → d.handle ≡ some h
      → get_elem? d.grantors i ≡ some g
      → get_elem? h.fds g.fd_index ≡ some fd
      → g.offset < 2 ^ 31
      → (map_grantor_descr vm flavor d i w).0 ≢ nullptr
      → (map_grantor_descr vm flavor d i w).0 ≡ base fd + g.offset
  unfolding map_grantor_descr
  map_grantor_descr-located flavor d i w h g fd handle grantor file fits =
      rw found (placed-located flavor d.grantors g fd w fits)
    where
      found : map_grantor_descr vm flavor d i w ≡ map_grantor vm flavor d.grantors g fd w
      found = rw (map_grantor_descr, handle, grantor, file) refl

  -- A grantor that is mapped is there, with its file.
  pub map_grantor_descr-found :
      (flavor : MqFlavor) (d : Descriptor) (i : ℕ) (w : vm.World)
      → (map_grantor_descr vm flavor d i w).0 ≢ nullptr
      → (h : NativeHandle) × (g : GrantorDescriptor) × (fd : ℕ) × (d.handle ≡ some h)
        × (get_elem? d.grantors i ≡ some g)
        × (get_elem? h.fds g.fd_index ≡ some fd)
  unfolding map_grantor_descr
  map_grantor_descr-found flavor d i w = elim (option-cases d.handle) [
    | inl no_handle ↦ rw (map_grantor_descr, no_handle) λ ne. absurd (ne refl)
    | inr (h, handle) ↦ elim (option-cases (get_elem? d.grantors i)) [
      | inl no_grantor ↦ rw (map_grantor_descr, handle, no_grantor) λ ne. absurd (ne refl)
      | inr (g, grantor) ↦ elim (option-cases (get_elem? h.fds g.fd_index)) [
        | inl no_fd ↦ rw (map_grantor_descr, handle, grantor, no_fd) λ ne. absurd (ne refl)
        | inr (fd, file) ↦ λ ne. (h, g, fd, handle, grantor, file)
      ]
    ]
  ]
