-- ===== src/Aidl/HidlRead.antt =====
-- What the AIDL side reads from a converted HIDL descriptor.
use platform_system_libfmq.Base.{
  ℕ, zero, suc, ◌-◌, ◌^◌, ◌≤◌, ◌<◌, ◌≡◌, inl, ap, List, [], ◌∷◌, Bool, some, get_elem?, true, false,
  arith, negsuc,
}
use platform_system_libfmq.Store.{Store}
use platform_system_libfmq.Descriptor.{
  MqFlavor, flavor_value, NativeHandle, GrantorDescriptor, Descriptor, int32,
}
use platform_system_libfmq.Queue.{MessageQueue, is_valid}
use platform_system_libfmq.Setup.{Vm}
use platform_system_libfmq.Aidl.{Files, AidlDescriptor, dup_all, descriptor_of_aidl}
use platform_system_libfmq.Aidl.Convert.{
  to_aidl_grantor, to_aidl_grantors, hidl_to_aidl, open_aidl_queue,
}
use platform_system_libfmq.Aidl.Duplicates.{Dups, Open, dup_all-Open}
use platform_system_libfmq.Aidl.RoundTrip.{
  AreSigned, without_flags, int32-pos, read_grantors-to_aidl, descriptor_of_aidl-accepts,
}
use platform_system_libfmq.Aidl.Refuses.{grantor, negative_maps_nothing}
use platform_system_libfmq.Aidl.FromHidl.{
  AreTyped, OffsetsFit, Convertible, converted, answer-converted,
}

AreSigned-AreTyped : (gs : List GrantorDescriptor) → AreSigned gs → AreTyped gs × OffsetsFit gs
AreSigned-AreTyped [] h = (tt, tt)
AreSigned-AreTyped (g ∷ gs) h =
    let (typed, fit) = AreSigned-AreTyped gs h.1 in
    (
      (omega (arith, h.0.index_fits, h.0.offset_fits, h.0.extent_fits), typed),
      ((h.0.offset_fits, h.0.extent_fits), fit),
    )

get_elem?-to_aidl :
    (gs : List GrantorDescriptor) (i : ℕ) (g : GrantorDescriptor)
    → get_elem? gs i ≡ some g
    → get_elem? (to_aidl_grantors gs) i ≡ some (to_aidl_grantor g)
get_elem?-to_aidl [] i g e = cc
get_elem?-to_aidl (x ∷ gs) zero g e = ap (λ y. some (to_aidl_grantor y)) (inner e)
  where
    inner : some x ≡ some g → x ≡ g
    inner h = cc
get_elem?-to_aidl (x ∷ gs) (suc i) g e = get_elem?-to_aidl gs i g e

int32-negsuc : (n : ℕ) → 2 ^ 31 ≤ n → int32 n ≡ negsuc (2 ^ 32 - 1 - n)
int32-negsuc n h = ground arith

module _ (files : Files) (flavor : MqFlavor) (hidl : Descriptor) (dest : AidlDescriptor)
    (w : files.World) (h : NativeHandle) (handle : hidl.handle ≡ some h) where
  -- A HIDL descriptor with a handle whose numbers fit in AIDL's signed ones, and the flags of the
  -- flavor, is converted into a destination without grantors, and the AIDL side reads from the
  -- result the same quantum, flags, grantors without their flags, and a handle with the same
  -- integers and with duplicates of the files, each of which stands for the same open file, where
  -- no file and no memory is lacking.
  pub hidl_then_read :
      (dups : Dups files) (fs : List ℕ)
      → ((n m : ℕ) (w : files.World) → files.native_handle_create n m w ≡ true)
      → Open files dups h.fds fs w
      → dest.grantors ≡ []
      → AreSigned hidl.grantors
      → hidl.quantum < 2 ^ 31
      → hidl.flags ≡ flavor_value flavor
      → (a : AidlDescriptor) × (w1 : files.World) × (fds : List ℕ) × (w2 : files.World)
        × (hidl_to_aidl files flavor hidl dest w ≡ some (true, a, w1))
        × (descriptor_of_aidl files a w1 ≡ (
          record hidl {
            grantors = without_flags hidl.grantors;
            handle = some (record { fds = fds; ints = h.ints });
          },
          w2,
        ))
        × Open files dups fds fs w2
  hidl_then_read dups fs no_limit o empty signed quantum flags =
      let (typed, fit) = AreSigned-AreTyped hidl.grantors signed in
      let (opened, kept) = dup_all-Open files dups h.fds fs w o in
      let (opened', kept') = dup_all-Open files dups _ fs (dup_all files h.fds w).1 opened in
      (
        converted files flavor hidl dest w h,
        (dup_all files h.fds w).1,
        _,
        _,
        answer-converted files flavor hidl dest w h handle typed (omega (arith, small_flags))
            (empty, fit, quantum, flags),
        descriptor_of_aidl-accepts files dups no_limit _ hidl.quantum hidl.flags _ _
            (read_grantors-to_aidl hidl.grantors signed) (int32-pos hidl.quantum quantum)
            (omega arith) (int32-pos hidl.flags (omega (arith, small_flags)))
            (omega (arith, small_flags)),
        opened',
      )
    where
      flavor_small : flavor_value flavor ≤ 2
      flavor_small = ground arith

      small_flags : hidl.flags ≤ 2
      small_flags = omega (arith, flags, flavor_small)

  -- A grantor whose file index does not fit in 31 bits passes the conversion, which only tests the
  -- index cast to 64 bits, where all else can be converted; but the result has a negative index:
  -- the queue that the AIDL side makes of it is not valid and maps nothing.
  pub big_index_is_lost :
      (i : ℕ) (g : GrantorDescriptor)
      → get_elem? hidl.grantors i ≡ some g
      → 2 ^ 31 ≤ g.fd_index
      → AreTyped hidl.grantors
      → Convertible files flavor hidl dest w
      → (a : AidlDescriptor) × (w1 : files.World) × (hidl_to_aidl files flavor hidl dest w
          ≡ some (true, a, w1))
        × ((vm : Vm) (sizeof_t : ℕ) (reset_pointers : Bool) (s : Store) (v : vm.World)
            → (q : MessageQueue) × (open_aidl_queue files vm flavor sizeof_t a reset_pointers s w1 v
                ≡ some (q, s, w1, v))
              × (is_valid q ≡ false))
  big_index_is_lost i g found big typed fit = (
    converted files flavor hidl dest w h,
    (dup_all files h.fds w).1,
    answer-converted files flavor hidl dest w h handle typed small_flags fit,
    λ vm sizeof_t reset_pointers s v.
        negative_maps_nothing files vm flavor sizeof_t _ reset_pointers s _ v (
          grantor i _ (to_aidl_grantor g) (get_elem?-to_aidl hidl.grantors i g found)
            (inl (int32-negsuc g.fd_index big))),
  )
    where
      flavor_small : flavor_value flavor ≤ 2
      flavor_small = ground arith

      small_flags : hidl.flags < 2 ^ 32
      small_flags = omega (arith, fit.3, flavor_small)
