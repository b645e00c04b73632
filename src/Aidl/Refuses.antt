-- ===== src/Aidl/Refuses.antt =====
-- An AIDL descriptor with a negative number makes a queue object that maps nothing.
use platform_system_libfmq.Base.{
  ℕ, zero, suc, ◌≡◌, ◌⊎◌, inl, inr, refl, List, [], ◌∷◌, Bool, Bool-cases, none, some, get_elem?,
  true, false, ◌||◌, not, arith, negsuc, ◌==◌, ◌!=◌, ltb,
}
use platform_system_libfmq.Store.{Store}
use platform_system_libfmq.Descriptor.{
  MqFlavor, Descriptor, is_handle_valid, get_size, count_grantors, min_grantor_count, get_quantum,
}
use platform_system_libfmq.Queue.{MessageQueue, is_valid}
use platform_system_libfmq.Setup.{Vm}
use platform_system_libfmq.Setup.Lifecycle.{unset, init_memory, open_queue}
use platform_system_libfmq.Aidl.{
  Files, AidlGrantor, AidlDescriptor, is_negative, has_negative, read_grantors, descriptor_of_aidl,
  copy_descriptor, destroy_descriptor,
}
use platform_system_libfmq.Aidl.Convert.{open_aidl_queue}

-- Some number of the descriptor is negative.
pub data HasNegative (a : AidlDescriptor) : Type 0 where
  quantum : (n : ℕ) → a.quantum ≡ negsuc n → HasNegative a
  flags : (n : ℕ) → a.flags ≡ negsuc n → HasNegative a
  grantor :
      (i n : ℕ) (g : AidlGrantor)
      → get_elem? a.grantors i ≡ some g
      → (g.fd_index ≡ negsuc n) ⊎ (g.offset ≡ negsuc n) ⊎ (g.extent ≡ negsuc n)
      → HasNegative a

negative_field :
    (g : AidlGrantor) (n : ℕ)
    → (g.fd_index ≡ negsuc n) ⊎ (g.offset ≡ negsuc n) ⊎ (g.extent ≡ negsuc n)
    → has_negative g ≡ true
negative_field g n h = ground arith

read_grantors-stops :
    (gs : List AidlGrantor) (i : ℕ) (g : AidlGrantor)
    → get_elem? gs i ≡ some g
    → has_negative g ≡ true
    → (read_grantors gs).0 ≡ false
unfolding read_grantors
read_grantors-stops [] i g e neg = cc
read_grantors-stops (x ∷ gs) zero g e neg = ground arith
read_grantors-stops (x ∷ gs) (suc i) g e neg = ground (arith, read_grantors-stops gs i g e neg)

module _ (files : Files) (a : AidlDescriptor) (w : files.World) where
  -- The constructor stopped before the handle, and no file was touched.
  abbrev Stopped : Type 0
  Stopped =
      ((descriptor_of_aidl files a w).0.handle ≡ none) × ((descriptor_of_aidl files a w).1 ≡ w)

  by_numbers : is_negative a.quantum || is_negative a.flags ≡ true → Stopped
  unfolding descriptor_of_aidl
  by_numbers e = rw (descriptor_of_aidl, e) (refl, refl)

  by_grantors : (read_grantors a.grantors).0 ≡ false → Stopped
  unfolding descriptor_of_aidl
  by_grantors e = elim (Bool-cases (is_negative a.quantum || is_negative a.flags)) [
    | inl neg ↦ by_numbers neg
    | inr good ↦ rw (descriptor_of_aidl, good, e) (refl, refl)
  ]

  negative-Stopped : HasNegative a → Stopped
  negative-Stopped (quantum n e) = by_numbers (rw e refl)
  negative-Stopped (flags n e) = by_numbers (ground arith)
  negative-Stopped (grantor i n g found h) =
      by_grantors (read_grantors-stops a.grantors i g found (negative_field g n h))

-- Without a handle nothing is mapped.
open_queue-handleless :
    (vm : Vm) (flavor : MqFlavor) (sizeof_t : ℕ) (d : Descriptor) (reset_pointers : Bool)
    (s : Store) (v : vm.World)
    → d.handle ≡ none
    → open_queue vm flavor sizeof_t d reset_pointers s v ≡ (unset flavor sizeof_t d, s, v)
unfolding open_queue init_memory is_handle_valid
open_queue-handleless vm flavor sizeof_t d reset_pointers s v e =
    elim (Bool-cases (get_size d == 0)) [
      | inl empty ↦ rw (open_queue, empty) refl
      | inr more ↦ rw (open_queue, more) (rw (init_memory, no_handle) refl)
    ]
  where
    no_handle :
        not (is_handle_valid d)
          || ltb (count_grantors d) min_grantor_count
          || get_quantum d != sizeof_t
        ≡ true
    no_handle = rw (is_handle_valid, e) refl

copy_descriptor-handleless :
    (files : Files) (d : Descriptor) (w : files.World)
    → d.handle ≡ none
    → copy_descriptor files d w ≡ some (d, w)
unfolding copy_descriptor
copy_descriptor-handleless files d w e = rw (copy_descriptor, e) refl

-- The constructor of an AIDL queue from a descriptor with a negative number, be it the quantum, the
-- flags or any field of any grantor: the object that it makes is not valid, no file is duplicated, no
-- memory is mapped or written.
pub negative_maps_nothing :
    (files : Files) (vm : Vm) (flavor : MqFlavor) (sizeof_t : ℕ) (a : AidlDescriptor)
    (reset_pointers : Bool) (s : Store) (w : files.World) (v : vm.World)
    → HasNegative a
    → (q : MessageQueue) × (open_aidl_queue files vm flavor sizeof_t a reset_pointers s w v
        ≡ some (q, s, w, v))
      × (is_valid q ≡ false)
unfolding open_aidl_queue destroy_descriptor is_valid
negative_maps_nothing files vm flavor sizeof_t a reset_pointers s w v h =
    let (no_handle, kept) = negative-Stopped files a w h in
    let d = (descriptor_of_aidl files a w).0 in
    (
      unset flavor sizeof_t d,
      rw
          (
            open_aidl_queue,
            copy_descriptor-handleless files d (descriptor_of_aidl files a w).1 no_handle,
            open_queue-handleless vm flavor sizeof_t d reset_pointers s v no_handle,
          )
          (rw (no_handle, kept) refl),
      refl,
    )
