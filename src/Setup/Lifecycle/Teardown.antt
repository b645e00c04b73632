-- ===== src/Setup/Lifecycle/Teardown.antt =====
-- What the destructor, and the error path of `initMemory`, give back.
use platform_system_libfmq.Base.{
  ℕ, suc, ◌≡◌, ◌≢◌, ◌∙◌, ap, inl, inr, refl, List, [], ◌∷◌, Bool, true, some, get_elem?, Bool-cases,
  ◌!=◌, if◌then◌else◌, arith, ℤ,
}
use platform_system_libfmq.Store.{Store, nullptr}
use platform_system_libfmq.Descriptor.{
  MqFlavor, synchronized_read_write, Descriptor, GrantorDescriptor, read_ptr_pos, write_ptr_pos,
  data_ptr_pos, ev_flag_word_pos,
}
use platform_system_libfmq.Queue.{MessageQueue, is_valid}
use platform_system_libfmq.Setup.{Vm, mapped, map_length, map_grantor_descr, unmap_grantor_descr}
use platform_system_libfmq.Setup.Mapping.{Mmaps, map_then_unmap}
use platform_system_libfmq.Setup.Lifecycle.{unset, init_memory, destroy}
use platform_system_libfmq.Setup.Lifecycle.Valid.{
  reader, writer, ring, word, has_word, with_ring, with_word, init_memory_valid, IsMapped-IsPlaced,
  is_valid-pointers,
}

not_null : (a : ℕ) → a ≢ nullptr → a != nullptr ≡ true
not_null a ne = ground arith

module _ (vm : Vm) (d : Descriptor) where
  -- Areas of memory, by beginning and length: for each grantor from `i` on, one that a call of `mmap`
  -- for this grantor handed out, with the world that the call left.
  abbrev pub AreMapped : ℕ → List (ℕ × ℕ) → List vm.World → Type 0
  AreMapped i [] [] = Unit
  AreMapped i [] (w ∷ ws) = ⊥
  AreMapped i ((base, len) ∷ areas) [] = ⊥
  AreMapped i ((base, len) ∷ areas) (w ∷ ws) =
      ((g : GrantorDescriptor) × (fd : ℕ) × (get_elem? d.grantors i ≡ some g)
        × (len ≡ map_length vm g)
        × Mmaps vm g fd base w)
      × AreMapped (suc i) areas ws

  abbrev pub munmap_all : List (ℕ × ℕ) → vm.World → vm.World
  munmap_all [] w = w
  munmap_all ((base, len) ∷ areas) w = munmap_all areas (vm.munmap base len w)

  module _
      (no_null : (writable : Bool) (len fd : ℕ) (offset : ℤ) (w : vm.World) (address : ℕ)
        → (vm.mmap writable len fd offset w).0 ≡ mapped address
        → address ≢ nullptr) where
    Mmaps-nonnull :
        (g : GrantorDescriptor) (fd base : ℕ) (w : vm.World) → Mmaps vm g fd base w → base ≢ nullptr
    Mmaps-nonnull g fd base w (writable, v, e) = no_null writable _ fd _ v base (ap (λ m. m.0) e)

    -- One grantor: the area that was mapped for it is what its unmapping gives back.
    area :
        (flavor : MqFlavor) (i : ℕ) (w : vm.World)
        → (map_grantor_descr vm flavor d i w).0 ≢ nullptr
        → (base : ℕ) × (len : ℕ) × ((g : GrantorDescriptor) × (fd : ℕ) × (get_elem? d.grantors i
              ≡ some g)
            × (len ≡ map_length vm g)
            × Mmaps vm g fd base (map_grantor_descr vm flavor d i w).1)
          × ((v : vm.World)
              → unmap_grantor_descr vm d (map_grantor_descr vm flavor d i w).0 i v
                ≡ vm.munmap base len v)
    area flavor i w ne =
        let (g, fd, base, found, at, call, back) = map_then_unmap vm flavor d i w ne in
        (base, map_length vm g, (g, fd, found, refl, call), back (Mmaps-nonnull g fd base _ call))

    module _ (reset : Bool) (sizeof_t : ℕ) (s : Store) (w : vm.World) where
      abbrev made : MessageQueue × Store × vm.World
      made = init_memory vm reset (unset synchronized_read_write sizeof_t d) s w

      abbrev worlds : List vm.World
      worlds =
          (reader vm reset synchronized_read_write sizeof_t d s w).1
          ∷ (writer vm reset synchronized_read_write sizeof_t d s w).1
          ∷ (ring vm reset synchronized_read_write sizeof_t d s w).1
          ∷ (if has_word vm reset synchronized_read_write sizeof_t d s w
              then (word vm reset synchronized_read_write sizeof_t d s w).1 ∷ []
              else [])

      abbrev r : ℕ × vm.World
      r = reader vm reset synchronized_read_write sizeof_t d s w

      abbrev p : ℕ × vm.World
      p = writer vm reset synchronized_read_write sizeof_t d s w

      abbrev data_ : ℕ × vm.World
      data_ = ring vm reset synchronized_read_write sizeof_t d s w

      abbrev flag : ℕ × vm.World
      flag = word vm reset synchronized_read_write sizeof_t d s w

      abbrev has_flag : Bool
      has_flag = has_word vm reset synchronized_read_write sizeof_t d s w

      module _ (r_set : r.0 ≢ nullptr) (p_set : p.0 ≢ nullptr) (data_set : data_.0 ≢ nullptr) where
        destroy_three :
            (v : vm.World)
            → destroy vm (with_ring vm reset synchronized_read_write sizeof_t d s w) v
              ≡ unmap_grantor_descr vm d data_.0 data_ptr_pos (
                  unmap_grantor_descr vm d p.0 write_ptr_pos
                    (unmap_grantor_descr vm d r.0 read_ptr_pos v))
        unfolding destroy
        destroy_three v =
            rw (destroy, not_null r.0 r_set, not_null p.0 p_set, not_null data_.0 data_set) refl

        destroy_four :
            flag.0 ≢ nullptr
            → (v : vm.World)
            → destroy vm (with_word vm reset synchronized_read_write sizeof_t d s w) v
              ≡ unmap_grantor_descr vm d flag.0 ev_flag_word_pos (
                  unmap_grantor_descr vm d data_.0 data_ptr_pos (
                    unmap_grantor_descr vm d p.0 write_ptr_pos
                      (unmap_grantor_descr vm d r.0 read_ptr_pos v)))
        unfolding destroy
        destroy_four flag_set v =
            rw
              (
                destroy,
                not_null r.0 r_set,
                not_null p.0 p_set,
                not_null data_.0 data_set,
                not_null flag.0 flag_set,
              )
              refl

        -- The destructor, on the object with or without the word of the event flag.
        unmaps :
            (has_flag ≡ true → flag.0 ≢ nullptr)
            → (areas : List (ℕ × ℕ)) × AreMapped 0 areas worlds
              × ((v : vm.World)
                  → destroy vm
                      (if has_flag
                        then with_word vm reset synchronized_read_write sizeof_t d s w
                        else with_ring vm reset synchronized_read_write sizeof_t d s w)
                      v
                    ≡ munmap_all areas v)
        unmaps flag_set =
            let (b0, l0, m0, u0) = area synchronized_read_write 0 _ r_set in
            let (b1, l1, m1, u1) = area synchronized_read_write 1 _ p_set in
            let (b2, l2, m2, u2) = area synchronized_read_write 2 _ data_set in
            elim (Bool-cases has_flag) [
              | inr none_ ↦ rw none_ (
                (b0, l0) ∷ (b1, l1) ∷ (b2, l2) ∷ [],
                (m0, (m1, (m2, tt))),
                λ v.
                    destroy_three v
                    ∙ ap
                        (λ t. unmap_grantor_descr vm d data_.0 2 (unmap_grantor_descr vm d p.0 1 t))
                        (u0 v)
                    ∙ ap (unmap_grantor_descr vm d data_.0 2) (u1 _)
                    ∙ u2 _,
              )
              | inl some_ ↦
                  let (b3, l3, m3, u3) = area synchronized_read_write 3 _ (flag_set some_) in
                  rw some_ (
                    (b0, l0) ∷ (b1, l1) ∷ (b2, l2) ∷ (b3, l3) ∷ [],
                    (m0, (m1, (m2, (m3, tt)))),
                    λ v.
                        destroy_four (flag_set some_) v
                        ∙ ap
                            (λ t. unmap_grantor_descr vm d flag.0 3 (
                              unmap_grantor_descr vm d data_.0 2
                                (unmap_grantor_descr vm d p.0 1 t)))
                            (u0 v)
                        ∙ ap
                            (λ t.
                              unmap_grantor_descr vm d flag.0 3
                                (unmap_grantor_descr vm d data_.0 2 t))
                            (u1 _)
                        ∙ ap (unmap_grantor_descr vm d flag.0 3) (u2 _)
                        ∙ u3 _,
                  )
            ]

      -- The destructor of a valid synchronized queue gives back exactly what `initMemory` had mapped:
      -- the areas of the two counters, of the ring, and of the event flag's word if there is one, each
      -- with the beginning that `mmap` answered and the length that it was asked for. `mmap` never
      -- answers null.
      pub destroy_unmaps :
          is_valid made.0 ≡ true
          → (areas : List (ℕ × ℕ)) × AreMapped 0 areas worlds
            × ((v : vm.World) → destroy vm made.0 v ≡ munmap_all areas v)
      destroy_unmaps valid =
          let m = init_memory_valid vm reset synchronized_read_write sizeof_t d s w valid in
          let at = IsMapped-IsPlaced vm reset synchronized_read_write sizeof_t d s w m in
          let (ring_set, read_set, write_set) = is_valid-pointers made.0 valid in
          rw m.same (
            unmaps (λ e. read_set (at.reader_at ∙ e)) (λ e. write_set (at.writer_at ∙ e))
              (λ e. ring_set (at.ring_at ∙ e)) m.word_set)
