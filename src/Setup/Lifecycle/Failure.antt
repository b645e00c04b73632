-- ===== src/Setup/Lifecycle/Failure.antt =====
-- The error path of `initMemory`, where the event flag's word cannot be mapped.
use platform_system_libfmq.Base.{
  ℕ, ◌+◌, ◌-◌, ◌<◌, ◌≡◌, ◌≢◌, ◌∙◌, ap, refl, Bool, true, false, ◌||◌, not, some, get_elem?, ltb,
  ◌!=◌, ◌==◌, arith,
}
use platform_system_libfmq.Store.{Store, nullptr}
use platform_system_libfmq.Descriptor.{
  synchronized_read_write, Descriptor, GrantorDescriptor, get_quantum, is_handle_valid,
  count_grantors, min_grantor_count, read_ptr_pos, write_ptr_pos, data_ptr_pos, ev_flag_word_pos,
}
use platform_system_libfmq.Queue.{MessageQueue, is_valid}
use platform_system_libfmq.Setup.{Vm, in_page, map_length, unmap_grantor_descr}
use platform_system_libfmq.Setup.Mapping.{Mmaps, map_then_unmap}
use platform_system_libfmq.Setup.Lifecycle.{unset, init_memory, map_ring, clean_up}
use platform_system_libfmq.Setup.Lifecycle.Valid.{
  reader, writer, ring, word, with_counters, with_ring,
}

is_null : (a : ℕ) → a ≢ nullptr → a == nullptr ≡ false
is_null a ne = ground arith

module _ (vm : Vm) (reset : Bool) (sizeof_t : ℕ) (d : Descriptor) (s : Store) (w : vm.World) where
  abbrev made : MessageQueue × Store × vm.World
  made = init_memory vm reset (unset synchronized_read_write sizeof_t d) s w

  abbrev r : ℕ × vm.World
  r = reader vm reset synchronized_read_write sizeof_t d s w

  abbrev p : ℕ × vm.World
  p = writer vm reset synchronized_read_write sizeof_t d s w

  abbrev data_ : ℕ × vm.World
  data_ = ring vm reset synchronized_read_write sizeof_t d s w

  abbrev flag : ℕ × vm.World
  flag = word vm reset synchronized_read_write sizeof_t d s w

  -- All but the event flag's word, which the descriptor has, is mapped.
  pub record FlagFails : Type 0 where
    pub handle : is_handle_valid d ≡ true
    pub quantum : get_quantum d ≡ sizeof_t
    pub has_flag : ev_flag_word_pos < count_grantors d
    pub r_set : r.0 ≢ nullptr
    pub p_set : p.0 ≢ nullptr
    pub data_set : data_.0 ≢ nullptr
    pub flag_unset : flag.0 ≡ nullptr

  module _ (f : FlagFails) where
    open f use {handle, quantum, has_flag, r_set, p_set, data_set, flag_unset}

    accepted :
        not (is_handle_valid d)
          || ltb (count_grantors d) min_grantor_count
          || get_quantum d != sizeof_t
        ≡ false
    accepted = ground (arith, handle, quantum, has_flag)

    abbrev x : MessageQueue × vm.World
    x = map_ring vm (with_counters vm reset synchronized_read_write sizeof_t d s w) p.1

    made_rest : (made.0 ≡ x.0) × (made.2 ≡ x.1)
    unfolding init_memory
    made_rest = rw (init_memory, accepted, is_null r.0 r_set, is_null p.0 p_set) (refl, refl)

    rest_cleaned :
        x ≡ clean_up vm (with_ring vm reset synchronized_read_write sizeof_t d s w) flag.1
    unfolding map_ring
    rest_cleaned = rw (map_ring, is_null data_.0 data_set, flagged, no_flag) refl
      where
        flagged : not (ltb ev_flag_word_pos (count_grantors d)) ≡ false
        flagged = ground (arith, has_flag)

        no_flag : flag.0 == nullptr ≡ true
        no_flag = ground (arith, flag_unset)

    cleaned :
        (clean_up vm (with_ring vm reset synchronized_read_write sizeof_t d s w) flag.1).1
        ≡ unmap_grantor_descr vm d data_.0 ev_flag_word_pos (
            unmap_grantor_descr vm d p.0 write_ptr_pos
              (unmap_grantor_descr vm d r.0 read_ptr_pos flag.1))
    unfolding clean_up
    cleaned = rw (clean_up, is_null r.0 r_set, is_null p.0 p_set, is_null data_.0 data_set) refl

    cleaned_invalid :
        is_valid (clean_up vm (with_ring vm reset synchronized_read_write sizeof_t d s w) flag.1).0
        ≡ false
    unfolding clean_up is_valid
    cleaned_invalid = refl

    unmapped :
        (g' : GrantorDescriptor)
        → get_elem? d.grantors ev_flag_word_pos ≡ some g'
        → data_.0 ≢ in_page vm g'
        → (v : vm.World)
        → unmap_grantor_descr vm d data_.0 ev_flag_word_pos v
          ≡ vm.munmap (data_.0 - in_page vm g') (map_length vm g') v
    unfolding unmap_grantor_descr
    unmapped g' found out v = rw (unmap_grantor_descr, found, not_skipped) refl
      where
        not_skipped : data_.0 == nullptr || data_.0 == in_page vm g' ≡ false
        not_skipped = ground (arith, data_set, out)

    -- Let a synchronized queue have a valid handle, a descriptor of its element size and a grantor
    -- for the event flag's word, and let its counters and its ring be mapped. Where the word cannot
    -- be mapped, `initMemory` leaves an object that is not valid, and hands the ring to `munmap`
    -- with the beginning and the length (the `int` of the code) that the word's grantor says, not
    -- those of the area that was mapped for the ring. The ring does not stand at the offset in a
    -- page that the word would have.
    pub ring_unmapped_as_word :
        (g' : GrantorDescriptor)
        → get_elem? d.grantors ev_flag_word_pos ≡ some g'
        → data_.0 ≢ in_page vm g'
        → (is_valid made.0 ≡ false)
          × (made.2
              ≡ vm.munmap (data_.0 - in_page vm g') (map_length vm g') (
                  unmap_grantor_descr vm d p.0 write_ptr_pos
                    (unmap_grantor_descr vm d r.0 read_ptr_pos flag.1)))
          × ((g : GrantorDescriptor) × (fd : ℕ) × (base : ℕ) × (get_elem? d.grantors data_ptr_pos
                ≡ some g)
              × (data_.0 ≡ base + in_page vm g)
              × Mmaps vm g fd base data_.1)
    ring_unmapped_as_word g' found out =
        let (g, fd, base, has, at, call, back) =
          map_then_unmap vm synchronized_read_write d data_ptr_pos p.1 data_set in
        (
          ap is_valid (made_rest.0 ∙ ap (λ y. y.0) rest_cleaned) ∙ cleaned_invalid,
          made_rest.1 ∙ ap (λ y. y.1) rest_cleaned ∙ cleaned ∙ unmapped g' found out _,
          (g, fd, base, has, at, call),
        )
