-- ===== src/Setup/Lifecycle/Valid.antt =====
-- A queue object that `initMemory` leaves valid has every grantor mapped.
use platform_system_libfmq.Base.{
  ◌≢◌, ℕ, ◌≡◌, inl, inr, refl, Bool, true, false, ◌||◌, not, Bool-cases, ltb, ◌==◌, ◌!=◌,
  if◌then◌else◌, arith,
}
use platform_system_libfmq.Store.{Store, nullptr}
use platform_system_libfmq.Descriptor.{
  MqFlavor, Descriptor, get_quantum, data_ptr_pos, ev_flag_word_pos, read_ptr_pos, write_ptr_pos,
  is_handle_valid, count_grantors, min_grantor_count,
}
use platform_system_libfmq.EventFlag.Object.{create_event_flag}
use platform_system_libfmq.Queue.{MessageQueue, is_valid, is_synchronized}
use platform_system_libfmq.Setup.{Vm, map_grantor_descr}
use platform_system_libfmq.Setup.Lifecycle.{unset, clean_up, reset_counters, map_ring, init_memory}

module _ (vm : Vm) (reset_pointers : Bool) (flavor : MqFlavor) (sizeof_t : ℕ) (d : Descriptor)
    (s : Store) (w : vm.World) where
  -- The four mappings, in their order. A reader of an unsynchronized queue has its own counter.
  abbrev pub reader : ℕ × vm.World
  reader =
      if is_synchronized flavor
      then map_grantor_descr vm flavor d read_ptr_pos w
      else vm.new_counter w

  abbrev pub writer : ℕ × vm.World
  writer = map_grantor_descr vm flavor d write_ptr_pos reader.1

  abbrev pub ring : ℕ × vm.World
  ring = map_grantor_descr vm flavor d data_ptr_pos writer.1

  abbrev pub word : ℕ × vm.World
  word = map_grantor_descr vm flavor d ev_flag_word_pos ring.1

  abbrev pub has_word : Bool
  has_word = ltb ev_flag_word_pos (count_grantors d)

  abbrev pub with_counters : MessageQueue
  with_counters = record (unset flavor sizeof_t d) { read_ptr = reader.0; write_ptr = writer.0 }

  abbrev pub with_ring : MessageQueue
  with_ring = record with_counters { ring = ring.0 }

  abbrev pub with_word : MessageQueue
  with_word = record with_ring {
    ev_flag_word = word.0;
    event_flag = (create_event_flag true (vm.new_event_flag word.1) word.0).1;
  }

  abbrev pub made : MessageQueue × Store × vm.World
  made = init_memory vm reset_pointers (unset flavor sizeof_t d) s w

  -- A valid object: what it holds, and the store and the world that it leaves.
  pub record IsMapped (x : MessageQueue × Store × vm.World) : Type 0 where
    pub quantum : get_quantum d ≡ sizeof_t
    pub same : x.0 ≡ (if has_word then with_word else with_ring)
    pub store : x.1 ≡ reset_counters reset_pointers with_counters s
    pub world : x.2 ≡ (if has_word then word.1 else ring.1)
    pub word_set : has_word ≡ true → word.0 ≢ nullptr

  abbrev refuses : Bool
  refuses =
      not (is_handle_valid d)
      || ltb (count_grantors d) min_grantor_count
      || get_quantum d != sizeof_t

  same_quantum : refuses ≡ false → get_quantum d ≡ sizeof_t
  same_quantum e = ground (arith, e)

  ring_valid :
      is_valid (map_ring vm with_counters writer.1).0 ≡ true
      → (map_ring vm with_counters writer.1
          ≡ (if has_word then (with_word, word.1) else (with_ring, ring.1)))
        × (has_word ≡ true → word.0 ≢ nullptr)
  unfolding map_ring is_valid clean_up
  ring_valid = elim (Bool-cases (ring.0 == nullptr)) [
    | inl no_ring ↦ rw (map_ring, no_ring) λ no. cc
    | inr e ↦ elim (Bool-cases has_word) [
      | inr no_flag ↦ rw (map_ring, e, no_flag) λ ok. (refl, λ flag. cc)
      | inl flag ↦ elim (Bool-cases (word.0 == nullptr)) [
        | inl no_word ↦ rw (map_ring, e, flag, no_word) λ no. cc
        | inr e' ↦ rw (map_ring, e, flag, e') λ ok. (refl, λ flag'. ground (arith, e'))
      ]
    ]
  ]

  -- With the counters mapped, the rest of `initMemory` is the ring and the event flag's word.
  after_counters :
      refuses ≡ false
      → is_valid (map_ring vm with_counters writer.1).0 ≡ true
      → IsMapped (
        (map_ring vm with_counters writer.1).0,
        reset_counters reset_pointers with_counters s,
        (map_ring vm with_counters writer.1).1,
      )
  after_counters e ok = rw (ring_valid ok).0 (elim (Bool-cases has_word) [
    | inl flag ↦ record {
      quantum = same_quantum e;
      same = rw flag refl;
      store = refl;
      world = rw flag refl;
      word_set = (ring_valid ok).1;
    }
    | inr no_flag ↦ record {
      quantum = same_quantum e;
      same = rw no_flag refl;
      store = refl;
      world = rw no_flag refl;
      word_set = (ring_valid ok).1;
    }
  ])

  pub init_memory_valid : is_valid made.0 ≡ true → IsMapped made
  unfolding init_memory clean_up is_valid
  init_memory_valid = elim (Bool-cases refuses) [
    | inl e ↦ rw (init_memory, e) λ no. cc
    | inr e ↦ elim (Bool-cases (reader.0 == nullptr)) [
      | inl e' ↦ rw (init_memory, e, e') λ no. cc
      | inr e' ↦ elim (Bool-cases (writer.0 == nullptr)) [
        | inl e'' ↦ rw (init_memory, e, e', e'') λ no. cc
        | inr e'' ↦ rw (init_memory, e, e', e'') (after_counters e)
      ]
    ]
  ]

  -- The members of a valid object.
  pub record IsPlaced (q : MessageQueue) : Type 0 where
    pub same_size : q.sizeof_t ≡ sizeof_t
    pub same_flavor : q.flavor ≡ flavor
    pub same_desc : q.desc ≡ d
    pub reader_at : q.read_ptr ≡ reader.0
    pub writer_at : q.write_ptr ≡ writer.0
    pub ring_at : q.ring ≡ ring.0

  pub IsMapped-IsPlaced : {x : MessageQueue × Store × vm.World} → IsMapped x → IsPlaced x.0
  IsMapped-IsPlaced m = rw m.same (elim (Bool-cases has_word) [
    | inl flag ↦ rw flag (record {
      same_size = refl;
      same_flavor = refl;
      same_desc = refl;
      reader_at = refl;
      writer_at = refl;
      ring_at = refl;
    })
    | inr no_flag ↦ rw no_flag (record {
      same_size = refl;
      same_flavor = refl;
      same_desc = refl;
      reader_at = refl;
      writer_at = refl;
      ring_at = refl;
    })
  ])

pub is_valid-pointers :
    (q : MessageQueue)
    → is_valid q ≡ true
    → (q.ring ≢ nullptr) × (q.read_ptr ≢ nullptr) × (q.write_ptr ≢ nullptr)
unfolding is_valid
is_valid-pointers q ok = ground (arith, ok)
