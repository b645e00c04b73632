-- ===== src/Setup/Lifecycle/Opened.antt =====
-- What `initMemory` makes of an object: its other members stay, and if it is valid, then both counters
-- are at zero.
use platform_system_libfmq.Base.{
  ℕ, ◌≡◌, inl, inr, refl, ap, ◌∙◌, Bool, true, false, ◌||◌, not, Bool-cases, ltb, ◌==◌, ◌!=◌,
  if◌then◌else◌, arith,
}
use platform_system_libfmq.Store.{Store, nullptr, store64}
use platform_system_libfmq.Descriptor.{
  MqFlavor, Descriptor, get_quantum, data_ptr_pos, ev_flag_word_pos, read_ptr_pos, write_ptr_pos,
  is_handle_valid, count_grantors, min_grantor_count,
}
use platform_system_libfmq.Queue.{MessageQueue, is_valid, is_synchronized}
use platform_system_libfmq.Setup.{Vm, map_grantor_descr}
use platform_system_libfmq.Setup.Lifecycle.{unset, clean_up, reset_counters, map_ring, init_memory}

-- An object with its counters at zero.
pub record IsFresh (q : MessageQueue) (s : Store) : Type 0 where
  pub readable : s.u64 q.read_ptr ≡ 0
  pub writable : s.u64 q.write_ptr ≡ 0

-- The members that `initMemory` does not set.
pub record IsOf (q : MessageQueue) (flavor : MqFlavor) (sizeof_t : ℕ) (d : Descriptor)
    : Type 0 where
  pub same_size : q.sizeof_t ≡ sizeof_t
  pub same_flavor : q.flavor ≡ flavor
  pub same_desc : q.desc ≡ d

or-last : (a b : Bool) {c : Bool} → a || b || c ≡ false → c ≡ false
or-last true b h = cc
or-last false true h = cc
or-last false false h = h

module _ (vm : Vm) where
  -- The object stays but for its pointers; if it is valid, its counters are those it had before.
  record Keeps (q : MessageQueue) (x : MessageQueue × vm.World) : Type 0 where
    same : IsOf x.0 q.flavor q.sizeof_t q.desc
    counters : is_valid x.0 ≡ true → (x.0.read_ptr ≡ q.read_ptr) × (x.0.write_ptr ≡ q.write_ptr)

  cleaned-Keeps :
      (q : MessageQueue) (ring : ℕ) (w : vm.World)
      → Keeps q (clean_up vm (record q { ring = ring }) w)
  unfolding clean_up is_valid
  cleaned-Keeps q ring w = record {
    same = record { same_size = refl; same_flavor = refl; same_desc = refl };
    counters = λ no. cc;
  }

  map_ring-Keeps : (q : MessageQueue) (w : vm.World) → Keeps q (map_ring vm q w)
  unfolding map_ring
  map_ring-Keeps q w = elim (Bool-cases (ring.0 == nullptr)) [
    | inl no_ring ↦ rw (map_ring, no_ring) (cleaned-Keeps q _ _)
    | inr e ↦ elim (Bool-cases (not (ltb ev_flag_word_pos (count_grantors q.desc)))) [
      | inl no_flag ↦
          rw (map_ring, e, no_flag)
            (record {
              same = record { same_size = refl; same_flavor = refl; same_desc = refl };
              counters = λ ok. (refl, refl);
            })
      | inr e' ↦
          elim (Bool-cases
            ((map_grantor_descr vm q.flavor q.desc ev_flag_word_pos ring.1).0 == nullptr)) [
              | inl no_word ↦ rw (map_ring, e, e', no_word) (cleaned-Keeps q _ _)
              | inr e'' ↦
                  rw (map_ring, e, e', e'')
                    (record {
                      same = record { same_size = refl; same_flavor = refl; same_desc = refl };
                      counters = λ ok. (refl, refl);
                    })
            ]
    ]
  ]
    where
      ring : ℕ × vm.World
      ring = map_grantor_descr vm q.flavor q.desc data_ptr_pos w

  -- What `initMemory` makes of an object: the members stay, and if it is valid, then the element size
  -- is that of the descriptor and the counters are at zero.
  pub record Good (flavor : MqFlavor) (sizeof_t : ℕ) (d : Descriptor)
      (x : MessageQueue × Store × vm.World) : Type 0 where
    pub same : IsOf x.0 flavor sizeof_t d
    pub fresh : is_valid x.0 ≡ true → (get_quantum d ≡ sizeof_t) × IsFresh x.0 x.1

  reset-IsFresh :
      (q q' : MessageQueue) (s : Store)
      → (q'.read_ptr ≡ q.read_ptr) × (q'.write_ptr ≡ q.write_ptr)
      → IsFresh q' (reset_counters true q s)
  unfolding reset_counters
  reset-IsFresh q q' s (e, e') = record {
    readable = ap (λ p. (store64 (store64 s q.read_ptr 0) q.write_ptr 0).u64 p) e ∙ ground arith;
    writable = ap (λ p. (store64 (store64 s q.read_ptr 0) q.write_ptr 0).u64 p) e' ∙ ground arith;
  }

  cleaned-Good :
      (flavor : MqFlavor) (sizeof_t : ℕ) (d : Descriptor) (read_ptr : ℕ) (s : Store) (v : vm.World)
      → let (q, w') = clean_up vm (record (unset flavor sizeof_t d) { read_ptr = read_ptr }) v in
        Good flavor sizeof_t d (q, s, w')
  unfolding clean_up is_valid
  cleaned-Good flavor sizeof_t d read_ptr s v = record {
    same = record { same_size = refl; same_flavor = refl; same_desc = refl };
    fresh = λ no. cc;
  }

  invalid-Good :
      (flavor : MqFlavor) (sizeof_t : ℕ) (d : Descriptor) (s : Store) (w : vm.World)
      → Good flavor sizeof_t d (unset flavor sizeof_t d, s, w)
  unfolding is_valid
  invalid-Good flavor sizeof_t d s w = record {
    same = record { same_size = refl; same_flavor = refl; same_desc = refl };
    fresh = λ no. cc;
  }

  module _ (flavor : MqFlavor) (sizeof_t : ℕ) (d : Descriptor) (s : Store) (w : vm.World) where
    abbrev reader : ℕ × vm.World
    reader =
        if is_synchronized flavor
        then map_grantor_descr vm flavor d read_ptr_pos w
        else vm.new_counter w

    abbrev writer : ℕ × vm.World
    writer = map_grantor_descr vm flavor d write_ptr_pos reader.1

    abbrev refuses : Bool
    refuses =
        not (is_handle_valid d)
        || ltb (count_grantors d) min_grantor_count
        || get_quantum d != sizeof_t

    abbrev with_counters : MessageQueue
    with_counters = record (unset flavor sizeof_t d) { read_ptr = reader.0; write_ptr = writer.0 }

    abbrev pub made : MessageQueue × Store × vm.World
    made = init_memory vm true (unset flavor sizeof_t d) s w

    same_quantum : refuses ≡ false → get_quantum d ≡ sizeof_t
    same_quantum e =
        equal (or-last (not (is_handle_valid d)) (ltb (count_grantors d) min_grantor_count) e)
      where
        equal : get_quantum d != sizeof_t ≡ false → get_quantum d ≡ sizeof_t
        equal h = ground arith

    mapped-Good :
        get_quantum d ≡ sizeof_t
        → Good flavor sizeof_t d (
          (map_ring vm with_counters writer.1).0,
          reset_counters true with_counters s,
          (map_ring vm with_counters writer.1).1,
        )
    mapped-Good same_quantum =
        let kept = map_ring-Keeps with_counters writer.1 in
        record {
          same = kept.same;
          fresh = λ ok. (same_quantum, reset-IsFresh with_counters _ s (kept.counters ok));
        }

    pub init_memory-Good : Good flavor sizeof_t d made
    unfolding init_memory
    init_memory-Good = elim (Bool-cases refuses) [
      | inl e ↦ rw (init_memory, e) (invalid-Good flavor sizeof_t d s w)
      | inr e ↦ elim (Bool-cases (reader.0 == nullptr)) [
        | inl e' ↦ rw (init_memory, e, e') (cleaned-Good flavor sizeof_t d reader.0 s reader.1)
        | inr e' ↦ elim (Bool-cases (writer.0 == nullptr)) [
          | inl e'' ↦
              rw (init_memory, e, e', e'') (cleaned-Good flavor sizeof_t d reader.0 s writer.1)
          | inr e'' ↦ rw (init_memory, e, e', e'') (mapped-Good (same_quantum e))
        ]
      ]
    ]
