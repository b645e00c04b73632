-- ===== src/Tests/Transactions.antt =====
-- The theorems about transactions at a concrete input: two-byte elements, two at address 104 and one
-- at address 100, the end and the start of a ring of three.
use platform_system_libfmq.Base.{
  ℕ, ◌+◌, ◌*◌, ◌≤◌, ◌<◌, ◌≡◌, ◌↔◌, ◌≢◌, inr, refl, [], ◌∷◌, true, arith,
}
use platform_system_libfmq.Store.{Memory, nullptr}
use platform_system_libfmq.Transaction.{MemTransaction, empty_region, get_slot, copy_to, copy_from}
use platform_system_libfmq.Transaction.Parts.{IsApart}
use platform_system_libfmq.Transaction.Slots.{get_slot_bound, copy_to_slots, copy_from-copy_to}

abbrev wrapping : MemTransaction
wrapping = record {
  first = record { address = 104; length = 2 };
  second = record { address = 100; length = 1 };
}

abbrev own_address : Memory
own_address a = a

slots :
    get_slot 2 wrapping 0 ∷ get_slot 2 wrapping 1 ∷ get_slot 2 wrapping 2 ∷ []
    ≡ 104 ∷ 106 ∷ 100 ∷ []
unfolding get_slot
slots = refl

wrapping-IsApart : (data_ n : ℕ) → 200 ≤ data_ → n ≤ 6 → IsApart 2 wrapping data_ n
wrapping-IsApart data_ n h k = record {
  given = omega arith;
  fits = omega arith;
  count_fits = omega arith;
  regions = inr (omega arith);
  from_first = inr (omega arith);
  from_second = inr (omega arith);
}

-- An index one past the end is answered with the end of the second region.
get_slot_bound_example :
    (4 < 3 → get_slot 2 wrapping 4 ≢ nullptr)
    × (3 < 4 → get_slot 2 wrapping 4 ≡ nullptr)
    × (get_slot 2 wrapping 3 ≡ 102)
    × ((get_slot 2 wrapping 3 ≡ nullptr) ↔ (wrapping.second ≡ empty_region))
get_slot_bound_example = get_slot_bound 2 wrapping 4 (omega arith) (omega arith) (inr (omega arith))

copy_to_slots_example :
    (copy_to 2 wrapping 1000 1 2 own_address).0 ≡ true
    × ((i b : ℕ)
        → i < 2
        → b < 2
        → (copy_to 2 wrapping 1000 1 2 own_address).1 (get_slot 2 wrapping (1 + i) + b)
          ≡ 1000 + (i * 2 + b))
    × ((a : ℕ)
        → ((i b : ℕ) → i < 2 → b < 2 → a ≢ get_slot 2 wrapping (1 + i) + b)
        → (copy_to 2 wrapping 1000 1 2 own_address).1 a ≡ a)
copy_to_slots_example =
    copy_to_slots 2 wrapping 1000 1 2 own_address
      (wrapping-IsApart 1000 4 (omega arith) (omega arith)) (omega arith)

copy_from-copy_to_example :
    let m' = (copy_to 2 wrapping 1000 1 2 own_address).1 in
    (copy_from 2 wrapping 2000 1 2 m').1 (2000 + 3) ≡ 1000 + 3
copy_from-copy_to_example =
    copy_from-copy_to 2 wrapping 1000 2000 1 2 own_address
      (wrapping-IsApart 1000 4 (omega arith) (omega arith))
      (wrapping-IsApart 2000 4 (omega arith) (omega arith)) (omega arith) 3 (omega arith)
