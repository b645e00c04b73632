-- ===== src/Transaction/Slots.antt =====
-- `copyTo`, `copyFrom` and `getSlot` of one transaction agree.
use native.Mathlib.Nat.{div-add-mod', mod-lt, div-lt_iff_lt-mul}
use platform_system_libfmq.Base.{
  ℕ, ◌+◌, ◌*◌, ◌/◌, ◌%◌, ◌≤◌, ◌<◌, ◌≡◌, ◌≢◌, ◌⊎◌, ◌↔◌, inl, inr, sym, ◌∙◌, ap, true, u64_mod,
  dec_lt, element_byte_lt, mul-le-mul_right, arith,
}
use platform_system_libfmq.Store.{Memory, nullptr}
use platform_system_libfmq.Transaction.{
  MemRegion, MemTransaction, empty_region, get_slot, copy_from, copy_to,
}
use platform_system_libfmq.Transaction.Regions.{total_length, tx_byte, get_slot-eq-tx_byte}
use platform_system_libfmq.Transaction.Parts.{IsApart}
use platform_system_libfmq.Transaction.Copy.{copy_to-CopiedTo, copy_from-CopiedFrom}

module _ (sizeof_t : ℕ) (tx : MemTransaction) where
  -- What `getSlot` answers, by the index.
  get_slot-cases :
      (idx : ℕ)
      → total_length tx < u64_mod
      → 0 < tx.first.address
      → (tx.second.length ≡ 0) ⊎ (0 < tx.second.address)
      → (idx < total_length tx → get_slot sizeof_t tx idx ≢ nullptr)
        × (total_length tx < idx → get_slot sizeof_t tx idx ≡ nullptr)
        × (get_slot sizeof_t tx (total_length tx) ≡ tx.second.address + tx.second.length * sizeof_t)
  unfolding get_slot
  get_slot-cases idx fits pos two = (
    ground (arith, mul-le-mul_right {m = tx.first.length} {n = idx} sizeof_t),
    ground arith,
    ground arith,
  )

  -- `getSlot` answers an address below the number of elements, and null above it. For the number of
  -- elements itself, one past the last, it answers the end of the second region: null if the transaction
  -- has one region, but not null if it wraps and has two. A first region has an address, and a second
  -- region is empty or has one.
  pub get_slot_bound :
      (idx : ℕ)
      → total_length tx < u64_mod
      → 0 < tx.first.address
      → (tx.second ≡ empty_region) ⊎ (0 < tx.second.address)
      → (idx < total_length tx → get_slot sizeof_t tx idx ≢ nullptr)
        × (total_length tx < idx → get_slot sizeof_t tx idx ≡ nullptr)
        × (get_slot sizeof_t tx (total_length tx) ≡ tx.second.address + tx.second.length * sizeof_t)
        × ((get_slot sizeof_t tx (total_length tx) ≡ nullptr) ↔ (tx.second ≡ empty_region))
  get_slot_bound idx fits pos (inl one) =
      let (below, above, last) =
        get_slot-cases idx fits pos (inl (ap (λ (r : MemRegion). r.length) one)) in
      (
        below,
        above,
        last,
        (
          λ e. one,
          λ e. last ∙ ap (λ (r : MemRegion). r.address + r.length * sizeof_t) one ∙ omega arith,
        ),
      )
  get_slot_bound idx fits pos (inr two) =
      let (below, above, last) = get_slot-cases idx fits pos (inr two) in
      (
        below,
        above,
        last,
        (
          λ e. absurd (omega (arith, last, e, two)),
          λ e. absurd (omega (arith, two, ap (λ (r : MemRegion). r.address) e)),
        ),
      )

  module _ (data_ st n : ℕ) (m : Memory) (apart : IsApart sizeof_t tx data_ (n * sizeof_t))
      (hn : st + n ≤ total_length tx) where
    -- Byte `b` of slot `st + i` is byte `i * sizeof_t + b` of the range that starts at slot `st`.
    slot_byte :
        (i b : ℕ)
        → i < n
        → b < sizeof_t
        → get_slot sizeof_t tx (st + i) + b
          ≡ tx_byte sizeof_t tx (st * sizeof_t + (i * sizeof_t + b))
    slot_byte i b hi hb =
        get_slot-eq-tx_byte sizeof_t tx (st + i) b apart.count_fits (omega arith) hb
        ∙ ap (tx_byte sizeof_t tx) (omega arith)

    -- Every byte of the range lies in a slot.
    out_byte :
        (a : ℕ)
        → ((i b : ℕ) → i < n → b < sizeof_t → a ≢ get_slot sizeof_t tx (st + i) + b)
        → (k : ℕ) → k < n * sizeof_t
        → a ≢ tx_byte sizeof_t tx (st * sizeof_t + k)
    out_byte a out k lt e = elim (dec_lt 0 sizeof_t) [
      | yes pos ↦ out (k / sizeof_t) (k % sizeof_t) (below pos) (mod-lt k pos) (
          e
          ∙ ap (λ j. tx_byte sizeof_t tx (st * sizeof_t + j)) (sym (div-add-mod' k sizeof_t))
          ∙ sym (slot_byte (k / sizeof_t) (k % sizeof_t) (below pos) (mod-lt k pos)))
      | no zero_size ↦ grind arith
    ]
      where
        below : 0 < sizeof_t → k / sizeof_t < n
        below pos = (div-lt_iff_lt-mul pos).1 lt

    -- Let the range of `n` slots from `st` lie within the transaction, whose regions do not overlap
    -- and fit in the address space, and let the caller's array be apart from it. After `copyTo`,
    -- slot `st + i` holds element `i` of the array, for each `i < n`, and no byte outside these
    -- slots has changed; the call reports success.
    pub copy_to_slots :
        (copy_to sizeof_t tx data_ st n m).0 ≡ true
        × ((i b : ℕ)
            → i < n
            → b < sizeof_t
            → (copy_to sizeof_t tx data_ st n m).1 (get_slot sizeof_t tx (st + i) + b)
              ≡ m (data_ + (i * sizeof_t + b)))
        × ((a : ℕ)
            → ((i b : ℕ) → i < n → b < sizeof_t → a ≢ get_slot sizeof_t tx (st + i) + b)
            → (copy_to sizeof_t tx data_ st n m).1 a ≡ m a)
    copy_to_slots = (
      done,
      λ i b hi hb. rw (slot_byte i b hi hb) (inside _ (element_byte_lt i n b sizeof_t hi hb)),
      λ a out. outside a (λ k lt. out_byte a out k lt),
    )
      where
        open (copy_to-CopiedTo sizeof_t tx data_ st n m apart hn) use {done, inside, outside}

    -- `copyFrom` is the mirror image: it fills the caller's array from the slots, and changes no
    -- byte outside of that array.
    pub copy_from_slots :
        (copy_from sizeof_t tx data_ st n m).0 ≡ true
        × ((i b : ℕ)
            → i < n
            → b < sizeof_t
            → (copy_from sizeof_t tx data_ st n m).1 (data_ + (i * sizeof_t + b))
              ≡ m (get_slot sizeof_t tx (st + i) + b))
        × ((a : ℕ)
            → (a < data_) ⊎ (data_ + n * sizeof_t ≤ a)
            → (copy_from sizeof_t tx data_ st n m).1 a ≡ m a)
    copy_from_slots = (
      done,
      λ i b hi hb. rw (slot_byte i b hi hb) (inside _ (element_byte_lt i n b sizeof_t hi hb)),
      outside,
    )
      where
        open (copy_from-CopiedFrom sizeof_t tx data_ st n m apart hn) use {done, inside, outside}

  -- What `copyTo` puts into a range within a transaction, from an array apart from it, `copyFrom`
  -- gets back, into any array apart from it. The transaction's regions do not overlap and fit in
  -- the address space.
  pub copy_from-copy_to :
      (src dst st n : ℕ) (m : Memory)
      → IsApart sizeof_t tx src (n * sizeof_t)
      → IsApart sizeof_t tx dst (n * sizeof_t)
      → st + n ≤ total_length tx
      → let m' = (copy_to sizeof_t tx src st n m).1 in
        (k : ℕ) → k < n * sizeof_t → (copy_from sizeof_t tx dst st n m').1 (dst + k) ≡ m (src + k)
  copy_from-copy_to src dst st n m from to hn k lt =
      (copy_from-CopiedFrom sizeof_t tx dst st n _ to hn).inside k lt
      ∙ (copy_to-CopiedTo sizeof_t tx src st n m from hn).inside k lt
