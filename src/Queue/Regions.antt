-- ===== src/Queue/Regions.antt =====
-- The regions that `beginWrite` and `beginRead` hand out are consecutive positions of the ring.
use native.Mathlib.Nat.{mod-lt, mul-le-mul_left}
use platform_system_libfmq.Base.{
  ℕ, ◌+◌, ◌-◌, ◌*◌, ◌/◌, ◌%◌, ◌≤◌, ◌<◌, ◌≡◌, ◌⊎◌, u64_mod, dec_lt, ring_step_low, ring_step_high,
  contiguous-mul, mod-mod-eq-zero, mul-le-mul_right, sub-mul, arith, inl, inr,
}
use platform_system_libfmq.Transaction.{MemTransaction}
use platform_system_libfmq.Transaction.Regions.{total_length, tx_byte}
use platform_system_libfmq.Transaction.Parts.{IsApart}
use platform_system_libfmq.Queue.{MessageQueue, ring_transaction}
use platform_system_libfmq.Queue.Invariant.{size, IsConfigured, IsCallers}

module _ {q : MessageQueue} (c : IsConfigured q) (p n : ℕ) (aligned : p % q.sizeof_t ≡ 0)
    (room : n * q.sizeof_t ≤ size q) where
  abbrev tx : MemTransaction
  tx = ring_transaction q (p % size q) n

  -- The ring from the position on holds a whole number of elements.
  tail_bytes : (size q - p % size q) / q.sizeof_t * q.sizeof_t ≡ size q - p % size q
  tail_bytes =
      contiguous-mul (p % size q) (size q) q.sizeof_t c.whole
        (mod-mod-eq-zero p (size q) q.sizeof_t c.whole aligned)

  abbrev contiguous : ℕ
  contiguous = (size q - p % size q) / q.sizeof_t

  -- The byte sizes of the two regions, for a request that wraps and for one that does not.
  tail :
      (contiguous * q.sizeof_t ≡ size q - p % size q)
      × ((n - contiguous) * q.sizeof_t ≡ n * q.sizeof_t - contiguous * q.sizeof_t)
      × ((contiguous < n) × (contiguous * q.sizeof_t ≤ n * q.sizeof_t)
          ⊎ (n ≤ contiguous) × (n * q.sizeof_t ≤ contiguous * q.sizeof_t))
  tail = (tail_bytes, sub-mul n contiguous q.sizeof_t, compared)
    where
      compared :
          (contiguous < n) × (contiguous * q.sizeof_t ≤ n * q.sizeof_t)
          ⊎ (n ≤ contiguous) × (n * q.sizeof_t ≤ contiguous * q.sizeof_t)
      compared = elim (dec_lt contiguous n) [
        | yes lt ↦ inl (lt, mul-le-mul_right q.sizeof_t (omega arith))
        | no ge ↦ inr (omega arith, mul-le-mul_right q.sizeof_t (omega arith))
      ]

  count_fits : n < u64_mod
  count_fits = omega (arith, mul-le-mul_left n c.element, c.addressable)

  pub total-ring_transaction : total_length tx ≡ n
  unfolding ring_transaction
  total-ring_transaction = ground arith

  pub ring_transaction_byte :
      (k : ℕ) → k < n * q.sizeof_t → tx_byte q.sizeof_t tx k ≡ q.ring + (p + k) % size q
  unfolding ring_transaction
  ring_transaction_byte k lt = elim (dec_lt (p % size q + k) (size q)) [
    | yes low ↦ ground (arith, tail, mod-lt p c.some_room, ring_step_low p k (size q) low)
    | no high ↦ ground (
      arith,
      tail,
      mod-lt p c.some_room,
      ring_step_high p k (size q) (omega arith) c.some_room (omega arith),
    )
  ]

  pub ring_transaction-IsApart :
      (data_ : ℕ)
      → IsCallers q data_ (n * q.sizeof_t)
      → IsApart q.sizeof_t tx data_ (n * q.sizeof_t)
  unfolding ring_transaction
  ring_transaction-IsApart data_ callers = record {
    given = callers.given;
    fits = ground (arith, tail, c.addressable);
    count_fits = ground (arith, count_fits);
    regions = ground (arith, tail, mod-lt p c.some_room);
    from_first = ground (arith, tail, mod-lt p c.some_room, callers.apart);
    from_second = ground (arith, tail, mod-lt p c.some_room, callers.apart);
  }
