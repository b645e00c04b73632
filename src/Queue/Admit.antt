-- ===== src/Queue/Admit.antt =====
-- What `beginWrite`, `beginRead` and the commits answer on a queue with consistent counters.
use native.Mathlib.Nat.{le-div_iff_mul-le}
use platform_system_libfmq.Base.{
  ℕ, ◌*◌, ◌/◌, ◌%◌, ◌≤◌, ◌<◌, ◌≡◌, ◌⊎◌, ◌↔◌, true, false, u64_mod, mul64-eq, dec_le, inl, inr, ap,
  arith,
}
use platform_system_libfmq.Store.{Store}
use platform_system_libfmq.Descriptor.{synchronized_read_write}
use platform_system_libfmq.Transaction.{MemTransaction, empty_transaction}
use platform_system_libfmq.Queue.{
  MessageQueue, ring_transaction, get_quantum_count, available_to_read, available_to_write,
  begin_write, begin_read,
}
use platform_system_libfmq.Queue.Invariant.{
  size, read_counter, write_counter, stored_bytes, free_bytes, IsConfigured, IsSynced,
}

module _ {q : MessageQueue} (c : IsConfigured q) where
  -- At most `x / sizeof(T)` elements are exactly those that fit in `x` bytes.
  pub le-div_element :
      (n x : ℕ)
      → ((n * q.sizeof_t ≤ x) × (n ≤ x / q.sizeof_t))
        ⊎ ((x < n * q.sizeof_t) × (x / q.sizeof_t < n))
  le-div_element n x = elim (dec_le (n * q.sizeof_t) x) [
    | yes h ↦ inl (h, (le-div_iff_mul-le c.element).1 h)
    | no h ↦ inr (
      omega arith,
      elim (dec_le n (x / q.sizeof_t)) [
        | yes e ↦ absurd (h ((le-div_iff_mul-le c.element).0 e))
        | no e ↦ omega arith
      ],
    )
  ]

  pub quantum_count : get_quantum_count q ≡ size q / q.sizeof_t
  unfolding get_quantum_count
  quantum_count = rw c.quantum

  module _ {s : Store} (v : IsSynced q s) where
    -- On consistent counters the two counts are the whole elements stored, and the room left.
    pub available_counts :
        (available_to_read q s ≡ stored_bytes q s / q.sizeof_t)
        × (available_to_write q s ≡ free_bytes q s / q.sizeof_t)
    unfolding available_to_read available_to_write
    available_counts = (ground (arith, v.behind), ground (arith, v.behind, v.no_overrun))

    pub begin_write_admits :
        (n : ℕ) (result : MemTransaction)
        → n * q.sizeof_t ≤ free_bytes q s
        → begin_write q s n result ≡ (true, ring_transaction q (write_counter q s % size q) n)
    unfolding begin_write
    begin_write_admits n result h = ground (
      arith,
      available_counts.1,
      quantum_count,
      le-div_element n (free_bytes q s),
      le-div_element n (size q),
      v.write_aligned,
    )

    pub begin_write_refuses :
        (n : ℕ) (result : MemTransaction)
        → q.flavor ≡ synchronized_read_write
        → free_bytes q s < n * q.sizeof_t
        → begin_write q s n result ≡ (false, empty_transaction)
    unfolding begin_write
    begin_write_refuses n result sync h =
        ground (arith, available_counts.1, quantum_count, le-div_element n (free_bytes q s))

    pub begin_read_admits :
        (n : ℕ)
        → n * q.sizeof_t ≤ stored_bytes q s
        → begin_read q s n ≡ (true, ring_transaction q (read_counter q s % size q) n, s)
    unfolding begin_read
    begin_read_admits n h = ground (
      arith,
      v.read_aligned,
      v.write_aligned,
      v.behind,
      v.no_overrun,
      v.write_fits,
      mul64-eq n q.sizeof_t,
      c.addressable,
    )

    pub begin_read_refuses :
        (n : ℕ)
        → stored_bytes q s < n * q.sizeof_t
        → n * q.sizeof_t < u64_mod
        → begin_read q s n ≡ (false, empty_transaction, s)
    unfolding begin_read
    begin_read_refuses n h fits = ground (
      arith,
      v.read_aligned,
      v.write_aligned,
      v.behind,
      v.no_overrun,
      v.write_fits,
      mul64-eq n q.sizeof_t,
      c.addressable,
    )

    -- On a synchronized queue that is set up and has consistent counters, of which none has wrapped, and
    -- for a number `n` of elements of fewer than 2 ^ 64 bytes: `beginWrite` grants `n` elements exactly
    -- if `availableToWrite` is at least `n`, and `beginRead` exactly if `availableToRead` is.
    pub begin_iff_available :
        (n : ℕ) (result : MemTransaction)
        → q.flavor ≡ synchronized_read_write
        → n * q.sizeof_t < u64_mod
        → (((begin_write q s n result).0 ≡ true) ↔ (n ≤ available_to_write q s))
          × (((begin_read q s n).0 ≡ true) ↔ (n ≤ available_to_read q s))
    begin_iff_available n result sync fits = (
      elim (le-div_element n (free_bytes q s)) [
        | inl (h, k) ↦
            (λ e. rw available_counts.1 k, λ e. ap (λ r. r.0) (begin_write_admits n result h))
        | inr (h, k) ↦ (
          λ e. cc (ap (λ r. r.0) (begin_write_refuses n result sync h)),
          λ e. absurd (omega (arith, available_counts.1)),
        )
      ],
      elim (le-div_element n (stored_bytes q s)) [
        | inl (h, k) ↦ (λ e. rw available_counts.0 k, λ e. ap (λ r. r.0) (begin_read_admits n h))
        | inr (h, k) ↦ (
          λ e. cc (ap (λ r. r.0) (begin_read_refuses n h fits)),
          λ e. absurd (omega (arith, available_counts.0)),
        )
      ],
    )
