-- ===== src/Queue/Overflow.antt =====
-- What the operations do at the limits of `size_t` and of the 64-bit counters.
use native.Mathlib.Nat.{zero-div}
use platform_system_libfmq.Base.{
  ℕ, ◌+◌, ◌-◌, ◌*◌, ◌/◌, ◌%◌, ◌^◌, ◌≤◌, ◌<◌, ◌≡◌, refl, true, mul64, sub64, dec_lt, contiguous-mul,
  mod-mod-eq-zero, mul-le-mul_right, arith,
}
use platform_system_libfmq.Transaction.Regions.{tx_byte}
use platform_system_libfmq.Store.{Store}
use platform_system_libfmq.Queue.{
  MessageQueue, ring_transaction, available_to_read, available_to_write, begin_read,
}
use platform_system_libfmq.Queue.Invariant.{
  size, read_counter, write_counter, stored_bytes, IsConfigured, IsAligned, IsSynced,
}

module _ {q : MessageQueue} (c : IsConfigured q) where
  -- A request is granted if its product is, whatever the product in full is.
  wrapped_is_granted :
      {s : Store}
      → IsSynced q s
      → (n : ℕ) → mul64 n q.sizeof_t ≤ stored_bytes q s
      → begin_read q s n ≡ (true, ring_transaction q (read_counter q s % size q) n, s)
  unfolding begin_read
  wrapped_is_granted {s} v n wraps =
      ground (arith, v.read_aligned, v.write_aligned, v.behind, v.no_overrun, v.write_fits)

  -- A transaction of more than two turns of the ring passes its end: the second region, which starts
  -- where the ring does, is longer than the ring.
  passes_end :
      (p n : ℕ)
      → p % q.sizeof_t ≡ 0
      → size q + size q < n * q.sizeof_t
      → let k = size q - p % size q + size q in
        (k < n * q.sizeof_t)
        × (q.ring + size q ≤ tx_byte q.sizeof_t (ring_transaction q (p % size q) n) k)
  unfolding ring_transaction
  passes_end p n aligned far = (omega (arith, far), ground (arith, tail, more))
    where
      tail : (size q - p % size q) / q.sizeof_t * q.sizeof_t ≡ size q - p % size q
      tail =
          contiguous-mul (p % size q) (size q) q.sizeof_t c.whole
            (mod-mod-eq-zero p (size q) q.sizeof_t c.whole aligned)

      more : (size q - p % size q) / q.sizeof_t < n
      more = elim (dec_lt ((size q - p % size q) / q.sizeof_t) n) [
        | yes lt ↦ lt
        | no ge ↦ absurd (
            omega (
              arith,
              tail,
              far,
              mul-le-mul_right {m = n} {n = (size q - p % size q) / q.sizeof_t} q.sizeof_t
                  (omega (arith, ge)),
            ))
      ]

  -- `beginRead` multiplies the number of elements by their size in 64 bits. On a queue that is set up,
  -- with consistent counters and a ring of fewer than 2 ^ 63 bytes: where the elements are not there
  -- but the product wraps to no more than what is stored, the call returns true, and some byte of the
  -- transaction that it hands out is past the end of the ring.
  pub begin_read_wraps :
      {s : Store}
      → IsSynced q s
      → size q < 2 ^ 63
      → (n : ℕ) → stored_bytes q s < n * q.sizeof_t
      → mul64 n q.sizeof_t ≤ stored_bytes q s
      → ((begin_read q s n).0 ≡ true)
        × (k : ℕ) × (k < n * q.sizeof_t)
        × (q.ring + size q ≤ tx_byte q.sizeof_t (begin_read q s n).1 k)
  begin_read_wraps {s} v small n more wraps =
      let (within, past) = passes_end (read_counter q s) n v.read_aligned huge in
      rw (wrapped_is_granted v n wraps)
        (refl, size q - read_counter q s % size q + size q, within, past)
    where
      huge : size q + size q < n * q.sizeof_t
      huge = omega (arith, small, more, wraps)

  -- On a queue that is set up, with counters that are whole elements: once the write counter has
  -- wrapped past zero and the read counter has not, and they are at most the ring apart modulo 2 ^
  -- 64, the two counts of available elements say that the queue is empty and all of the ring is
  -- free, whereas `beginRead` still grants the elements that are there.
  pub counts_after_wrap :
      {s : Store}
      → IsAligned q s
      → write_counter q s < read_counter q s
      → sub64 (write_counter q s) (read_counter q s) ≤ size q
      → (n : ℕ) → n * q.sizeof_t ≤ sub64 (write_counter q s) (read_counter q s)
      → (available_to_read q s ≡ 0)
        × (available_to_write q s ≡ size q / q.sizeof_t)
        × (begin_read q s n ≡ (true, ring_transaction q (read_counter q s % size q) n, s))
  unfolding available_to_read available_to_write begin_read
  counts_after_wrap {s} v wrapped near n h = (
    ground (arith, zero-div q.sizeof_t),
    ground arith,
    ground (arith, v.read_aligned, v.write_aligned, v.write_fits, v.read_fits),
  )
