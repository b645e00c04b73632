-- ===== src/Queue/Bounds.antt =====
-- Memory safety: whatever stands in the two counters, which another process can write, a transaction
-- that is handed out stays in the ring.
use native.Mathlib.Nat.{mod-lt}
use platform_system_libfmq.Base.{ℕ, ◌+◌, ◌*◌, ◌%◌, ◌≤◌, ◌<◌, ◌≡◌, true, u64_mod, mul64-eq, arith}
use platform_system_libfmq.Store.{Store}
use platform_system_libfmq.Transaction.{MemTransaction}
use platform_system_libfmq.Transaction.Regions.{tx_byte}
use platform_system_libfmq.Queue.{MessageQueue, ring_transaction, begin_write, begin_read}
use platform_system_libfmq.Queue.Invariant.{size, read_counter, write_counter, IsConfigured}
use platform_system_libfmq.Queue.Admit.{le-div_element, quantum_count}
use platform_system_libfmq.Queue.Regions.{ring_transaction_byte}

-- The first `bytes` bytes of a transaction are in the ring.
abbrev pub StaysIn : MessageQueue → MemTransaction → ℕ → Type 0
StaysIn q tx bytes =
    (k : ℕ)
    → k < bytes
    → (q.ring ≤ tx_byte q.sizeof_t tx k) × (tx_byte q.sizeof_t tx k < q.ring + size q)

module _ {q : MessageQueue} (c : IsConfigured q) (s : Store) (n : ℕ) where
  ring_transaction-StaysIn :
      (p : ℕ)
      → p % q.sizeof_t ≡ 0
      → n * q.sizeof_t ≤ size q
      → StaysIn q (ring_transaction q (p % size q) n) (n * q.sizeof_t)
  ring_transaction-StaysIn p aligned room k lt =
      let address = ring_transaction_byte c p n aligned room k lt in
      (omega (arith, address), omega (arith, address, mod-lt (p + k) c.some_room))

  pub granted_read :
      n * q.sizeof_t < u64_mod
      → (begin_read q s n).0 ≡ true
      → (read_counter q s % q.sizeof_t ≡ 0)
        × (n * q.sizeof_t ≤ size q)
        × ((begin_read q s n).1 ≡ ring_transaction q (read_counter q s % size q) n)
  unfolding begin_read
  granted_read fits e =
      (ground (arith, e), ground (arith, e, mul64-eq n q.sizeof_t, fits), ground (arith, e))

  pub granted_write :
      (result : MemTransaction)
      → (begin_write q s n result).0 ≡ true
      → (write_counter q s % q.sizeof_t ≡ 0)
        × (n * q.sizeof_t ≤ size q)
        × ((begin_write q s n result).1 ≡ ring_transaction q (write_counter q s % size q) n)
  unfolding begin_write
  granted_write result e = (
    ground (arith, e),
    ground (arith, e, quantum_count c, le-div_element c n (size q)),
    ground (arith, e),
  )

  -- On a queue that is set up, whatever the counters are: if `beginWrite` returns true, then each
  -- byte of the transaction is in the ring.
  pub begin_write-StaysIn :
      (result : MemTransaction)
      → (begin_write q s n result).0 ≡ true
      → StaysIn q (begin_write q s n result).1 (n * q.sizeof_t)
  begin_write-StaysIn result e =
      let (aligned, room, same) = granted_write result e in
      rw same (ring_transaction-StaysIn (write_counter q s) aligned room)

  -- On a queue that is set up, whatever the counters are: if `beginRead` returns true, for a
  -- request whose size in bytes is below 2 ^ 64, then each byte of the transaction is in the ring.
  pub begin_read-StaysIn :
      n * q.sizeof_t < u64_mod
      → (begin_read q s n).0 ≡ true
      → StaysIn q (begin_read q s n).1 (n * q.sizeof_t)
  begin_read-StaysIn fits e =
      let (aligned, room, same) = granted_read fits e in
      rw same (ring_transaction-StaysIn (read_counter q s) aligned room)
