-- ===== src/Queue/Stream.antt =====
-- A write that `beginWrite` admits, in either flavor: it puts the caller's array at the next positions
-- of the stream, over the oldest ones where the ring is full.
use native.Mathlib.Nat.{mod-lt, mul-mod_left}
use platform_system_libfmq.Base.{
  ℕ, ◌+◌, ◌*◌, ◌%◌, ◌≤◌, ◌<◌, ◌≡◌, ◌≢◌, ◌∙◌, ap, ◌⊎◌, true, u64_mod, mul64-eq, ring_distinct,
  add-mod-eq-zero, refl, arith,
}
use platform_system_libfmq.Store.{Store, Memory, store64}
use platform_system_libfmq.Transaction.{MemTransaction, empty_transaction, copy_to}
use platform_system_libfmq.Transaction.Regions.{tx_byte}
use platform_system_libfmq.Transaction.Copy.{CopiedTo, copy_to-CopiedTo}
use platform_system_libfmq.Queue.{MessageQueue, ring_transaction, begin_write, commit_write, write}
use platform_system_libfmq.Queue.Invariant.{
  size, read_counter, write_counter, IsConfigured, IsAligned, IsCallers, ring_byte, IsFrame,
}
use platform_system_libfmq.Queue.Regions.{
  total-ring_transaction, ring_transaction_byte, ring_transaction-IsApart,
}

-- A call `write(data, n)` that is admitted: by `beginWrite`, with an array of the caller's, and before
-- the write counter wraps.
pub record IsAdmitted (q : MessageQueue) (s : Store) (data_ n : ℕ) : Type 0 where
  pub aligned : IsAligned q s
  pub begun :
      begin_write q s n empty_transaction
      ≡ (true, ring_transaction q (write_counter q s % size q) n)
  pub room : n * q.sizeof_t ≤ size q
  pub callers : IsCallers q data_ (n * q.sizeof_t)
  pub no_wrap : write_counter q s + n * q.sizeof_t < u64_mod

module _ {q : MessageQueue} (c : IsConfigured q) {s : Store} {data_ n : ℕ}
    (call : IsAdmitted q s data_ n) where
  open call use {aligned, begun, room, callers, no_wrap}

  abbrev written : ℕ
  written = n * q.sizeof_t

  abbrev tx : MemTransaction
  tx = ring_transaction q (write_counter q s % size q) n

  copied :
      CopiedTo q.sizeof_t tx data_ 0 n s.bytes
        (ring_transaction-IsApart c (write_counter q s) n aligned.write_aligned room data_ callers)
        (omega (arith, total-ring_transaction c (write_counter q s) n aligned.write_aligned room))
  copied = copy_to-CopiedTo _ _ _ _ _ _ _ _

  abbrev pub written_bytes : Memory
  written_bytes = (copy_to q.sizeof_t tx data_ 0 n s.bytes).1

  pub write_eq : write q data_ n s ≡ (
    true,
    store64 (record s { bytes = written_bytes }) q.write_ptr (write_counter q s + written),
  )
  unfolding write commit_write
  write_eq = ground (arith, begun, copied.done, mul64-eq n q.sizeof_t)

  slot_address :
      (k : ℕ)
      → k < written
      → tx_byte q.sizeof_t tx (0 * q.sizeof_t + k) ≡ q.ring + (write_counter q s + k) % size q
  slot_address k lt =
      ap (tx_byte q.sizeof_t tx) (omega arith)
      ∙ ring_transaction_byte c (write_counter q s) n aligned.write_aligned room k lt

  -- The bytes of the caller's array stand at the next positions of the ring.
  pub byte_new :
      (k : ℕ)
      → k < written
      → ring_byte q written_bytes (write_counter q s + k) ≡ s.bytes (data_ + k)
  byte_new k lt = rw (← slot_address k lt) (copied.inside k lt)

  byte_other :
      (a : ℕ)
      → ((k : ℕ) → k < written → a ≢ q.ring + (write_counter q s + k) % size q)
      → written_bytes a ≡ s.bytes a
  byte_other a out = copied.outside a λ k lt e. out k lt (e ∙ slot_address k lt)

  -- The positions of the last turn before the new end are kept.
  pub byte_kept :
      (p : ℕ)
      → p < write_counter q s
      → write_counter q s + written ≤ p + size q
      → ring_byte q written_bytes p ≡ ring_byte q s.bytes p
  byte_kept p before near = byte_other _ λ k lt e.
      ring_distinct p (write_counter q s + k) (size q) c.some_room (omega arith) (omega arith)
        (omega arith)

  byte_outside : (a : ℕ) → (a < q.ring) ⊎ (q.ring + size q ≤ a) → written_bytes a ≡ s.bytes a
  byte_outside a out =
      byte_other a λ k lt e. omega (arith, mod-lt (write_counter q s + k) c.some_room)

  -- The store after the write.
  abbrev pub written_store : Store
  written_store =
      store64 (record s { bytes = written_bytes }) q.write_ptr (write_counter q s + written)

  pub counters :
      (read_counter q written_store ≡ read_counter q s)
      × (write_counter q written_store ≡ write_counter q s + written)
  counters = (ground (arith, c.counters), ground arith)

  pub written-IsAligned : IsAligned q written_store
  written-IsAligned = record {
    read_aligned = rw counters.0 aligned.read_aligned;
    write_aligned =
        rw counters.1 (add-mod-eq-zero _ _ _ aligned.write_aligned (mul-mod_left n q.sizeof_t));
    read_fits = rw counters.0 aligned.read_fits;
    write_fits = rw counters.1 no_wrap;
  }

  pub written-IsFrame : IsFrame s written_store q.ring (size q) q.write_ptr
  written-IsFrame = record {
    bytes_kept = byte_outside;
    counters_kept = λ p ne. ground arith;
    words_kept = refl;
  }
