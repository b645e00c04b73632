-- ===== src/Queue/Shared/Moves.antt =====
-- What a step of either side does to a consistent queue.
use platform_system_libfmq.Base.{
  ℕ, ◌+◌, ◌*◌, ◌%◌, ◌≤◌, ◌<◌, ◌≡◌, refl, [], ◌++◌, true, false, some, u64_mod, arith, length,
  dec_le, mul64-eq, collect,
}
use platform_system_libfmq.Store.{Store, store64, update}
use platform_system_libfmq.Descriptor.{synchronized_read_write}
use platform_system_libfmq.Transaction.{MemTransaction, empty_transaction}
use platform_system_libfmq.Queue.{MessageQueue, begin_write, commit_write, begin_read, commit_read}
use platform_system_libfmq.Queue.Invariant.{
  size, read_counter, write_counter, stored_bytes, free_bytes, IsConfigured, IsSynced, ring_byte,
  contents,
}
use platform_system_libfmq.Queue.Admit.{
  begin_write_admits, begin_write_refuses, begin_read_admits, begin_read_refuses,
}
use platform_system_libfmq.Queue.Shared.{Held, Shared, next_byte}
use platform_system_libfmq.Queue.Shared.Bytes.{InFlight, put_kept, next_byte-position}

-- `origin` is the position of the first byte sent. A writer may go up to a turn ahead of the reader,
-- a reader up to the writer.
pub record IsConsistent (q : MessageQueue) (origin : ℕ) (x : Shared) : Type 0 where
  pub synced : IsSynced q x.store
  pub account : write_counter q x.store ≡ origin + length x.sent
  pub stream : x.sent ≡ x.received ++ contents q x.store
  pub writing :
      (h : Held)
      → x.writer ≡ some h
      → InFlight q x.store.bytes (write_counter q x.store) (read_counter q x.store + size q) h
  pub reading :
      (h : Held)
      → x.reader ≡ some h
      → InFlight q x.store.bytes (read_counter q x.store) (write_counter q x.store) h

module _ {q : MessageQueue} (c : IsConfigured q) (sync : q.flavor ≡ synchronized_read_write)
    {origin : ℕ} {x : Shared} (v : IsConsistent q origin x) where
  abbrev r : ℕ
  r = read_counter q x.store

  abbrev w : ℕ
  w = write_counter q x.store

  pub begun_write :
      (n : ℕ) {tx : MemTransaction}
      → begin_write q x.store n empty_transaction ≡ (true, tx)
      → InFlight q x.store.bytes w (r + size q) (record { n = n; tx = tx; moved = [] })
  unfolding collect
  begun_write n e = elim (dec_le (n * q.sizeof_t) (free_bytes q x.store)) [
    | yes fits ↦ record {
      region = cc (begin_write_admits c v.synced n empty_transaction fits);
      inside = omega (arith, v.synced.behind, v.synced.no_overrun);
      progress = omega arith;
      same = refl;
    }
    | no over ↦
        absurd (cc (begin_write_refuses c v.synced n empty_transaction sync (omega (arith, over))))
  ]

  pub begun_read :
      (n : ℕ) {tx : MemTransaction} {s : Store}
      → n * q.sizeof_t < u64_mod
      → begin_read q x.store n ≡ (true, tx, s)
      → (s ≡ x.store) × InFlight q x.store.bytes r w (record { n = n; tx = tx; moved = [] })
  unfolding collect
  begun_read n fits e = elim (dec_le (n * q.sizeof_t) (stored_bytes q x.store)) [
    | yes enough ↦ (
      cc (begin_read_admits c v.synced n enough),
      record {
        region = cc (begin_read_admits c v.synced n enough);
        inside = omega (arith, v.synced.behind);
        progress = omega arith;
        same = refl;
      },
    )
    | no short ↦ absurd (cc (begin_read_refuses c v.synced n (omega (arith, short)) fits))
  ]

  begin_read_keeps : (n : ℕ) → (begin_read q x.store n).2 ≡ x.store
  unfolding begin_read
  begin_read_keeps n =
      ground (arith, v.synced.behind, v.synced.no_overrun, v.synced.write_fits, c.addressable)

  pub failed_read :
      (n : ℕ) {tx : MemTransaction} {s : Store}
      → begin_read q x.store n ≡ (false, tx, s)
      → s ≡ x.store
  failed_read n e = cc (begin_read_keeps n)

  -- A byte that the writer puts is none of those that wait for the reader, and none of its own.
  module _ {h : Held} (held : x.writer ≡ some h) (lt : length h.moved < h.n * q.sizeof_t)
      (b : ℕ) where
    open (v.writing h held) use {inside}

    abbrev pub put : ℕ → ℕ
    put = update x.store.bytes (next_byte q h) b

    room : h.n * q.sizeof_t ≤ size q
    room = omega (arith, inside, v.synced.behind)

    position : next_byte q h ≡ q.ring + (w + length h.moved) % size q
    position = next_byte-position c v.synced.write_aligned (v.writing h held) lt room

    pub old_byte :
        (p : ℕ) → r ≤ p → p < w + length h.moved → ring_byte q put p ≡ ring_byte q x.store.bytes p
    old_byte p from to =
        rw position (put_kept c x.store.bytes p (w + length h.moved) b to (omega (arith, inside)))

    pub new_byte : ring_byte q put (w + length h.moved) ≡ b
    new_byte = rw position (ground arith)

  -- What the commits store.
  pub committed_write :
      (h : Held)
      → w + h.n * q.sizeof_t < u64_mod
      → (commit_write q x.store h.n).1 ≡ store64 x.store q.write_ptr (w + h.n * q.sizeof_t)
  unfolding commit_write
  committed_write h no_wrap = ground (arith, mul64-eq h.n q.sizeof_t)

  pub committed_read :
      (h : Held)
      → r + h.n * q.sizeof_t ≤ w
      → commit_read q x.store h.n ≡ (true, store64 x.store q.read_ptr (r + h.n * q.sizeof_t))
  unfolding commit_read
  committed_read h enough = ground (
    arith,
    mul64-eq h.n q.sizeof_t,
    v.synced.behind,
    v.synced.no_overrun,
    v.synced.write_fits,
    c.addressable,
  )
