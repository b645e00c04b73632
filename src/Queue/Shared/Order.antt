-- ===== src/Queue/Shared/Order.antt =====
-- What holds however the writer's and the reader's calls on a synchronized queue interleave.
use platform_system_libfmq.Base.{
  ℕ, ◌+◌, ◌*◌, ◌%◌, ◌≤◌, ◌<◌, ◌≡◌, ◌≢◌, refl, ◌++◌, some, u64_mod, arith, length, length-append,
  length-collect, ring_distinct,
}
use platform_system_libfmq.Store.{Store}
use platform_system_libfmq.Descriptor.{synchronized_read_write}
use platform_system_libfmq.Transaction.Regions.{tx_byte}
use platform_system_libfmq.Queue.{MessageQueue}
use platform_system_libfmq.Queue.Invariant.{
  size, read_counter, write_counter, IsConfigured, IsSynced, ring_byte, contents,
}
use platform_system_libfmq.Queue.Regions.{ring_transaction_byte}
use platform_system_libfmq.Queue.Shared.{
  Held, Shared, Step, begin_writing, put_byte, end_writing, drop_writing, begin_reading,
  fail_reading, take_byte, end_reading, drop_reading, Reach, start, later, RequestsFit, at_rest,
}
use platform_system_libfmq.Queue.Shared.Bytes.{InFlight}
use platform_system_libfmq.Queue.Shared.Moves.{IsConsistent}
use platform_system_libfmq.Queue.Shared.Steps.{Step-IsConsistent}

at_rest-IsConsistent :
    {q : MessageQueue} {s : Store} → IsSynced q s → IsConsistent q (read_counter q s) (at_rest q s)
at_rest-IsConsistent {q} {s} v = record {
  synced = v;
  account = omega (arith, v.behind, length-collect (ring_byte q s.bytes) (read_counter q s));
  stream = refl;
  writing = λ h e. absurd (cc e);
  reading = λ h e. absurd (cc e);
}

-- What is sent stays sent.
sent_grows : {q : MessageQueue} {x y : Shared} → Step q x y → length x.sent ≤ length y.sent
sent_grows {x} (end_writing {h} held all) = omega (arith, length-append x.sent h.moved)
sent_grows (begin_writing n idle e) = omega arith
sent_grows (put_byte b held lt) = omega arith
sent_grows drop_writing = omega arith
sent_grows (begin_reading n idle e) = omega arith
sent_grows (fail_reading n idle e) = omega arith
sent_grows (take_byte held lt) = omega arith
sent_grows (end_reading held all) = omega arith
sent_grows drop_reading = omega arith

module _ {q : MessageQueue} (c : IsConfigured q) (sync : q.flavor ≡ synchronized_read_write)
    {s : Store} (v : IsSynced q s) where
  Reach-IsConsistent :
      {x : Shared} (run : Reach q (at_rest q s) x)
      → RequestsFit q run
      → read_counter q s + length x.sent < u64_mod
      → IsConsistent q (read_counter q s) x
  Reach-IsConsistent start fit budget = at_rest-IsConsistent v
  Reach-IsConsistent (later {y} run st) fit budget =
      Step-IsConsistent c sync (Reach-IsConsistent run fit.0 (omega (arith, sent_grows st))) st
        fit.1 budget

  -- However one writer's and one reader's calls and bytes interleave on a synchronized queue, its
  -- counters stay consistent, and what was sent (the contents at the start among it) is what was
  -- received followed by what the ring holds: no byte is lost, doubled, reordered or read before it
  -- is committed. The queue is set up and starts with consistent counters, no reader asks for 2 ^ 64
  -- bytes or more at once, and the write counter is below 2 ^ 64 in the last state.
  pub received_in_order :
      {x : Shared} (run : Reach q (at_rest q s) x)
      → RequestsFit q run
      → read_counter q s + length x.sent < u64_mod
      → IsSynced q x.store × (x.sent ≡ x.received ++ contents q x.store)
  received_in_order run fit budget =
      let inv = Reach-IsConsistent run fit budget in (inv.synced, inv.stream)

  -- As long as no reader asks for 2 ^ 64 bytes or more at once, a byte that the writer may fill is never
  -- one that the reader may look at, however the two sides interleave: the regions of two transactions
  -- that are open at once have no address in common. The queue is synchronized, set up and starts with
  -- consistent counters, and the write counter is below 2 ^ 64 in the last state.
  pub no_shared_byte :
      {x : Shared} {h h' : Held} (i j : ℕ) (run : Reach q (at_rest q s) x)
      → RequestsFit q run
      → read_counter q s + length x.sent < u64_mod
      → x.writer ≡ some h
      → x.reader ≡ some h'
      → i < h.n * q.sizeof_t
      → j < h'.n * q.sizeof_t
      → tx_byte q.sizeof_t h.tx i ≢ tx_byte q.sizeof_t h'.tx j
  no_shared_byte {x} {h} {h'} i j run fit budget writes reads lt lt' same =
      ring_distinct (r + j) (w + i) (size q) c.some_room (omega (arith, r_side.inside))
        (omega (arith, w_side.inside)) (omega (arith, w_address, r_address, same))
    where
      inv : IsConsistent q (read_counter q s) x
      inv = Reach-IsConsistent run fit budget

      r : ℕ
      r = read_counter q x.store

      w : ℕ
      w = write_counter q x.store

      w_side : InFlight q x.store.bytes w (r + size q) h
      w_side = inv.writing h writes

      r_side : InFlight q x.store.bytes r w h'
      r_side = inv.reading h' reads

      w_address : tx_byte q.sizeof_t h.tx i ≡ q.ring + (w + i) % size q
      w_address = rw w_side.region (
          ring_transaction_byte c w h.n inv.synced.write_aligned
            (omega (arith, w_side.inside, inv.synced.behind)) i lt)

      r_address : tx_byte q.sizeof_t h'.tx j ≡ q.ring + (r + j) % size q
      r_address = rw r_side.region (
          ring_transaction_byte c r h'.n inv.synced.read_aligned
            (omega (arith, r_side.inside, inv.synced.no_overrun)) j lt')
