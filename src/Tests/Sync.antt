-- ===== src/Tests/Sync.antt =====
-- The theorems about synchronized queues at concrete inputs.
use platform_system_libfmq.Transaction.Regions.{tx_byte}
use platform_system_libfmq.Base.{
  ℕ, ◌*◌, ◌<◌, ◌-◌, ◌%◌, ◌≤◌, ◌≡◌, ◌/◌, ◌^◌, ◌↔◌, refl, List, [], ◌∷◌, ◌++◌, true, false, collect,
  arith,
}
use platform_system_libfmq.Store.{Store}
use platform_system_libfmq.Descriptor.{synchronized_read_write, get_size}
use platform_system_libfmq.Transaction.{empty_transaction}
use platform_system_libfmq.Queue.{
  ring_transaction, available_to_read, available_to_write, begin_write, begin_read, write, read,
}
use platform_system_libfmq.Queue.Invariant.{
  size, write_counter, IsAligned, IsSynced, IsFrame, contents, array,
}
use platform_system_libfmq.Queue.Write.{write_appends}
use platform_system_libfmq.Queue.Read.{read_takes}
use platform_system_libfmq.Queue.Admit.{begin_iff_available}
use platform_system_libfmq.Queue.Overflow.{begin_read_wraps, counts_after_wrap}
use platform_system_libfmq.Queue.Fifo.{Call, put, get, run_fifo, run_queue, AreCallers, push, pop}
use platform_system_libfmq.Queue.Fifo.Refine.{run_refines}
use platform_system_libfmq.Tests.Rings.{
  sync_ring, at_counters, ring_of-IsConfigured, one_stored, one_stored-IsSynced, array-IsCallers,
}

contents-one_stored : contents sync_ring one_stored ≡ 104 ∷ 105 ∷ []
unfolding get_size collect
contents-one_stored = refl

abbrev pub calls : List Call
calls =
    put 1000 2 (1 ∷ 2 ∷ 3 ∷ 4 ∷ [])
    ∷ put 1000 1 (5 ∷ 6 ∷ [])
    ∷ get 1000 2
    ∷ get 1000 2
    ∷ get 1000 1
    ∷ []

run_queue-calls :
    run_fifo 6 2 (104 ∷ 105 ∷ []) calls
    ≡ (true, [])
      ∷ (false, [])
      ∷ (true, 104 ∷ 105 ∷ 1 ∷ 2 ∷ [])
      ∷ (false, [])
      ∷ (true, 3 ∷ 4 ∷ [])
      ∷ []
unfolding run_fifo push pop
run_queue-calls = refl

calls_arrays : AreCallers sync_ring calls
calls_arrays =
    let two = array-IsCallers 2 (omega arith) in
    let four = array-IsCallers 4 (omega arith) in
    (four, refl, (two, refl, (four, omega arith, (four, omega arith, (two, omega arith, tt)))))

run_refines_example :
    run_queue sync_ring one_stored calls
    ≡ run_fifo (size sync_ring) 2 (contents sync_ring one_stored) calls
run_refines_example =
    run_refines (ring_of-IsConfigured synchronized_read_write) refl calls one_stored-IsSynced
      calls_arrays (omega arith)

write_appends_example :
    let (done, after) = write sync_ring 1000 2 one_stored in
    (done ≡ true)
    × (contents sync_ring after ≡ contents sync_ring one_stored ++ array one_stored.bytes 1000 4)
    × (write_counter sync_ring after ≡ 10)
    × IsSynced sync_ring after
    × IsFrame one_stored after 100 (size sync_ring) 20
unfolding get_size
write_appends_example =
    write_appends (ring_of-IsConfigured synchronized_read_write) one_stored-IsSynced 1000 2
      (array-IsCallers 4 (omega arith)) (omega arith) (omega arith)

read_takes_example :
    let (done, after) = read sync_ring 1000 1 one_stored in
    (done ≡ true)
    × (contents sync_ring one_stored ≡ array after.bytes 1000 2 ++ contents sync_ring after)
    × IsSynced sync_ring after
    × IsFrame one_stored after 1000 2 10
unfolding get_size
read_takes_example =
    read_takes (ring_of-IsConfigured synchronized_read_write) one_stored-IsSynced 1000 1
      (array-IsCallers 2 (omega arith)) (omega arith)

begin_iff_available_example :
    (((begin_write sync_ring one_stored 3 empty_transaction).0 ≡ true)
      ↔ (3 ≤ available_to_write sync_ring one_stored))
    × (((begin_read sync_ring one_stored 3).0 ≡ true)
        ↔ (3 ≤ available_to_read sync_ring one_stored))
begin_iff_available_example =
    begin_iff_available (ring_of-IsConfigured synchronized_read_write) one_stored-IsSynced 3
      empty_transaction refl (omega arith)

-- 2 ^ 63 elements of two bytes: the product wraps to 0.
begin_read_wraps_example :
    ((begin_read sync_ring one_stored (2 ^ 63)).0 ≡ true)
    × (k : ℕ) × (k < 2 ^ 63 * 2)
    × (106 ≤ tx_byte 2 (begin_read sync_ring one_stored (2 ^ 63)).1 k)
unfolding get_size
begin_read_wraps_example =
    begin_read_wraps (ring_of-IsConfigured synchronized_read_write) one_stored-IsSynced
      (omega arith) (2 ^ 63) (omega arith) (omega arith)

-- The write counter has passed 2 ^ 64; two elements are unread.
abbrev wrapped : Store
wrapped = at_counters (2 ^ 64 - 2) 2

wrapped-IsAligned : IsAligned sync_ring wrapped
wrapped-IsAligned = record {
  read_aligned = refl;
  write_aligned = refl;
  read_fits = omega arith;
  write_fits = omega arith;
}

counts_after_wrap_example :
    (available_to_read sync_ring wrapped ≡ 0)
    × (available_to_write sync_ring wrapped ≡ size sync_ring / 2)
    × (begin_read sync_ring wrapped 2
        ≡ (true, ring_transaction sync_ring ((2 ^ 64 - 2) % size sync_ring) 2, wrapped))
unfolding get_size
counts_after_wrap_example =
    counts_after_wrap (ring_of-IsConfigured synchronized_read_write) wrapped-IsAligned (omega arith)
      (omega arith) 2 (omega arith)
