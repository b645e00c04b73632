-- ===== src/Tests/Handover.antt =====
-- A kernel with a writer that serves each sleeping reader, and the theorem about it.
use platform_system_libfmq.Base.{ℕ, ◌≡◌, refl, inr, true, false, ◌++◌, some, none, pos, arith}
use platform_system_libfmq.Store.{Store}
use platform_system_libfmq.Descriptor.{synchronized_read_write, get_size}
use platform_system_libfmq.EventFlag.{Os, EventFlag, wake}
use platform_system_libfmq.Queue.Invariant.{IsCallers, contents, array}
use platform_system_libfmq.Queue.Blocking.{notify, read_blocking}
use platform_system_libfmq.Queue.Blocking.Handover.{served_store, writer_serves_reader}
use platform_system_libfmq.Tests.Rings.{
  sync_ring, one_stored, one_stored-IsSynced, ring_of-IsConfigured, array-IsCallers,
}
use platform_system_libfmq.Tests.Flags.{kernel}

abbrev shared_flag : EventFlag
shared_flag = record { ef_word_ptr = 300; ef_word_needs_unmapping = false }

-- While a thread sleeps, one element from address 2000 is written, and FMQ_NOT_EMPTY and one more flag
-- notified.
abbrev busy_kernel : Os
busy_kernel = record kernel {
  futex_wait =
      λ word value time mask s w. (none, served_store kernel sync_ring shared_flag 6 s 2000 1 w, w);
}

writer-IsCallers : IsCallers sync_ring 2000 2
unfolding get_size
writer-IsCallers = record { given = omega arith; apart = inr (omega arith) }

-- The reader asks for two elements and there is one.
writer_serves_reader_example :
    (after : Store) × (w' : ℕ) × (read_blocking busy_kernel sync_ring 9 1000 2 1 2
        (pos 0)
        (some shared_flag)
        one_stored
        5
      ≡ some (true, after, w'))
    × (contents sync_ring one_stored ++ array one_stored.bytes 2000 2
        ≡ array after.bytes 1000 4 ++ contents sync_ring after)
unfolding get_size notify wake
writer_serves_reader_example =
    writer_serves_reader busy_kernel (ring_of-IsConfigured synchronized_read_write)
      (some shared_flag) shared_flag refl 6 2 1 (omega arith) refl refl (omega arith) one_stored
      one_stored-IsSynced (omega arith) refl 1000 2 1 7 5 5 5 2000 1
      (array-IsCallers 4 (omega arith)) (omega arith) (omega arith) writer-IsCallers (omega arith)
      (omega arith) (omega arith) refl
