-- ===== src/Tests/Bounds.antt =====
-- Transactions on a ring whose counters make no sense: the reader's is ahead of the writer's.
use platform_system_libfmq.Base.{◌^◌, ◌-◌, refl, arith}
use platform_system_libfmq.Store.{Store}
use platform_system_libfmq.Descriptor.{synchronized_read_write, get_size, get_quantum}
use platform_system_libfmq.Transaction.{empty_transaction}
use platform_system_libfmq.Queue.{begin_write, begin_read, available_to_write, get_quantum_count}
use platform_system_libfmq.Queue.Bounds.{StaysIn, begin_write-StaysIn, begin_read-StaysIn}
use platform_system_libfmq.Tests.Rings.{sync_ring, at_counters, ring_of-IsConfigured}

abbrev corrupted : Store
corrupted = at_counters (2 ^ 64 - 2) 2

begin_write-StaysIn_example :
    StaysIn sync_ring (begin_write sync_ring corrupted 3 empty_transaction).1 6
unfolding begin_write available_to_write get_quantum_count get_size get_quantum
begin_write-StaysIn_example =
    begin_write-StaysIn (ring_of-IsConfigured synchronized_read_write) corrupted 3 empty_transaction
      refl

begin_read-StaysIn_example : StaysIn sync_ring (begin_read sync_ring corrupted 2).1 4
unfolding begin_read get_size
begin_read-StaysIn_example =
    begin_read-StaysIn (ring_of-IsConfigured synchronized_read_write) corrupted 2 (omega arith) refl
