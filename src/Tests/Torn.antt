-- ===== src/Tests/Torn.antt =====
-- A full ring of six bytes, of the unsynchronized flavor.
use platform_system_libfmq.Store.{Store}
use platform_system_libfmq.Descriptor.{unsynchronized_write}
use platform_system_libfmq.Queue.{MessageQueue}
use platform_system_libfmq.Queue.Shared.{Shared}
use platform_system_libfmq.Tests.Rings.{ring_of, ring_desc, at_counters}

abbrev byte_ring : MessageQueue
byte_ring = record (ring_of unsynchronized_write) {
  sizeof_t = 1;
  desc = record ring_desc { quantum = 1 };
}

abbrev full_ring : Store
full_ring = at_counters 4 10
