-- ===== src/Lib.antt =====
-- libfmq, Android's fast message queue: a ring buffer in shared memory between one writer and one
-- reader (or many readers that can be overrun), with an event flag to wait on.
--
-- The parts, and where they are modelled:
-- - Store: the memory that a process maps: bytes, 64-bit atomics and 32-bit atomics over one space of
--   addresses. An address stands for a location of the shared region, so two objects that map the
--   same region hold the same addresses.
-- - Transaction: `MemRegion` and `MemTransaction` of include/fmq/MessageQueueBase.h.
-- - Descriptor: base/fmq/MQDescriptorBase.h, and the accessors and two constructors of
--   `AidlMQDescriptorShim`, include/fmq/AidlMQDescriptorShim.h. Descriptor.Layout proves the layout of
--   the shared memory.
-- - Setup: `mapGrantorDescr`, `initMemory`, the constructors and the destructor of
--   `MessageQueueBase`, over virtual memory as the parameter `Vm`. An object that has no memory for
--   its descriptor is not modelled. Setup.Located says what a memory map of shared memory means for the
--   addresses of this model.
-- - Queue: the non-blocking operations of `MessageQueueBase`, include/fmq/MessageQueueBase.h. Its
--   children prove what they do on each flavor; Queue.Fifo is the abstract queue that the
--   synchronized flavor implements. Queue.Shared lets the calls of one writer and one reader, and the
--   bytes of their transactions, interleave. Its theorems ask that no reader requests 2 ^ 64 bytes or more
--   at once, since `beginRead` grants such a request where the product wraps (Queue.Overflow).
-- - EventFlag: EventFlag.cpp and include/fmq/EventFlag.h; EventFlag.Object is the life of the object.
--   Wake, Wait and Retry prove what `wake`, `waitHelper` and the retrying `wait` do. EventFlag.Threads
--   lets any number of threads run `wake` and `waitHelper` on one word, interleaved between their
--   atomic operations and system calls; EventFlag.Threads.Calls relates those steps to the calls.
-- - Queue.Blocking: `writeBlocking` and `readBlocking` of include/fmq/MessageQueueBase.h.
-- - Aidl: the AIDL descriptor: the rest of include/fmq/AidlMQDescriptorShim.h. Aidl.Convert has
--   `dupeDesc` and the constructor from a descriptor of include/fmq/AidlMessageQueue.h, and
--   include/fmq/ConvertMQDescriptors.h. Files and native handles are the parameter `Files`.
-- - Setup.Classes: the constructors of `AidlMessageQueue` from sizes and those of the HIDL
--   `MessageQueue`, include/fmq/MessageQueue.h.
-- - Fuzzer: fuzzer/fmq_fuzzer.cpp: the loops of its reader and writer (Fuzzer.Loops, Reader, Writer,
--   Safety, Created), their blocking variants (Fuzzer.Blocking), and what is made of an input (Fuzzer.Input).
--   The data comes from a parameter `Provider`. The start and the join of the threads are not modelled,
--   nor is the queue of a run on HIDL descriptors, whose grantors alone are.
-- - Base: names, words and lemmas that the others share. Tests: runs at concrete inputs.
--
-- A C++ object is a record and a method a function from the store to its result and the new store.
-- `size_t` and the counters are 64 bits wide and keep their wrap-around; pointers are numbers with 0
-- for null, and pointer arithmetic, which C leaves undefined where it overflows, is that of the
-- numbers; the fuzzer's search for a counter wraps at 64 bits. The length of a mapping is an `int` in
-- the code, and so is the model's, on its way to the `size_t` of `mmap` and `munmap`. But for EventFlag.Threads and
-- Queue.Shared, methods are single steps: what other threads do between two loads of one call is not
-- modelled, but what they do between two calls is. Each of beginWrite, commitWrite, beginRead and
-- commitRead loads the other side's counter once, so nothing is lost for them; that the sides see each
-- other's stores in one order is assumed.
--
-- The kernel and the clocks are the parameter `Os`: its `World` is whatever they depend on, and a
-- futex wait hands back a store that other threads may have changed in any way. The two loops, of
-- `wait` and of the blocking calls, run on fuel; with a timeout, fuel of its nanoseconds plus two is
-- enough, if a futex call takes time and, for the blocking calls, each reading of the clock does.
-- Without a timeout the code may wait forever, and so may the model; Queue.Blocking.Handover says when
-- it does not.
--
-- Logging has no effect in the model. `hardware::MQDescriptor` of libhidl is not part of the
-- repository: the queues are built on the descriptor of the AIDL queues, and a HIDL descriptor that
-- is converted is given by what its accessors say.
--
-- The fuzzer's loops run on fuel: each turn consumes data, so fuel above the number of bytes left is
-- enough, and for the blocking ones that and the fuel of one call.
pub mod Base
pub mod Store
pub mod Transaction
pub mod Descriptor
pub mod Queue
pub mod EventFlag
pub mod Setup
pub mod Fuzzer
pub mod Aidl
pub mod Tests
