-- ===== src/Queue.antt =====
-- `MessageQueueBase` of include/fmq/MessageQueueBase.h: the non-blocking operations of a queue that
-- is mapped. An operation takes the queue object, which none of these changes, and the store; it
-- hands back its result and the new store. The object's counters are 64-bit atomics in the store, so
-- the objects of two processes over one region are two records with the same addresses.
pub mod Invariant
pub mod Regions
pub mod Admit
pub mod Stream
pub mod Write
pub mod Read
pub mod Bounds
pub mod Overwrite
pub mod Overflow
pub mod Fifo
pub mod Blocking
pub mod Shared
use platform_system_libfmq.Base.{
  ℕ, ◌+◌, ◌-◌, ◌*◌, ◌/◌, ◌%◌, Bool, true, false, ◌&&◌, ◌||◌, Option, none, some, ltb, ◌!=◌,
  if◌then◌else◌, add64, sub64, mul64,
}
use platform_system_libfmq.Store.{Store, nullptr, store64}
use platform_system_libfmq.Descriptor.{
  MqFlavor, synchronized_read_write, unsynchronized_write, Descriptor, get_size, get_quantum,
}
use platform_system_libfmq.EventFlag.{EventFlag}
use platform_system_libfmq.Transaction.{
  MemRegion, MemTransaction, empty_region, empty_transaction, copy_to, copy_from,
}

-- The template arguments `sizeof(T)` and `flavor`, and the members. A pointer that is not set is
-- `nullptr`.
pub record MessageQueue : Type 0 where
  pub sizeof_t : ℕ
  pub flavor : MqFlavor
  pub desc : Descriptor
  pub ring : ℕ
  pub read_ptr : ℕ
  pub write_ptr : ℕ
  pub ev_flag_word : ℕ
  pub event_flag : Option EventFlag

abbrev pub is_synchronized : MqFlavor → Bool
is_synchronized synchronized_read_write = true
is_synchronized unsynchronized_write = false

unfoldable pub get_quantum_size : MessageQueue → ℕ
get_quantum_size q = get_quantum q.desc

unfoldable pub get_quantum_count : MessageQueue → ℕ
get_quantum_count q = get_size q.desc / get_quantum q.desc

unfoldable pub is_valid : MessageQueue → Bool
is_valid q = q.ring != nullptr && q.read_ptr != nullptr && q.write_ptr != nullptr

-- The two regions for `n` elements from byte `offset` of the ring on: one region, or two where the
-- end of the ring comes first.
unfoldable pub ring_transaction : MessageQueue → ℕ → ℕ → MemTransaction
ring_transaction q offset n =
    let contiguous = (get_size q.desc - offset) / q.sizeof_t in
    if ltb contiguous n
    then record {
      first = record { address = q.ring + offset; length = contiguous };
      second = record { address = q.ring; length = n - contiguous };
    }
    else record { first = record { address = q.ring + offset; length = n }; second = empty_region }

module _ (q : MessageQueue) where
  unfoldable pub available_to_read_bytes : Store → ℕ
  available_to_read_bytes s =
      let write_ptr = s.u64 q.write_ptr in
      let read_ptr = s.u64 q.read_ptr in if ltb write_ptr read_ptr then 0 else write_ptr - read_ptr

  unfoldable pub available_to_write_bytes : Store → ℕ
  unfolding available_to_read_bytes
  available_to_write_bytes s =
      let available = available_to_read_bytes s in
      if ltb (get_size q.desc) available then 0 else get_size q.desc - available

  unfoldable pub available_to_write : Store → ℕ
  unfolding available_to_write_bytes
  available_to_write s = available_to_write_bytes s / q.sizeof_t

  unfoldable pub available_to_read : Store → ℕ
  unfolding available_to_read_bytes
  available_to_read s = available_to_read_bytes s / q.sizeof_t

  -- `result` is what the caller's transaction holds before the call: a misaligned write pointer
  -- leaves it as it is.
  unfoldable pub begin_write : Store → ℕ → MemTransaction → Bool × MemTransaction
  begin_write s n_messages result =
      let write_ptr = s.u64 q.write_ptr in
      if is_synchronized q.flavor && ltb (available_to_write s) n_messages
        || ltb (get_quantum_count q) n_messages
      then (false, empty_transaction)
      else if write_ptr % q.sizeof_t != 0
      then (false, result)
      else (true, ring_transaction q (write_ptr % get_size q.desc) n_messages)

  unfoldable pub commit_write : Store → ℕ → Bool × Store
  commit_write s n_messages =
      let written = mul64 n_messages q.sizeof_t in
      (true, store64 s q.write_ptr (add64 (s.u64 q.write_ptr) written))

  -- A reader that the writer has overrun drops all that is there.
  unfoldable pub begin_read : Store → ℕ → Bool × MemTransaction × Store
  begin_read s n_messages =
      let write_ptr = s.u64 q.write_ptr in
      let read_ptr = s.u64 q.read_ptr in
      if write_ptr % q.sizeof_t != 0 || read_ptr % q.sizeof_t != 0
      then (false, empty_transaction, s)
      else if ltb (get_size q.desc) (sub64 write_ptr read_ptr)
      then (false, empty_transaction, store64 s q.read_ptr write_ptr)
      else if ltb (sub64 write_ptr read_ptr) (mul64 n_messages q.sizeof_t)
      then (false, empty_transaction, s)
      else (true, ring_transaction q (read_ptr % get_size q.desc) n_messages, s)

  unfoldable pub commit_read : Store → ℕ → Bool × Store
  commit_read s n_messages =
      let read_ptr = s.u64 q.read_ptr in
      let write_ptr = s.u64 q.write_ptr in
      if ltb (get_size q.desc) (sub64 write_ptr read_ptr)
      then (false, store64 s q.read_ptr write_ptr)
      else (true, store64 s q.read_ptr (add64 read_ptr (mul64 n_messages q.sizeof_t)))

  -- `write(data, n)` and `read(data, n)`; `data_` is the address of the caller's array.
  unfoldable pub write : ℕ → ℕ → Store → Bool × Store
  write data_ n_messages s =
      let (begun, tx) = begin_write s n_messages empty_transaction in
      let (copied, bytes) = copy_to q.sizeof_t tx data_ 0 n_messages s.bytes in
      let s' = record s { bytes = bytes } in
      if begun then (if copied then commit_write s' n_messages else (false, s')) else (false, s)

  unfoldable pub read : ℕ → ℕ → Store → Bool × Store
  read data_ n_messages s =
      let (begun, tx, s') = begin_read s n_messages in
      let (copied, bytes) = copy_from q.sizeof_t tx data_ 0 n_messages s'.bytes in
      let s'' = record s' { bytes = bytes } in
      if begun then (if copied then commit_read s'' n_messages else (false, s'')) else (false, s')

  -- `write(data)` and `read(data)`
  unfoldable pub write_one : ℕ → Store → Bool × Store
  unfolding write
  write_one data_ s = write data_ 1 s

  unfoldable pub read_one : ℕ → Store → Bool × Store
  unfolding read
  read_one data_ s = read data_ 1 s
