-- ===== src/Queue/Invariant.antt =====
-- When a queue object is set up, when its counters are consistent, and the bytes that it holds.
use platform_system_libfmq.Base.{ℕ, ◌+◌, ◌-◌, ◌%◌, ◌≤◌, ◌<◌, ◌≡◌, ◌≢◌, ◌⊎◌, List, u64_mod, collect}
use platform_system_libfmq.Store.{Store, Memory, nullptr}
use platform_system_libfmq.Descriptor.{get_size, get_quantum}
use platform_system_libfmq.Queue.{MessageQueue}
use platform_system_libfmq.Transaction.Parts.{Disjoint}

abbrev pub size : MessageQueue → ℕ
size q = get_size q.desc

abbrev pub read_counter : MessageQueue → Store → ℕ
read_counter q s = s.u64 q.read_ptr

abbrev pub write_counter : MessageQueue → Store → ℕ
write_counter q s = s.u64 q.write_ptr

-- The bytes that wait to be read, and those that can be written before the next read.
abbrev pub stored_bytes : MessageQueue → Store → ℕ
stored_bytes q s = write_counter q s - read_counter q s

abbrev pub free_bytes : MessageQueue → Store → ℕ
free_bytes q s = size q - stored_bytes q s

-- The ring holds a whole number of elements, and the two counters are two cells.
pub record IsConfigured (q : MessageQueue) : Type 0 where
  pub element : 0 < q.sizeof_t
  pub quantum : get_quantum q.desc ≡ q.sizeof_t
  pub whole : size q % q.sizeof_t ≡ 0
  pub some_room : 0 < size q
  pub addressable : size q < u64_mod
  pub mapped : q.ring ≢ nullptr
  pub counters : q.read_ptr ≢ q.write_ptr

-- Both counters are multiples of the element size.
pub record IsAligned (q : MessageQueue) (s : Store) : Type 0 where
  pub read_aligned : read_counter q s % q.sizeof_t ≡ 0
  pub write_aligned : write_counter q s % q.sizeof_t ≡ 0
  pub read_fits : read_counter q s < u64_mod
  pub write_fits : write_counter q s < u64_mod

-- The reader is behind the writer, by at most the ring.
pub record IsSynced (q : MessageQueue) (s : Store) : Type 0 where
  pub aligned : IsAligned q s
  pub open aligned use *
  pub behind : read_counter q s ≤ write_counter q s
  pub no_overrun : write_counter q s ≤ read_counter q s + size q

-- The caller's array of `bytes` bytes: not null, and apart from the ring.
pub record IsCallers (q : MessageQueue) (data_ bytes : ℕ) : Type 0 where
  pub given : data_ ≢ nullptr
  pub apart : Disjoint data_ bytes q.ring (size q)

-- The byte at position `p` of the stream of all bytes that were ever written.
abbrev pub ring_byte : MessageQueue → Memory → ℕ → ℕ
ring_byte q m p = m (q.ring + p % size q)

-- What is written and not yet read, oldest byte first.
abbrev pub contents : MessageQueue → Store → List ℕ
contents q s = collect (ring_byte q s.bytes) (read_counter q s) (stored_bytes q s)

-- `n` bytes of memory from an address on.
abbrev pub array : Memory → ℕ → ℕ → List ℕ
array m data_ n = collect m data_ n

-- `s'` is `s` but for what a call may touch: bytes of the area from `area` on, and one counter.
pub record IsFrame (s s' : Store) (area n counter : ℕ) : Type 0 where
  pub bytes_kept : (a : ℕ) → (a < area) ⊎ (area + n ≤ a) → s'.bytes a ≡ s.bytes a
  pub counters_kept : (p : ℕ) → p ≢ counter → s'.u64 p ≡ s.u64 p
  pub words_kept : s'.u32 ≡ s.u32
