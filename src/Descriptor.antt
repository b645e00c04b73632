-- ===== src/Descriptor.antt =====
-- The queue descriptor: base/fmq/MQDescriptorBase.h, and the accessors of `AidlMQDescriptorShim`
-- (include/fmq/AidlMQDescriptorShim.h), the descriptor that the AIDL queues are built on.
pub mod Layout
use platform_system_libfmq.Base.{
  ℕ, zero, suc, ◌+◌, ◌-◌, ◌*◌, ◌/◌, ◌%◌, ◌^◌, List, [], ◌∷◌, length, take, Bool, true, false, ◌||◌,
  Option, none, some, get_elem?, ◌>>=◌, ltb, leb, ◌==◌, if◌then◌else◌, size_max, add64, ℤ, pos,
  negsuc,
}

pub data MqFlavor : Type 0 where
  synchronized_read_write : MqFlavor
  unsynchronized_write : MqFlavor

-- The value of the enumerator.
abbrev pub flavor_value : MqFlavor → ℕ
flavor_value synchronized_read_write = 1
flavor_value unsynchronized_write = 2

pub record GrantorDescriptor : Type 0 where
  pub flags : ℕ  -- uint32_t
  pub fd_index : ℕ  -- uint32_t
  pub offset : ℕ  -- uint32_t
  pub extent : ℕ  -- uint64_t

-- `enum GrantorType`
abbrev pub read_ptr_pos : ℕ
read_ptr_pos = 0

abbrev pub write_ptr_pos : ℕ
write_ptr_pos = 1

abbrev pub data_ptr_pos : ℕ
data_ptr_pos = 2

abbrev pub ev_flag_word_pos : ℕ
ev_flag_word_pos = 3

abbrev pub min_grantor_count : ℕ
min_grantor_count = data_ptr_pos + 1

abbrev pub min_grantor_count_for_ev_flag_support : ℕ
min_grantor_count_for_ev_flag_support = ev_flag_word_pos + 1

-- `native_handle_t` of libcutils: its file descriptors and its integers.
pub record NativeHandle : Type 0 where
  pub fds : List ℕ
  pub ints : List ℕ

pub record Descriptor : Type 0 where
  pub grantors : List GrantorDescriptor
  pub handle : Option NativeHandle
  pub quantum : ℕ  -- uint32_t
  pub flags : ℕ  -- uint32_t

unfoldable pub is_handle_valid : Descriptor → Bool
is_handle_valid d = elim d.handle [ none ↦ false | some h ↦ true ]

unfoldable pub count_grantors : Descriptor → ℕ
count_grantors d = length d.grantors

-- The extent of the data grantor, or 0 where there is none.
unfoldable pub get_size : Descriptor → ℕ
get_size d = elim (get_elem? d.grantors data_ptr_pos) [ none ↦ 0 | some g ↦ g.extent ]

unfoldable pub get_quantum : Descriptor → ℕ
get_quantum d = d.quantum

unfoldable pub get_flags : Descriptor → ℕ
get_flags d = d.flags

-- `alignToWordBoundary`: `& ~7` clears the last three bits. The check aborts, which is `none`.
unfoldable pub align_to_word_boundary : ℕ → Option ℕ
align_to_word_boundary len =
    if leb len (size_max - 64 / 8 + 1) then some (add64 len 7 / 8 * 8) else none

unfoldable pub is_aligned_to_word_boundary : ℕ → Bool
is_aligned_to_word_boundary offset = offset % 8 == 0

-- `sizeof(RingBufferPosition)` and `sizeof(std::atomic<uint32_t>)`
abbrev pub sizeof_position : ℕ
sizeof_position = 8

abbrev pub sizeof_ev_flag_word : ℕ
sizeof_ev_flag_word = 4

abbrev pub int32_max : ℕ
int32_max = 2 ^ 31 - 1

-- A `uint32_t` as an `int32_t`, a `uint64_t` as an `int64_t`, and an `int32_t` as a `uint32_t`.
abbrev pub int32 : ℕ → ℤ
int32 n = if leb n int32_max then pos n else negsuc (2 ^ 32 - 1 - n)

abbrev pub int64 : ℕ → ℤ
int64 n = if leb n (2 ^ 63 - 1) then pos n else negsuc (2 ^ 64 - 1 - n)

abbrev pub uint32 : ℤ → ℕ
uint32 (pos n) = n % 2 ^ 32
uint32 (negsuc n) = 2 ^ 32 - 1 - n % 2 ^ 32

-- The loop that places the grantors, over the sizes of those that are left.
unfoldable pub place_grantors : List ℕ → ℕ → Option (List GrantorDescriptor)
unfolding align_to_word_boundary
place_grantors [] offset = some []
place_grantors (mem_size ∷ mem_sizes) offset = do
  aligned ← align_to_word_boundary offset
  rest ← place_grantors mem_sizes (add64 offset mem_size)
  some (record { flags = 0; fd_index = 0; offset = aligned % 2 ^ 32; extent = mem_size } ∷ rest)

-- The constructor from sizes. It aborts, or hands back the descriptor: without grantors if the
-- queue is too large for the signed fields of the AIDL descriptor.
unfoldable pub init_descriptor : MqFlavor → ℕ → Option NativeHandle → ℕ → Bool → Option Descriptor
unfolding place_grantors
init_descriptor flavor buffer_size handle message_size configure_event_flag = do
  largest_offset ← align_to_word_boundary (add64 (sizeof_position + sizeof_position) buffer_size)
  grantors ←
      if ltb (size_max - (sizeof_position + sizeof_position)) buffer_size
        || ltb int32_max largest_offset
        || ltb int32_max message_size
      then some []
      else place_grantors
          (take
            (if configure_event_flag
              then min_grantor_count_for_ev_flag_support
              else min_grantor_count)
            (sizeof_position ∷ sizeof_position ∷ buffer_size ∷ sizeof_ev_flag_word ∷ []))
          0
  some (record {
    grantors = grantors;
    handle = handle;
    quantum = message_size % 2 ^ 32;
    flags = flavor_value flavor;
  })

-- The constructor from grantors.
unfoldable pub descriptor_of_grantors :
    MqFlavor → List GrantorDescriptor → Option NativeHandle → ℕ → Descriptor
descriptor_of_grantors flavor grantors handle size = record {
  grantors = grantors;
  handle = handle;
  quantum = size % 2 ^ 32;
  flags = flavor_value flavor;
}
