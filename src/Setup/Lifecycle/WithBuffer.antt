-- ===== src/Setup/Lifecycle/WithBuffer.antt =====
-- The layout of a queue whose ring is in a file of the caller (the constructor of `MessageQueueBase`
-- from sizes, include/fmq/MessageQueueBase.h).
use platform_system_libfmq.Base.{
  ℕ, suc, ◌%◌, ◌^◌, List, [], ◌∷◌, take, Bool, Option, some, ◌>>=◌, ◌==◌, if◌then◌else◌, add64,
}
use platform_system_libfmq.Descriptor.{
  MqFlavor, NativeHandle, GrantorDescriptor, Descriptor, data_ptr_pos, min_grantor_count,
  min_grantor_count_for_ev_flag_support, align_to_word_boundary, sizeof_position,
  sizeof_ev_flag_word, descriptor_of_grantors,
}

-- The grantors where the caller supplies the file of the ring: it is file 1 of the handle.
unfoldable pub place_with_buffer : ℕ → List ℕ → ℕ → Option (List GrantorDescriptor)
unfolding align_to_word_boundary
place_with_buffer grantor_pos [] offset = some []
place_with_buffer grantor_pos (mem_size ∷ mem_sizes) offset =
    let is_data = grantor_pos == data_ptr_pos in
    do
      aligned ← align_to_word_boundary (if is_data then 0 else offset)
      rest ←
          place_with_buffer (suc grantor_pos) mem_sizes
            (if is_data then offset else add64 offset mem_size)
      some (
          record {
            flags = 0;
            fd_index = if is_data then 1 else 0;
            offset = aligned % 2 ^ 32;
            extent = mem_size;
          }
          ∷ rest)

unfoldable pub descriptor_with_buffer :
    MqFlavor → ℕ → Option NativeHandle → ℕ → Bool → Option Descriptor
unfolding place_with_buffer descriptor_of_grantors
descriptor_with_buffer flavor queue_size handle sizeof_t configure_event_flag_word = do
  grantors ←
      place_with_buffer 0
        (take
          (if configure_event_flag_word
            then min_grantor_count_for_ev_flag_support
            else min_grantor_count)
          (sizeof_position ∷ sizeof_position ∷ queue_size ∷ sizeof_ev_flag_word ∷ []))
        0
  some (descriptor_of_grantors flavor grantors handle sizeof_t)
