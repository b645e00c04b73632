-- ===== src/Setup/Lifecycle.antt =====
-- `initMemory`, the constructors of `MessageQueueBase` and its destructor, over one store.
pub mod WithBuffer
pub mod Create
pub mod Opened
pub mod Fresh
pub mod Region
pub mod Valid
pub mod Usable
pub mod Teardown
pub mod Failure
use platform_system_libfmq.Base.{
  ℕ, zero, suc, ◌+◌, ◌-◌, ◌*◌, ◌/◌, ◌%◌, ◌^◌, List, [], ◌∷◌, length, take, Bool, true, false, ◌&&◌,
  ◌||◌, not, Option, none, some, get_elem?, ◌>>=◌, ltb, leb, ◌==◌, ◌!=◌, if◌then◌else◌, size_max,
  add64, mul64, ℤ, pos, negsuc,
}
use platform_system_libfmq.Store.{Store, nullptr, store64}
use platform_system_libfmq.Descriptor.{
  MqFlavor, NativeHandle, GrantorDescriptor, Descriptor, is_handle_valid, count_grantors, get_size,
  get_quantum, read_ptr_pos, write_ptr_pos, data_ptr_pos, ev_flag_word_pos, min_grantor_count,
  min_grantor_count_for_ev_flag_support, align_to_word_boundary, sizeof_position,
  sizeof_ev_flag_word, init_descriptor, descriptor_of_grantors,
}
use platform_system_libfmq.EventFlag.{EventFlag}
use platform_system_libfmq.EventFlag.Object.{create_event_flag}
use platform_system_libfmq.Queue.{MessageQueue, is_synchronized}
use platform_system_libfmq.Setup.{Vm, map_grantor_descr, unmap_grantor_descr}
use platform_system_libfmq.Setup.Lifecycle.WithBuffer.{descriptor_with_buffer}

-- A queue object whose pointers are not set.
abbrev pub unset : MqFlavor → ℕ → Descriptor → MessageQueue
unset flavor sizeof_t d = record {
  sizeof_t = sizeof_t;
  flavor = flavor;
  desc = d;
  ring = nullptr;
  read_ptr = nullptr;
  write_ptr = nullptr;
  ev_flag_word = nullptr;
  event_flag = none;
}

abbrev pub is_too_small : Option ℕ → ℕ → ℕ → Bool
is_too_small none buffer_size queue_size = false
is_too_small (some buffer_fd) buffer_size queue_size = ltb buffer_size queue_size

-- The counters are reset, or only the reader's where each reader has one.
unfoldable pub reset_counters : Bool → MessageQueue → Store → Store
reset_counters reset_pointers q s =
    if reset_pointers
    then store64 (store64 s q.read_ptr 0) q.write_ptr 0
    else if is_synchronized q.flavor
    then s
    else store64 s q.read_ptr 0

module _ (vm : Vm) where
  open vm use {
    World, page_size, new_counter, delete_counter, new_event_flag, native_handle_create,
    ashmem_create_region,
  }

  -- The `error` label of `initMemory`. The ring is unmapped as if it were the event flag's word.
  unfoldable pub clean_up : MessageQueue → World → MessageQueue × World
  clean_up q w =
      let w1 =
        if q.read_ptr == nullptr
        then w
        else if is_synchronized q.flavor
        then unmap_grantor_descr vm q.desc q.read_ptr read_ptr_pos w
        else delete_counter q.read_ptr w in
      let w2 =
        if q.write_ptr == nullptr
        then w1
        else unmap_grantor_descr vm q.desc q.write_ptr write_ptr_pos w1 in
      let w3 =
        if q.ring == nullptr
        then w2
        else unmap_grantor_descr vm q.desc q.ring ev_flag_word_pos w2 in
      (record q { read_ptr = nullptr; write_ptr = nullptr; ring = nullptr }, w3)

  -- `initMemory` from the mapping of the ring on.
  unfoldable pub map_ring : MessageQueue → World → MessageQueue × World
  map_ring q w =
      let (ring, w1) = map_grantor_descr vm q.flavor q.desc data_ptr_pos w in
      let (word, w2) = map_grantor_descr vm q.flavor q.desc ev_flag_word_pos w1 in
      let with_ring = record q { ring = ring } in
      let (status, ev_flag) = create_event_flag true (new_event_flag w2) word in
      if ring == nullptr
      then clean_up with_ring w1
      else if not (ltb ev_flag_word_pos (count_grantors q.desc))
      then (with_ring, w1)
      else if word == nullptr
      then clean_up with_ring w2
      else (record with_ring { ev_flag_word = word; event_flag = ev_flag }, w2)

  -- `initMemory`, on an object whose pointers are not set.
  unfoldable pub init_memory : Bool → MessageQueue → Store → World → MessageQueue × Store × World
  init_memory reset_pointers q s w =
      let (read_ptr, w1) =
        if is_synchronized q.flavor
        then map_grantor_descr vm q.flavor q.desc read_ptr_pos w
        else new_counter w in
      let (write_ptr, w2) = map_grantor_descr vm q.flavor q.desc write_ptr_pos w1 in
      let with_reader = record q { read_ptr = read_ptr } in
      let with_counters = record q { read_ptr = read_ptr; write_ptr = write_ptr } in
      let (failed, w1') = clean_up with_reader w1 in
      let (failed', w2') = clean_up with_reader w2 in
      let (done, w3) = map_ring with_counters w2 in
      if not (is_handle_valid q.desc)
        || ltb (count_grantors q.desc) min_grantor_count
        || get_quantum q.desc != q.sizeof_t
      then (q, s, w)
      else if read_ptr == nullptr
      then (failed, s, w1')
      else if write_ptr == nullptr
      then (failed', s, w2')
      else (done, reset_counters reset_pointers with_counters s, w3)

  -- The constructor from a descriptor, of which it takes a copy.
  unfoldable pub open_queue :
      MqFlavor → ℕ → Descriptor → Bool → Store → World → MessageQueue × Store × World
  unfolding init_memory
  open_queue flavor sizeof_t d reset_pointers s w =
      let q = unset flavor sizeof_t d in
      if get_size d == 0 then (q, s, w) else init_memory reset_pointers q s w

  -- The least multiple of the page size, a power of two, from `n` on.
  abbrev pub align_to_page : ℕ → ℕ
  align_to_page n = add64 n (page_size - 1) / page_size * page_size

  -- `kAshmemSizePageAligned`
  unfoldable pub region_size : ℕ → ℕ → Option ℕ → Option ℕ
  unfolding align_to_word_boundary
  region_size queue_size meta_data_size (some buffer_fd) = some (align_to_page meta_data_size)
  region_size queue_size meta_data_size none = do
    aligned ← align_to_word_boundary queue_size
    some (align_to_page (add64 aligned meta_data_size))

  abbrev pub queue_fds : Option ℕ → ℕ → List ℕ
  queue_fds none ashmem_fd = ashmem_fd ∷ []
  queue_fds (some buffer_fd) ashmem_fd = ashmem_fd ∷ buffer_fd ∷ []

  abbrev pub queue_descriptor : MqFlavor → ℕ → ℕ → Bool → Option ℕ → ℕ → Option Descriptor
  queue_descriptor flavor sizeof_t queue_size configure_event_flag_word none ashmem_fd =
      init_descriptor flavor queue_size
        (some (record { fds = queue_fds none ashmem_fd; ints = [] })) sizeof_t
        configure_event_flag_word
  queue_descriptor flavor sizeof_t queue_size configure_event_flag_word (some fd) ashmem_fd =
      descriptor_with_buffer flavor queue_size
        (some (record { fds = queue_fds (some fd) ashmem_fd; ints = [] })) sizeof_t
        configure_event_flag_word

  -- The constructor from a number of elements, with the caller's file for the ring if there is one.
  -- `none` is that a check aborted; an object without a descriptor is `some none`.
  unfoldable pub create_queue :
      MqFlavor
      → ℕ
      → ℕ
      → Bool
      → Option ℕ
      → ℕ
      → Store
      → World
      → Option (Option MessageQueue × Store × World)
  unfolding region_size
  create_queue flavor sizeof_t num_elements configure_event_flag_word buffer_fd buffer_size s w =
      let queue_size = num_elements * sizeof_t in
      let meta_data_size =
        sizeof_position
        + sizeof_position
        + (if configure_event_flag_word then sizeof_ev_flag_word else 0) in
      if ltb (size_max / sizeof_t) num_elements
        || num_elements == 0
        || is_too_small buffer_fd buffer_size queue_size
      then some (none, s, w)
      else do
        size ← region_size queue_size meta_data_size buffer_fd
        if not (native_handle_create (length (queue_fds buffer_fd 0)) 0)
            then some (none, s, w)
            else do
              d ←
                  queue_descriptor flavor sizeof_t queue_size configure_event_flag_word buffer_fd
                    (ashmem_create_region size w).0
              some (
                some
                    (init_memory true (unset flavor sizeof_t d) s
                      (ashmem_create_region size w).1).0,
                (init_memory true (unset flavor sizeof_t d) s (ashmem_create_region size w).1).1,
                (init_memory true (unset flavor sizeof_t d) s (ashmem_create_region size w).1).2,
              )

  -- The destructor. `deleteEventFlag` unmaps nothing: the flag's word is the queue's.
  unfoldable pub destroy : MessageQueue → World → World
  destroy q w =
      let w1 =
        if is_synchronized q.flavor && q.read_ptr != nullptr
        then unmap_grantor_descr vm q.desc q.read_ptr read_ptr_pos w
        else if q.read_ptr != nullptr
        then delete_counter q.read_ptr w
        else w in
      let w2 =
        if q.write_ptr != nullptr
        then unmap_grantor_descr vm q.desc q.write_ptr write_ptr_pos w1
        else w1 in
      let w3 =
        if q.ring != nullptr then unmap_grantor_descr vm q.desc q.ring data_ptr_pos w2 else w2 in
      if q.ev_flag_word != nullptr
      then unmap_grantor_descr vm q.desc q.ev_flag_word ev_flag_word_pos w3
      else w3
