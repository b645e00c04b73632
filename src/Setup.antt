-- ===== src/Setup.antt =====
-- The set-up of `MessageQueueBase` of include/fmq/MessageQueueBase.h: the mapping of the grantors,
-- `initMemory`, the two constructors and the destructor. Virtual memory, the allocator and ashmem
-- are the parameter `Vm`.
pub mod Mapping
pub mod Located
pub mod Lifecycle
pub mod Classes
use platform_system_libfmq.Base.{
  ℕ, zero, suc, ◌+◌, ◌-◌, ◌*◌, ◌/◌, ◌%◌, ◌^◌, List, [], ◌∷◌, length, take, Bool, true, false, ◌&&◌,
  ◌||◌, not, Option, none, some, get_elem?, ◌>>=◌, ltb, leb, ◌==◌, ◌!=◌, if◌then◌else◌, size_max,
  add64, mul64, ℤ, pos, negsuc,
}
use platform_system_libfmq.Store.{Store, nullptr, store64}
use platform_system_libfmq.Descriptor.{
  MqFlavor, synchronized_read_write, unsynchronized_write, flavor_value, GrantorDescriptor,
  NativeHandle, Descriptor, is_handle_valid, count_grantors, get_size, get_quantum, read_ptr_pos,
  write_ptr_pos, data_ptr_pos, ev_flag_word_pos, min_grantor_count,
  min_grantor_count_for_ev_flag_support, is_aligned_to_word_boundary, align_to_word_boundary,
  sizeof_position, sizeof_ev_flag_word, int32_max, int32, init_descriptor, descriptor_of_grantors,
}
use platform_system_libfmq.EventFlag.{EventFlag}
use platform_system_libfmq.EventFlag.Object.{create_event_flag}
use platform_system_libfmq.Queue.{MessageQueue, is_synchronized}

abbrev pub eperm : ℕ
eperm = 1

-- What `mmap` answers: an address, or MAP_FAILED with an `errno`.
pub data Mapped : Type 0 where
  mapped : (address : ℕ) → Mapped
  map_failed : (errno : ℕ) → Mapped

-- `mmap` takes whether the memory is to be writable, the length as a `size_t`, the file and the offset. `new` is
-- that of a counter, and answers `nullptr` if there is no memory; the next two fields say whether
-- there is memory for an event flag and for a handle with so many files and integers. The last
-- answers with a file.
pub record Vm : Type 1 where
  pub World : Type 0
  pub page_size : ℕ
  pub mmap : Bool → ℕ → ℕ → ℤ → World → Mapped × World
  pub munmap : ℕ → ℕ → World → World
  pub new_counter : World → ℕ × World
  pub delete_counter : ℕ → World → World
  pub new_event_flag : World → Bool
  pub native_handle_create : ℕ → ℕ → Bool
  pub ashmem_create_region : ℕ → World → ℕ × World

-- The smallest extent that is right for the grantor at a position.
abbrev pub min_extent : ℕ → ℕ
min_extent pos_ =
    if pos_ == read_ptr_pos || pos_ == write_ptr_pos
    then sizeof_position
    else if pos_ == ev_flag_word_pos
    then sizeof_ev_flag_word
    else 0

unfoldable pub extents_suffice : ℕ → List GrantorDescriptor → Bool
extents_suffice i [] = true
extents_suffice i (g ∷ gs) = leb (min_extent i) g.extent && extents_suffice (suc i) gs

-- A number as an `int`, and that as a `size_t`: the low 32 bits, with the sign extended.
abbrev pub int_as_size : ℕ → ℕ
int_as_size n = if leb (n % 2 ^ 32) int32_max then n % 2 ^ 32 else n % 2 ^ 32 + (2 ^ 64 - 2 ^ 32)

module _ (vm : Vm) where
  open vm use {World, page_size, mmap, munmap, new_counter, delete_counter}

  -- The offset of a grantor's page, of the grantor in its page, and the length to map, which is an `int`
  -- on its way to a `size_t`.
  abbrev pub map_offset : GrantorDescriptor → ℕ
  map_offset g = g.offset / page_size * page_size

  abbrev pub in_page : GrantorDescriptor → ℕ
  in_page g = g.offset - map_offset g

  abbrev pub map_length : GrantorDescriptor → ℕ
  map_length g = int_as_size (in_page g + g.extent)

  -- `mmap`, and once more read-only where an unsynchronized queue may not write.
  unfoldable pub map_area : MqFlavor → ℕ → ℕ → ℤ → World → Mapped × World
  map_area flavor len fd offset w =
      let (first, w') = mmap true len fd offset w in
      let (second, w'') = mmap false len fd offset w' in
      elim first [
        | mapped address ↦ (mapped address, w')
        | map_failed errno ↦
            if errno == eperm && not (is_synchronized flavor)
            then (second, w'')
            else (map_failed errno, w')
      ]

  -- The part of `mapGrantorDescr` for a grantor and a file that are there; the result is an address.
  unfoldable pub map_grantor :
      MqFlavor → List GrantorDescriptor → GrantorDescriptor → ℕ → World → ℕ × World
  unfolding map_area extents_suffice
  map_grantor flavor grantors g fd w =
      let (area, w') = map_area flavor (map_length g) fd (int32 (map_offset g)) w in
      if not (is_aligned_to_word_boundary g.offset)
        || not (extents_suffice 0 grantors)
        || ltb (int32_max - page_size) g.extent
      then (nullptr, w)
      else (elim area [ mapped address ↦ address + in_page g | map_failed errno ↦ nullptr ], w')

  unfoldable pub map_grantor_descr : MqFlavor → Descriptor → ℕ → World → ℕ × World
  unfolding map_grantor
  map_grantor_descr flavor d grantor_idx w = elim d.handle [
    | none ↦ (nullptr, w)
    | some handle ↦ elim (get_elem? d.grantors grantor_idx) [
      | none ↦ (nullptr, w)
      | some g ↦ elim (get_elem? handle.fds g.fd_index) [
        | none ↦ (nullptr, w)
        | some fd ↦ map_grantor flavor d.grantors g fd w
      ]
    ]
  ]

  unfoldable pub unmap_grantor_descr : Descriptor → ℕ → ℕ → World → World
  unmap_grantor_descr d address grantor_idx w = elim (get_elem? d.grantors grantor_idx) [
    | none ↦ w
    | some g ↦
        if address == nullptr || address == in_page g
        then w
        else munmap (address - in_page g) (map_length g) w
  ]
