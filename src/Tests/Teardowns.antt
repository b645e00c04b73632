-- ===== src/Tests/Teardowns.antt =====
-- The destructor and the error path of `initMemory` at concrete inputs.
use platform_system_libfmq.Base.{
  ℕ, ◌+◌, ◌-◌, ◌≡◌, ◌≢◌, refl, List, [], ◌∷◌, Bool, true, false, some, get_elem?, ◌==◌,
  if◌then◌else◌, ℤ, pos, negsuc, arith,
}
use platform_system_libfmq.Store.{nullptr}
use platform_system_libfmq.Descriptor.{
  synchronized_read_write, Descriptor, GrantorDescriptor, get_quantum, is_handle_valid,
  count_grantors, is_aligned_to_word_boundary,
}
use platform_system_libfmq.Descriptor.Layout.{laid_out}
use platform_system_libfmq.Queue.{is_valid}
use platform_system_libfmq.Setup.{
  Vm, mapped, map_failed, in_page, map_grantor_descr, unmap_grantor_descr, map_grantor, map_area,
  extents_suffice,
}
use platform_system_libfmq.Setup.Mapping.{Mmaps}
use platform_system_libfmq.Setup.Lifecycle.{unset, init_memory, destroy}
use platform_system_libfmq.Setup.Lifecycle.Teardown.{AreMapped, munmap_all, destroy_unmaps}
use platform_system_libfmq.Setup.Lifecycle.Failure.{FlagFails, ring_unmapped_as_word}
use platform_system_libfmq.Tests.Rings.{one_stored}
use platform_system_libfmq.Tests.Memory.{
  base, shm_machine, small_queue, small_queue-valid, small_desc,
}

no_null_lem :
    (writable : Bool) (len fd : ℕ) (offset : ℤ) (w : ℕ) (address : ℕ)
    → (shm_machine.mmap writable len fd offset w).0 ≡ mapped address
    → address ≢ nullptr
no_null_lem writable len fd (pos n) w address e = ground (arith, e)
no_null_lem writable len fd (negsuc n) w address e = absurd (cc e)

destroy_unmaps_example :
    (areas : List (ℕ × ℕ)) × AreMapped shm_machine small_desc 0 areas (0 ∷ 0 ∷ 0 ∷ 0 ∷ [])
    × ((v : ℕ) → destroy shm_machine small_queue.0 v ≡ munmap_all shm_machine small_desc areas v)
unfolding map_grantor_descr map_grantor map_area extents_suffice is_aligned_to_word_boundary
    count_grantors
destroy_unmaps_example =
    destroy_unmaps shm_machine small_desc no_null_lem true 2 one_stored 0 small_queue-valid.0

-- Only the first page of a file can be mapped, and the flag's word is on the second.
abbrev one_page : Vm
one_page = record shm_machine {
  mmap = λ writable len fd offset w. elim offset [
    | pos n ↦ ((if n == 0 then mapped (base fd) else map_failed 12), w)
    | negsuc n ↦ (map_failed 22, w)
  ];
}

abbrev two_pages : Descriptor
two_pages =
    laid_out synchronized_read_write 8000 (some (record { fds = 3 ∷ []; ints = [] })) 10 true

flag_fails : FlagFails one_page true 10 two_pages one_stored 0
unfolding map_grantor_descr map_grantor map_area extents_suffice is_aligned_to_word_boundary
    count_grantors is_handle_valid get_quantum
flag_fails = record {
  handle = refl;
  quantum = refl;
  has_flag = omega arith;
  r_set = omega arith;
  p_set = omega arith;
  data_set = omega arith;
  flag_unset = refl;
}

abbrev word_grantor : GrantorDescriptor
word_grantor = record { flags = 0; fd_index = 0; offset = 8016; extent = 4 }

ring_unmapped_as_word_example :
    let made =
      init_memory one_page true (unset synchronized_read_write 10 two_pages) one_stored 0 in
    (is_valid made.0 ≡ false)
    × (made.2
        ≡ one_page.munmap (262160 - 3920) 3924 (
            unmap_grantor_descr one_page two_pages 262152 1
              (unmap_grantor_descr one_page two_pages 262144 0 0)))
    × ((g : GrantorDescriptor) × (fd : ℕ) × (start : ℕ) × (get_elem? two_pages.grantors 2 ≡ some g)
        × (262160 ≡ start + in_page one_page g)
        × Mmaps one_page g fd start 0)
unfolding map_grantor_descr map_grantor map_area extents_suffice is_aligned_to_word_boundary
    count_grantors is_handle_valid get_quantum
ring_unmapped_as_word_example =
    ring_unmapped_as_word one_page true 10 two_pages one_stored 0 flag_fails word_grantor refl
      (omega arith)
