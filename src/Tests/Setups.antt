-- ===== src/Tests/Setups.antt =====
-- A machine whose maps follow each other, and the theorems about descriptors and set-up at concrete
-- inputs.
use platform_system_libfmq.Base.{
  ℕ, ◌+◌, ◌^◌, ◌≡◌, ◌↔◌, ◌≢◌, ◌⊎◌, inl, true, false, Option, none, some, [], ◌∷◌, get_elem?, arith,
}
use platform_system_libfmq.Store.{Store, nullptr}
use platform_system_libfmq.Descriptor.{
  Descriptor, GrantorDescriptor, NativeHandle, synchronized_read_write, unsynchronized_write,
  init_descriptor, get_size, get_quantum, count_grantors, is_aligned_to_word_boundary,
}
use platform_system_libfmq.Descriptor.Layout.{
  InOrder, layout-InOrder, too_large_has_no_grantors, laid_out,
}
use platform_system_libfmq.Queue.{MessageQueue, is_valid, get_quantum_count}
use platform_system_libfmq.Setup.{
  Vm, mapped, in_page, map_length, map_grantor_descr, unmap_grantor_descr,
}
use platform_system_libfmq.Setup.Mapping.{Mmaps, map_then_unmap}
use platform_system_libfmq.Setup.Lifecycle.{create_queue, region_size}
use platform_system_libfmq.Setup.Lifecycle.Region.{AllWithin, areas-AllWithin}
use platform_system_libfmq.Setup.Lifecycle.Fresh.{create_queue-IsFresh}
use platform_system_libfmq.Setup.Lifecycle.Opened.{IsFresh}
use platform_system_libfmq.Tests.Rings.{one_stored}

-- The world is the next free address.
abbrev pub machine : Vm
machine = record {
  World = ℕ;
  page_size = 4096;
  mmap = λ writable len fd offset w. (mapped w, w + 8192);
  munmap = λ address len w. w;
  new_counter = λ w. (w, w + 64);
  delete_counter = λ address w. w;
  new_event_flag = λ w. true;
  native_handle_create = λ fds ints. true;
  ashmem_create_region = λ size w. (3, w);
}

abbrev handle : Option NativeHandle
handle = some (record { fds = 3 ∷ []; ints = [] })

layout-InOrder_example :
    (d : Descriptor) × (init_descriptor synchronized_read_write 100 handle 10 true ≡ some d)
    × (get_size d ≡ 100)
    × (get_quantum d ≡ 10)
    × (d.handle ≡ handle)
    × (count_grantors d ≡ 4)
    × InOrder 0 d.grantors
layout-InOrder_example =
    layout-InOrder synchronized_read_write 100 handle 10 (omega arith) (omega arith) true

too_large_has_no_grantors_example :
    let x = init_descriptor synchronized_read_write (2 ^ 31) handle 10 true in
    (x ≡ none) ⊎ ((d : Descriptor) × (x ≡ some d) × (count_grantors d ≡ 0) × (get_size d ≡ 0))
too_large_has_no_grantors_example =
    too_large_has_no_grantors synchronized_read_write (2 ^ 31) handle 10 true (omega arith)
      (inl (omega arith))

abbrev asked : Descriptor
asked = laid_out synchronized_read_write 8000 handle 10 true

-- The event flag's word stands on the second page.
map_then_unmap_example :
    let (p, w') = map_grantor_descr machine synchronized_read_write asked 3 65536 in
    (g : GrantorDescriptor) × (fd : ℕ) × (base : ℕ) × (get_elem? asked.grantors 3 ≡ some g)
    × (p ≡ base + in_page machine g)
    × Mmaps machine g fd base w'
    × (base ≢ nullptr
        → (v : ℕ)
        → unmap_grantor_descr machine asked p 3 v ≡ machine.munmap base (map_length machine g) v)
unfolding map_grantor_descr is_aligned_to_word_boundary
map_then_unmap_example = map_then_unmap machine synchronized_read_write asked 3 65536 (omega arith)

create_queue-IsFresh_example :
    (made_queue : Option MessageQueue) × (s' : Store) × (w' : ℕ) × (create_queue machine
        unsynchronized_write 10 20 true none 0 one_stored 65536
      ≡ some (made_queue, s', w'))
    × ((made_queue ≡ none) ↔ (machine.native_handle_create 1 0 ≡ false))
    × (made_queue ≡ none → (s' ≡ one_stored) × (w' ≡ 65536))
    × ((q : MessageQueue)
        → made_queue ≡ some q
        → (get_quantum_count q ≡ 20) × (get_size q.desc ≡ 200) × (is_valid q ≡ true → IsFresh q s'))
create_queue-IsFresh_example =
    create_queue-IsFresh machine unsynchronized_write 10 20 true one_stored 65536 (omega arith)
      (omega arith) (omega arith) (omega arith)

areas-AllWithin_example :
    (n : ℕ) × (d : Descriptor) × (region_size machine 8001 20 none ≡ some n)
    × (init_descriptor synchronized_read_write 8001 handle 10 true ≡ some d)
    × AllWithin n d.grantors
areas-AllWithin_example =
    areas-AllWithin machine (omega arith) (omega arith) synchronized_read_write 8001 handle 10
      (omega arith) (omega arith) true
