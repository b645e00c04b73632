-- ===== src/Setup/Lifecycle/Create.antt =====
-- What the constructor from a number of elements computes for sizes within the limits.
use platform_system_libfmq.Base.{
  ℕ, ◌+◌, ◌*◌, ◌/◌, ◌^◌, ◌≤◌, ◌<◌, ◌≡◌, refl, Bool, true, false, ◌||◌, [], ◌∷◌, Option, none, some,
  ltb, ◌==◌, if◌then◌else◌, arith, size_max, add64,
}
use native.Mathlib.Nat.{le-div_iff_mul-le}
use platform_system_libfmq.Store.{Store}
use platform_system_libfmq.Descriptor.{
  MqFlavor, Descriptor, init_descriptor, align_to_word_boundary,
}
use platform_system_libfmq.Descriptor.Layout.{align-some, init_descriptor-laid_out, laid_out}
use platform_system_libfmq.Queue.{MessageQueue}
use platform_system_libfmq.Setup.{Vm}
use platform_system_libfmq.Setup.Lifecycle.{unset, init_memory, create_queue, align_to_page}

module _ (vm : Vm) (flavor : MqFlavor) (sizeof_t num_elements : ℕ)
    (configure_event_flag_word : Bool) (s : Store) (w : vm.World) where
  abbrev pub created : Option (Option MessageQueue × Store × vm.World)
  created = create_queue vm flavor sizeof_t num_elements configure_event_flag_word none 0 s w

  -- The file of the shared memory.
  abbrev pub region : ℕ × vm.World
  region =
      vm.ashmem_create_region
        (align_to_page vm (
          add64 ((num_elements * sizeof_t + 7) / 8 * 8)
            (16 + (if configure_event_flag_word then 4 else 0))))
        w

  abbrev pub described : Descriptor
  described =
      laid_out flavor (num_elements * sizeof_t) (some (record { fds = region.0 ∷ []; ints = [] }))
        sizeof_t configure_event_flag_word

  abbrev pub made_object : MessageQueue × Store × vm.World
  made_object = init_memory vm true (unset flavor sizeof_t described) s region.1

  module _ (some_size : 0 < sizeof_t) (small : sizeof_t < 2 ^ 31) (some_elements : 0 < num_elements)
      (room : num_elements * sizeof_t + 24 ≤ 2 ^ 31) where
    in_range : num_elements ≤ size_max / sizeof_t
    in_range = (le-div_iff_mul-le some_size).1 (omega arith)

    checks : ltb (size_max / sizeof_t) num_elements || num_elements == 0 || false ≡ false
    checks = ground (arith, in_range)

    aligned :
        align_to_word_boundary (num_elements * sizeof_t)
        ≡ some ((num_elements * sizeof_t + 7) / 8 * 8)
    aligned = align-some (num_elements * sizeof_t) (omega arith)

    laid :
        init_descriptor flavor
          (num_elements * sizeof_t)
          (some (record { fds = region.0 ∷ []; ints = [] }))
          sizeof_t
          configure_event_flag_word
        ≡ some described
    laid =
        init_descriptor-laid_out flavor (num_elements * sizeof_t) _ sizeof_t room small
          configure_event_flag_word

    pub created_made :
        vm.native_handle_create 1 0 ≡ true
        → created ≡ some (some made_object.0, made_object.1, made_object.2)
    unfolding create_queue
    created_made handle = rw (create_queue, checks, aligned, handle, laid) refl

    pub created_nothing : vm.native_handle_create 1 0 ≡ false → created ≡ some (none, s, w)
    unfolding create_queue
    created_nothing no_handle = rw (create_queue, checks, aligned, no_handle) refl
