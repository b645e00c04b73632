-- ===== src/Fuzzer/Created.antt =====
-- A synchronized queue that the constructor makes for the fuzzer is laid out as its loops need.
use platform_system_libfmq.Base.{
  ℕ, ◌+◌, ◌*◌, ◌^◌, ◌≤◌, ◌<◌, ◌≡◌, ◌∙◌, ap, sym, inl, inr, refl, Bool, true, none, some, Bool-cases,
  [], pos, get_elem?, u64_mod, arith,
}
use platform_system_libfmq.Store.{Store}
use platform_system_libfmq.Descriptor.{GrantorDescriptor, Descriptor, synchronized_read_write}
use platform_system_libfmq.Queue.{MessageQueue, is_valid}
use platform_system_libfmq.Setup.{Vm}
use platform_system_libfmq.Setup.Located.{Locates, map_grantor_descr-located}
use platform_system_libfmq.Setup.Lifecycle.{create_queue}
use platform_system_libfmq.Setup.Lifecycle.Create.{
  region, described, made_object, created_made, created_nothing,
}
use platform_system_libfmq.Setup.Lifecycle.Valid.{is_valid-pointers}
use platform_system_libfmq.Setup.Lifecycle.Usable.{
  created-IsEmptyQueue, result_is, no_result, write_at, placed,
}
use platform_system_libfmq.Aidl.{AidlDescriptor}
use platform_system_libfmq.Aidl.Convert.{to_aidl_grantors}
use platform_system_libfmq.Fuzzer.{Provider, payload_size, get_counter_ptr}
use platform_system_libfmq.Fuzzer.Loops.{IsProvider}
use platform_system_libfmq.Fuzzer.Safety.{BothStay, fuzzers-Ends}
use platform_system_libfmq.Fuzzer.Confined.{IsLaid}

abbrev grantor_at : ℕ → ℕ → GrantorDescriptor
grantor_at offset extent = record { flags = 0; fd_index = 0; offset = offset; extent = extent }

module _ (vm : Vm) (locates : Locates vm) (addressable : (fd : ℕ) → locates.base fd + 16 < u64_mod)
    (num_elements : ℕ) (configure_event_flag_word : Bool) (s : Store) (w : vm.World) where
  open locates use {base}

  abbrev d : Descriptor
  d = described vm synchronized_read_write payload_size num_elements configure_event_flag_word s w

  abbrev fd : ℕ
  fd = (region vm synchronized_read_write payload_size num_elements configure_event_flag_word s w).0

  abbrev x : MessageQueue × Store × vm.World
  x = made_object vm synchronized_read_write payload_size num_elements configure_event_flag_word s w

  module _ (valid : is_valid x.0 ≡ true) where
    ring_at : x.0.ring ≡ base fd + 16
    ring_at =
        (placed vm locates payload_size num_elements configure_event_flag_word s w valid).ring_at
        ∙ map_grantor_descr-located vm locates synchronized_read_write d 2 _ _ _ fd refl refl refl
            (omega arith)
            (λ e. (is_valid-pointers x.0 valid).0 (
              (placed vm locates payload_size num_elements configure_event_flag_word s w
                valid).ring_at
              ∙ e))

    made-IsLaid : IsLaid x.0 (base fd)
    made-IsLaid =
        let v = placed vm locates payload_size num_elements configure_event_flag_word s w valid in
        record {
          payload = v.same_size;
          read_grantor = grantor_at 0 8;
          write_grantor = grantor_at 8 8;
          data_grantor = grantor_at 16 (num_elements * payload_size);
          has_read = ap (λ (y : Descriptor). get_elem? y.grantors 0) v.same_desc;
          has_write = ap (λ (y : Descriptor). get_elem? y.grantors 1) v.same_desc;
          has_data = ap (λ (y : Descriptor). get_elem? y.grantors 2) v.same_desc;
          ring_at = ring_at;
          write_at =
              write_at vm locates payload_size num_elements configure_event_flag_word s w valid;
          ring_fits = addressable fd;
          read_fits = omega (arith, addressable fd);
          write_fits = omega (arith, addressable fd);
          read_offset = omega arith;
          write_offset = omega arith;
          data_offset = omega arith;
        }

  -- `mmap` maps the locations of the file that it is given, and these have 64-bit addresses.
  created-IsLaid :
      0 < num_elements
      → num_elements * payload_size + 24 ≤ 2 ^ 31
      → {q : MessageQueue} {s' : Store} {w' : vm.World}
      → create_queue vm synchronized_read_write payload_size num_elements configure_event_flag_word
          none 0 s w
        ≡ some (some q, s', w')
      → is_valid q ≡ true
      → (b : ℕ) × IsLaid q b
  created-IsLaid some_elements room made = elim (Bool-cases (vm.native_handle_create 1 0)) [
    | inl handle ↦
        result_is vm (λ q s. is_valid q ≡ true → (b : ℕ) × IsLaid q b)
          (sym (
              created_made vm synchronized_read_write payload_size num_elements
                configure_event_flag_word s w (omega arith) (omega arith) some_elements room handle)
            ∙ made)
          (λ valid. (base fd, made-IsLaid valid))
    | inr no_handle ↦ absurd (
        no_result vm (
          sym (
            created_nothing vm synchronized_read_write payload_size num_elements
              configure_event_flag_word s w (omega arith) (omega arith) some_elements room
              no_handle)
          ∙ made))
  ]

  -- Within the limits of the descriptor, the loops of the fuzzer end and stay in the ring of the queue
  -- that the constructor has made, whatever has become of the store since.
  created_fuzzers-Ends :
      (provider : Provider)
      → IsProvider provider
      → 0 < num_elements
      → num_elements * payload_size + 24 ≤ 2 ^ 31
      → {q : MessageQueue} {s' : Store} {w' : vm.World}
      → create_queue vm synchronized_read_write payload_size num_elements configure_event_flag_word
          none 0 s w
        ≡ some (some q, s', w')
      → is_valid q ≡ true
      → 4 ≤ vm.page_size
      → vm.page_size * 10 < u64_mod
      → (user_fd : Bool) (fuel : ℕ) (data_ : provider.Data) (t : Store)
      → provider.remaining_bytes data_ < fuel
      → (b : ℕ) × (laid : IsLaid q b) × BothStay provider laid user_fd
          (get_counter_ptr q.ring q.desc)
          fuel
          vm.page_size
          data_
          t
  created_fuzzers-Ends provider p some_elements room {q} made valid some_page page_fits user_fd fuel
        data_ t lt =
      let (b, laid) = created-IsLaid some_elements room made valid in
      let ready =
        created-IsEmptyQueue vm locates payload_size num_elements configure_event_flag_word s w
          (omega arith) (omega arith) some_elements room made valid in
      (
        b,
        laid,
        (fuzzers-Ends provider p ready.configured laid user_fd (aidl_of q) refl fuel vm.page_size
            data_ t valid some_page page_fits lt).0,
      )
    where
      aidl_of : MessageQueue → AidlDescriptor
      aidl_of q = record {
        grantors = to_aidl_grantors q.desc.grantors;
        handle = record { fds = []; ints = [] };
        quantum = pos 0;
        flags = pos 0;
      }
