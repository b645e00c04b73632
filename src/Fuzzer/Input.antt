-- ===== src/Fuzzer/Input.antt =====
-- What fuzzer/fmq_fuzzer.cpp makes of its input: a descriptor with grantors of its own (`getAidlDesc`,
-- `getHidlDesc`), the queue of a run (`fuzzWithReaders`), and the runs (`LLVMFuzzerTestOneInput`).
pub mod Grantors
use platform_system_libfmq.Base.{
  ℕ, zero, suc, ◌+◌, ◌-◌, ◌*◌, ◌^◌, List, [], ◌∷◌, length, Bool, true, false, ◌||◌, not, Option,
  none, some, ◌>>=◌, get_elem?, ltb, ◌==◌, ◌!=◌, if◌then◌else◌, ℤ, pos, negsuc,
}
use platform_system_libfmq.Store.{Store}
use platform_system_libfmq.Descriptor.{MqFlavor, GrantorDescriptor, Descriptor, is_handle_valid}
use platform_system_libfmq.Queue.{MessageQueue, is_valid}
use platform_system_libfmq.Setup.{Vm}
use platform_system_libfmq.Setup.Classes.{create_aidl_queue}
use platform_system_libfmq.Aidl.{AidlGrantor, AidlDescriptor, Files}
use platform_system_libfmq.Aidl.Convert.{dupe_desc, open_aidl_queue}
use platform_system_libfmq.Fuzzer.{Provider, payload_size, max_num_elements}

-- `-1` as the number of a file, by its bits.
abbrev pub no_file : ℕ
no_file = 2 ^ 32 - 1

abbrev pub max_grantors : ℕ
max_grantors = 4

-- What an input is cut into.
pub record Input : Type 0 where
  pub fuzz_sync : Bool
  pub reader_data : List (List ℕ)
  pub fuzz_blocking : Bool
  pub writer_data : List ℕ

-- `kMaxNumSyncReaders`, `kMaxNumUnsyncReaders` and `kMaxDataPerReader`
abbrev pub max_readers : Bool → ℕ
max_readers fuzz_sync = if fuzz_sync then 1 else 5

abbrev pub max_data_per_reader : ℕ
max_data_per_reader = 1_000

module _ (provider : Provider) where
  open provider use {
    Data, consume_integral_in_range, consume_integral, of_bytes, consume_signed_in_range,
    consume_bool, consume_bytes, consume_remaining_bytes,
  }

  -- The loop over the grantors of a custom descriptor. `none` in place of them is that one does not fit
  -- the page, which ends the loop.
  unfoldable pub custom_aidl_grantors : ℕ → ℕ → Data → Option (List AidlGrantor) × Data
  custom_aidl_grantors page_size zero d = (some [], d)
  custom_aidl_grantors page_size (suc more) d =
      let (fd_index, d1) = consume_signed_in_range (negsuc 1) (pos 2) d in
      let (offset, d2) = consume_integral_in_range 0 page_size d1 in
      let (extent, d3) = consume_integral_in_range 0 page_size d2 in
      let (rest, d4) = custom_aidl_grantors page_size more d3 in
      if ltb page_size (offset + extent) then (none, d3) else (
        rest >>= λ gs.
            some (record { fd_index = fd_index; offset = pos offset; extent = pos extent } ∷ gs),
        d4,
      )

  unfoldable pub custom_hidl_grantors : ℕ → ℕ → Data → Option (List GrantorDescriptor) × Data
  custom_hidl_grantors page_size zero d = (some [], d)
  custom_hidl_grantors page_size (suc more) d =
      let (flags, d0) = consume_integral 4 d in
      let (fd_index, d1) = consume_integral_in_range 0 2 d0 in
      let (offset, d2) = consume_integral_in_range 0 page_size d1 in
      let (extent, d3) = consume_integral_in_range 0 page_size d2 in
      let (rest, d4) = custom_hidl_grantors page_size more d3 in
      if ltb page_size (offset + extent) then (none, d3) else (
        rest >>= λ gs.
            some (
              record { flags = flags; fd_index = fd_index; offset = offset; extent = extent } ∷ gs),
        d4,
      )

  -- The part of `getAidlDesc` and of `getHidlDesc` for no queue: the latter's constructor from grantors
  -- is libhidl's, an argument here. The file of the former is that of a `unique_fd`, which closes it
  -- when the function returns.
  unfoldable pub custom_aidl_desc :
      (vm : Vm)
      → (ℕ → vm.World → vm.World)
      → Data
      → vm.World
      → Option AidlDescriptor × Data × vm.World
  unfolding custom_aidl_grantors
  custom_aidl_desc vm close d v =
      let (num_grantors, d1) = consume_integral_in_range 0 max_grantors d in
      let (grantors, d2) = custom_aidl_grantors vm.page_size num_grantors d1 in
      let (fd, v') = vm.ashmem_create_region vm.page_size v in
      let (flags, d3) = consume_bool d2 in
      elim grantors [
        | none ↦ (none, d2, v)
        | some gs ↦ (
          some (record {
            grantors = gs;
            handle = record { fds = fd ∷ []; ints = [] };
            quantum = pos payload_size;
            flags = pos (if flags then 1 else 0);
          }),
          d3,
          close fd v',
        )
      ]

  unfoldable pub custom_hidl_desc :
      (vm : Vm)
      → (List GrantorDescriptor → List ℕ → ℕ → Descriptor)
      → Data
      → vm.World
      → Option Descriptor × Data × vm.World
  unfolding custom_hidl_grantors
  custom_hidl_desc vm new_descriptor d v =
      let (num_grantors, d1) = consume_integral_in_range 0 max_grantors d in
      let (grantors, d2) = custom_hidl_grantors vm.page_size num_grantors d1 in
      let (fd, v') = vm.ashmem_create_region vm.page_size v in
      elim grantors [
        | none ↦ (none, d2, v)
        | some gs ↦ (some (new_descriptor gs (fd ∷ []) payload_size), d2, v')
      ]

  -- The queue of a run on AIDL queues: from a custom descriptor, or from a number of elements. `none`
  -- is that the code aborts, `some` of `none` that there is no queue.
  unfoldable pub fuzzed_queue :
      (files : Files) (vm : Vm)
      → (ℕ → vm.World → vm.World)
      → MqFlavor
      → Bool
      → Data
      → Store
      → files.World
      → vm.World
      → Option (Option MessageQueue × Data × Store × files.World × vm.World)
  unfolding custom_aidl_desc
  fuzzed_queue files vm close flavor blocking d s w v =
      let (choice, d0) = consume_bool d in
      let ev_flag = blocking || choice in
      let (num_elements, d1) =
        consume_integral_in_range 1 (max_num_elements vm.page_size) (if blocking then d else d0) in
      let buffer_size = num_elements * payload_size in
      let (user_fd, d2) = consume_bool d1 in
      let (manual_grantors, d3) = consume_bool d2 in
      let (desc, d4, v1) = custom_aidl_desc vm close d3 v in
      let (data_fd, v2) = vm.ashmem_create_region buffer_size v in
      if manual_grantors
      then elim desc [
        | none ↦ some (none, d4, s, w, v1)
        | some a ↦ open_aidl_queue files vm flavor payload_size a true s w v1 >>= λ (q, s', w', v').
            some (some q, d4, s', w', v')
      ]
      else create_aidl_queue vm flavor payload_size num_elements ev_flag
          (if user_fd then some data_fd else none) buffer_size s (if user_fd then v2 else v)
        >>= λ (q, s', v'). some (q, d3, s', w, v')

  -- The data of so many readers.
  unfoldable pub readers_data : ℕ → Data → List (List ℕ) × Data
  readers_data zero d = ([], d)
  readers_data (suc more) d =
      let (bytes, d1) = consume_bytes max_data_per_reader d in
      let (rest, d2) = readers_data more d1 in (bytes ∷ rest, d2)

  -- The first half of `LLVMFuzzerTestOneInput`: an input that is too short or too long is not used.
  unfoldable pub cut_input : List ℕ → Option Input
  unfolding readers_data
  cut_input bytes =
      let (fuzz_sync, d1) = consume_bool (of_bytes bytes) in
      let (num_readers, d2) = consume_integral_in_range 0 (max_readers fuzz_sync) d1 in
      let (reader_data, d3) = readers_data num_readers d2 in
      let (fuzz_blocking, d4) = consume_bool d3 in
      if ltb (length bytes) 1 || ltb 50_000 (length bytes)
      then none
      else some (record {
        fuzz_sync = fuzz_sync;
        reader_data = reader_data;
        fuzz_blocking = fuzz_blocking;
        writer_data = consume_remaining_bytes d4;
      })

-- `getAidlDesc` for a queue: its descriptor, unless its file could not be duplicated. `none` is that a
-- null handle is dereferenced or that there is no file.
unfoldable pub aidl_desc_of :
    (files : Files) → MessageQueue → files.World → Option (Option AidlDescriptor × files.World)
aidl_desc_of files q w = do
  (a, w') ← dupe_desc files (some q.desc) w
  fd ← get_elem? a.handle.fds 0
  some (if fd == no_file then none else some a, w')

-- `getHidlDesc` for a queue.
unfoldable pub hidl_desc_of : MessageQueue → Option Descriptor
hidl_desc_of q = if is_handle_valid q.desc then some q.desc else none
