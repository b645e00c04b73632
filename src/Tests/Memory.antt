-- ===== src/Tests/Memory.antt =====
-- A machine on which a file's memory has its fixed place, and the theorems about queues that are made
-- on it.
use platform_system_libfmq.Base.{
  ℕ, suc, ◌+◌, ◌*◌, ◌%◌, ◌≤◌, ◌≡◌, ◌≢◌, ap, refl, List, [], ◌∷◌, Bool, true, false, ◌&&◌, Option,
  none, some, ltb, ◌==◌, if◌then◌else◌, pos, negsuc, arith,
}
use platform_system_libfmq.Store.{Store}
use platform_system_libfmq.Descriptor.{
  synchronized_read_write, Descriptor, get_size, get_quantum, is_handle_valid, count_grantors,
  is_aligned_to_word_boundary,
}
use platform_system_libfmq.Queue.{MessageQueue, is_valid}
use platform_system_libfmq.Queue.Invariant.{IsCallers, contents}
use platform_system_libfmq.Queue.Fifo.{Call, put, get, run_queue, run_fifo, AreCallers}
use platform_system_libfmq.Setup.{
  Vm, mapped, map_failed, map_grantor_descr, map_grantor, map_area, extents_suffice,
}
use platform_system_libfmq.Setup.Located.{Locates}
use platform_system_libfmq.Setup.Lifecycle.{init_memory, map_ring, clean_up}
use platform_system_libfmq.Setup.Lifecycle.Create.{made_object, described, created_made}
use platform_system_libfmq.Setup.Lifecycle.Usable.{fresh_queue_refines}
use platform_system_libfmq.Aidl.{Files, AidlDescriptor}
use platform_system_libfmq.Aidl.Convert.{dupe_desc, open_aidl_queue}
use platform_system_libfmq.Aidl.Duplicates.{Dups}
use platform_system_libfmq.Aidl.Reopen.{dupe_then_reopen}
use platform_system_libfmq.Aidl.Shares.{Shares}
use platform_system_libfmq.Aidl.RoundTrip.{AreSigned}
use platform_system_libfmq.Tests.Rings.{one_stored}

abbrev pub base : ℕ → ℕ
base fd = 65536 * (1 + fd % 16)

abbrev pub shm_machine : Vm
shm_machine = record {
  World = ℕ;
  page_size = 4096;
  mmap = λ writable len fd offset w. elim offset [
    | pos n ↦ (mapped (base fd + n), w)
    | negsuc n ↦ (map_failed 22, w)
  ];
  munmap = λ address len w. w;
  new_counter = λ w. (w, w + 64);
  delete_counter = λ address w. w;
  new_event_flag = λ w. true;
  native_handle_create = λ fds ints. true;
  ashmem_create_region = λ size w. (3, w);
}

located_lem :
    (writable : Bool) (len fd offset : ℕ) (w : ℕ) (address : ℕ)
    → (shm_machine.mmap writable len fd (pos offset) w).0 ≡ mapped address
    → address ≡ base fd + offset
located_lem writable len fd offset w address e = cc e

abbrev shm_locates : Locates shm_machine
shm_locates = record { base = base; located = located_lem }

-- Three elements of two bytes, and an event flag.
abbrev pub small_queue : MessageQueue × Store × ℕ
small_queue = made_object shm_machine synchronized_read_write 2 3 true one_stored 0

pub small_queue-valid :
    (is_valid small_queue.0 ≡ true)
    × (small_queue.0.ring ≡ 262160)
    × (get_size small_queue.0.desc ≡ 6)
    × (small_queue.0.sizeof_t ≡ 2)
unfolding is_valid init_memory map_ring clean_up map_grantor_descr map_grantor map_area
    extents_suffice is_handle_valid count_grantors get_quantum is_aligned_to_word_boundary get_size
small_queue-valid = (refl, refl, refl, refl)

small-IsCallers : (n : ℕ) → n ≤ 6 → IsCallers small_queue.0 1000 n
small-IsCallers n h = record { given = omega arith; apart = ground (arith, small_queue-valid, h) }

abbrev calls : List Call
calls = put 1000 2 (1 ∷ 2 ∷ 3 ∷ 4 ∷ []) ∷ put 1000 2 (5 ∷ 6 ∷ 7 ∷ 8 ∷ []) ∷ get 1000 1 ∷ []

calls_arrays : AreCallers small_queue.0 calls
calls_arrays = (
  elements 2 (omega arith),
  omega (arith, small_queue-valid),
  (
    elements 2 (omega arith),
    omega (arith, small_queue-valid),
    (elements 1 (omega arith), omega (arith, small_queue-valid), tt),
  ),
)
  where
    elements : (n : ℕ) → n ≤ 3 → IsCallers small_queue.0 1000 (n * small_queue.0.sizeof_t)
    elements n h = small-IsCallers _ (omega (arith, ap (λ (k : ℕ). n * k) small_queue-valid.3))

fresh_queue_refines_example : run_queue small_queue.0 small_queue.1 calls ≡ run_fifo 6 2 [] calls
fresh_queue_refines_example =
    fresh_queue_refines shm_machine shm_locates 2 3 true one_stored 0 (omega arith) (omega arith)
      (omega arith) (omega arith)
      (created_made shm_machine synchronized_read_write 2 3 true one_stored 0 (omega arith)
        (omega arith) (omega arith) (omega arith) refl)
      small_queue-valid.0 calls calls_arrays (omega arith)

-- A process that never uses a descriptor's number again: the remainder by 16 is the open file.
pub record Opens : Type 0 where
  pub next : ℕ
  pub open_ : ℕ → Bool

abbrev refers_to : ℕ → Opens → Option ℕ
refers_to fd t = if t.open_ fd && ltb fd (16 * t.next) then some (fd % 16) else none

abbrev opener : Files
opener = record {
  World = Opens;
  dup = λ fd t. (
    16 * t.next + fd % 16,
    record {
      next = suc t.next;
      open_ = λ x. if ltb x (16 * t.next) then t.open_ x else x == 16 * t.next + fd % 16;
    },
  );
  native_handle_create = λ n m t. true;
  native_handle_close = λ h t. t;
}

fresh_lem : (fd : ℕ) (t : Opens) → refers_to (opener.dup fd t).0 t ≡ none
fresh_lem fd t = ground arith

copy_lem :
    (fd file : ℕ) (t : Opens)
    → refers_to fd t ≡ some file
    → refers_to (opener.dup fd t).0 (opener.dup fd t).1 ≡ some file
copy_lem fd file t e = ground arith

rest_lem :
    (fd x : ℕ) (t : Opens)
    → x ≢ (opener.dup fd t).0
    → refers_to x (opener.dup fd t).1 ≡ refers_to x t
rest_lem fd x t ne = ground arith

abbrev opener_dups : Dups opener
opener_dups = record {
  refers = refers_to;
  dup_new = fresh_lem;
  dup_same = copy_lem;
  dup_other = rest_lem;
}

by_file_lem :
    (fd fd' file : ℕ) (w w' : Opens)
    → refers_to fd w ≡ some file
    → refers_to fd' w' ≡ some file
    → base fd ≡ base fd'
by_file_lem fd fd' file w w' e e' = ground arith

-- File 3 is open.
abbrev one_open : Opens
one_open = record { next = 1; open_ = λ x. x == 3 }

abbrev pub small_desc : Descriptor
small_desc = described shm_machine synchronized_read_write 2 3 true one_stored 0

dupe_then_reopen_example :
    (a : AidlDescriptor) × (w1 : Opens) × (q' : MessageQueue) × (s'' : Store) × (w2 : Opens)
    × (v'' : ℕ) × (dupe_desc opener (some small_desc) one_open ≡ some (a, w1))
    × (open_aidl_queue opener shm_machine synchronized_read_write 2 a false one_stored w1 9
        ≡ some (q', s'', w2, v''))
    × (is_valid q' ≡ true
        → Shares q' small_queue.0
          × (s'' ≡ one_stored)
          × (contents q' s'' ≡ contents small_queue.0 one_stored))
dupe_then_reopen_example =
    dupe_then_reopen opener opener_dups (λ n m w. refl) shm_machine shm_locates by_file_lem true 2
      small_desc one_stored 0 (record { fds = 3 ∷ []; ints = [] }) (3 ∷ []) one_open one_stored 9
      small_queue-valid.0 refl (refl, tt) signed (omega arith) (omega arith)
  where
    signed : AreSigned small_desc.grantors
    signed = (
      record { index_fits = omega arith; offset_fits = omega arith; extent_fits = omega arith },
      (
        record { index_fits = omega arith; offset_fits = omega arith; extent_fits = omega arith },
        (
          record { index_fits = omega arith; offset_fits = omega arith; extent_fits = omega arith },
          (
            record {
              index_fits = omega arith;
              offset_fits = omega arith;
              extent_fits = omega arith;
            },
            tt,
          ),
        ),
      ),
    )
