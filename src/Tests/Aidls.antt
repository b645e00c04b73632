-- ===== src/Tests/Aidls.antt =====
-- A process with a table of open files, and the theorems about AIDL descriptors at concrete inputs.
use platform_system_libfmq.Base.{
  ℕ, suc, ◌+◌, ◌^◌, ◌≡◌, ◌≢◌, ◌↔◌, inl, inr, refl, List, [], ◌∷◌, Bool, true, false, Option, none,
  some, ltb, ◌==◌, if◌then◌else◌, pos, negsuc, arith,
}
use platform_system_libfmq.Store.{Store}
use platform_system_libfmq.Descriptor.{
  synchronized_read_write, unsynchronized_write, GrantorDescriptor, NativeHandle, Descriptor,
}
use platform_system_libfmq.Queue.{MessageQueue, is_valid}
use platform_system_libfmq.Setup.{Vm}
use platform_system_libfmq.Aidl.{Files, AidlGrantor, AidlDescriptor, descriptor_of_aidl}
use platform_system_libfmq.Aidl.Convert.{dupe_desc, hidl_to_aidl, open_aidl_queue}
use platform_system_libfmq.Aidl.Duplicates.{Dups, Open}
use platform_system_libfmq.Aidl.RoundTrip.{dupe_then_read, without_flags}
use platform_system_libfmq.Aidl.Refuses.{grantor, negative_maps_nothing}
use platform_system_libfmq.Aidl.FromHidl.{Convertible, converted, hidl_to_aidl_converts}
use platform_system_libfmq.Aidl.HidlRead.{hidl_then_read, big_index_is_lost}
use platform_system_libfmq.Tests.Rings.{one_stored}
use platform_system_libfmq.Tests.Setups.{machine}

-- The next free descriptor, and the files of those below it.
pub record Table : Type 0 where
  pub next : ℕ
  pub file : ℕ → ℕ

abbrev pub lookup_file : ℕ → Table → Option ℕ
lookup_file x t = if ltb x t.next then some (t.file x) else none

abbrev pub process : Files
process = record {
  World = Table;
  dup = λ fd t. (
    t.next,
    record { next = suc t.next; file = λ x. if x == t.next then t.file fd else t.file x },
  );
  native_handle_create = λ n m t. true;
  native_handle_close = λ h t. t;
}

new_lem : (fd : ℕ) (t : Table) → lookup_file (process.dup fd t).0 t ≡ none
new_lem fd t = ground arith

same_lem :
    (fd file : ℕ) (t : Table)
    → lookup_file fd t ≡ some file
    → lookup_file (process.dup fd t).0 (process.dup fd t).1 ≡ some file
same_lem fd file t e = ground arith

other_lem :
    (fd x : ℕ) (t : Table)
    → x ≢ (process.dup fd t).0
    → lookup_file x (process.dup fd t).1 ≡ lookup_file x t
other_lem fd x t ne = ground arith

abbrev process_dups : Dups process
process_dups = record {
  refers = lookup_file;
  dup_new = new_lem;
  dup_same = same_lem;
  dup_other = other_lem;
}

-- Files 70 and 71 are open as 0 and 1.
abbrev two_open : Table
two_open = record { next = 2; file = λ x. x + 70 }

abbrev with_files : NativeHandle
with_files = record { fds = 0 ∷ 1 ∷ []; ints = 5 ∷ [] }

abbrev sent : Descriptor
sent = record {
  grantors =
      record { flags = 0; fd_index = 0; offset = 0; extent = 8 }
      ∷ record { flags = 9; fd_index = 0; offset = 8; extent = 8 }
      ∷ record { flags = 0; fd_index = 1; offset = 0; extent = 600 }
      ∷ [];
  handle = some with_files;
  quantum = 2;
  flags = 1;
}

dupe_then_read_example :
    (a : AidlDescriptor) × (w1 : Table) × (fds : List ℕ) × (w2 : Table) × (dupe_desc process
        (some sent)
        two_open
      ≡ some (a, w1))
    × (descriptor_of_aidl process a w1 ≡ (
      record sent {
        grantors = without_flags sent.grantors;
        handle = some (record { fds = fds; ints = 5 ∷ [] });
      },
      w2,
    ))
    × Open process process_dups fds (70 ∷ 71 ∷ []) w2
dupe_then_read_example =
    dupe_then_read process process_dups (λ n m w. refl) sent with_files (70 ∷ 71 ∷ []) two_open refl
      (refl, (refl, tt)) (omega arith) (omega arith) (omega arith)

abbrev empty_aidl : AidlDescriptor
empty_aidl = record {
  grantors = [];
  handle = record { fds = []; ints = [] };
  quantum = pos 0;
  flags = pos 0;
}

hidl_then_read_example :
    (a : AidlDescriptor) × (w1 : Table) × (fds : List ℕ) × (w2 : Table) × (hidl_to_aidl process
        synchronized_read_write sent empty_aidl two_open
      ≡ some (true, a, w1))
    × (descriptor_of_aidl process a w1 ≡ (
      record sent {
        grantors = without_flags sent.grantors;
        handle = some (record { fds = fds; ints = 5 ∷ [] });
      },
      w2,
    ))
    × Open process process_dups fds (70 ∷ 71 ∷ []) w2
hidl_then_read_example =
    hidl_then_read process synchronized_read_write sent empty_aidl two_open with_files refl
      process_dups (70 ∷ 71 ∷ []) (λ n m w. refl) (refl, (refl, tt)) refl (omega arith)
      (omega arith) refl

-- The flags are those of the other flavor.
hidl_to_aidl_converts_example :
    (b : Bool) × (a : AidlDescriptor) × (w' : Table) × (hidl_to_aidl process unsynchronized_write
        sent empty_aidl two_open
      ≡ some (b, a, w'))
    × ((b ≡ true) ↔ Convertible process unsynchronized_write sent empty_aidl two_open)
    × (b ≡ true → a ≡ converted process unsynchronized_write sent empty_aidl two_open with_files)
hidl_to_aidl_converts_example =
    hidl_to_aidl_converts process unsynchronized_write sent empty_aidl two_open with_files refl
      (omega arith) (omega arith) (omega arith)

abbrev big_grantor : GrantorDescriptor
big_grantor = record { flags = 0; fd_index = 2 ^ 31; offset = 0; extent = 8 }

abbrev big_index : Descriptor
big_index = record sent { grantors = big_grantor ∷ [] }

big_index_is_lost_example :
    (a : AidlDescriptor) × (w1 : Table) × (hidl_to_aidl process synchronized_read_write big_index
        empty_aidl two_open
      ≡ some (true, a, w1))
    × ((vm : Vm) (sizeof_t : ℕ) (reset_pointers : Bool) (s : Store) (v : vm.World)
        → (q : MessageQueue) × (open_aidl_queue process vm synchronized_read_write sizeof_t a
              reset_pointers s w1 v
            ≡ some (q, s, w1, v))
          × (is_valid q ≡ false))
big_index_is_lost_example =
    big_index_is_lost process synchronized_read_write big_index empty_aidl two_open with_files refl
      0 big_grantor refl (omega arith) (omega arith) (refl, omega arith, omega arith, refl)

abbrev negative_offset : AidlGrantor
negative_offset = record { fd_index = pos 0; offset = negsuc 7; extent = pos 8 }

abbrev broken : AidlDescriptor
broken = record empty_aidl { grantors = negative_offset ∷ []; quantum = pos 2; flags = pos 1 }

negative_maps_nothing_example :
    (q : MessageQueue) × (open_aidl_queue process machine synchronized_read_write 2 broken true
        one_stored two_open 0
      ≡ some (q, one_stored, two_open, 0))
    × (is_valid q ≡ false)
negative_maps_nothing_example =
    negative_maps_nothing process machine synchronized_read_write 2 broken true one_stored two_open
      0 (grantor 0 7 negative_offset refl (inr (inl refl)))
