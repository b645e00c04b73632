-- ===== src/Aidl/Reopen.antt =====
-- A queue that is opened from what `dupeDesc` gave works on the same shared memory.
use platform_system_libfmq.Base.{
  ℕ, ◌^◌, ◌<◌, ◌≡◌, ap, refl, List, Bool, true, false, Option, none, some, length,
}
use platform_system_libfmq.Store.{Store}
use platform_system_libfmq.Descriptor.{synchronized_read_write, NativeHandle, Descriptor}
use platform_system_libfmq.Queue.{MessageQueue, is_valid}
use platform_system_libfmq.Queue.Invariant.{contents}
use platform_system_libfmq.Setup.{Vm}
use platform_system_libfmq.Setup.Located.{Locates}
use platform_system_libfmq.Setup.Lifecycle.{unset, init_memory, open_queue}
use platform_system_libfmq.Aidl.{
  Files, AidlDescriptor, dup_all, dup_handle, descriptor_of_aidl, assign, close_handle,
  copy_descriptor, destroy_descriptor,
}
use platform_system_libfmq.Aidl.Convert.{dupe_desc, open_aidl_queue}
use platform_system_libfmq.Aidl.Duplicates.{Dups, Open, dup_all-Open}
use platform_system_libfmq.Aidl.RoundTrip.{AreSigned, without_flags, dupe_then_read}
use platform_system_libfmq.Aidl.Shares.{Shares, opened-Shares}

module _ (files : Files) (dups : Dups files)
    (no_limit : (n m : ℕ) (w : files.World) → files.native_handle_create n m w ≡ true) where
  dup_handle-some :
      (h : NativeHandle) (w : files.World)
      → dup_handle files h w ≡ (
        some (record { fds = (dup_all files h.fds w).0; ints = h.ints }),
        (dup_all files h.fds w).1,
      )
  unfolding dup_handle
  dup_handle-some h w = rw (dup_handle, no_limit (length h.fds) (length h.ints) w) refl

  -- A copy of a descriptor has duplicates of the files.
  copy_descriptor-dups :
      (d : Descriptor) (h : NativeHandle) (w : files.World)
      → copy_descriptor files (record d { handle = some h }) w
        ≡ some (
          record d { handle = some (record { fds = (dup_all files h.fds w).0; ints = h.ints }) },
          (dup_all files h.fds w).1,
        )
  unfolding copy_descriptor assign close_handle
  copy_descriptor-dups d h w =
      ap
        (λ (made : Option NativeHandle × files.World). elim made.0 [
          | none ↦ none
          | some h' ↦ some (record d { handle = some h' }, made.1)
        ])
        (dup_handle-some h w)

  -- The object that is opened has the descriptor's copy.
  open_aidl_queue-copied :
      (vm : Vm) (sizeof_t : ℕ) (a : AidlDescriptor) (d : Descriptor) (h : NativeHandle) (s : Store)
      (w w' : files.World) (v : vm.World)
      → descriptor_of_aidl files a w ≡ (record d { handle = some h }, w')
      → let copied = record d {
        handle = some (record { fds = (dup_all files h.fds w').0; ints = h.ints });
      } in
        let (q, s', v') = open_queue vm synchronized_read_write sizeof_t copied false s v in
        open_aidl_queue files vm synchronized_read_write sizeof_t a false s w v
        ≡ some (
          q,
          s',
          destroy_descriptor files (record d { handle = some h }) (dup_all files h.fds w').1,
          v',
        )
  unfolding open_aidl_queue
  open_aidl_queue-copied vm sizeof_t a d h s w w' v read =
      rw (open_aidl_queue, read, copy_descriptor-dups d h w') refl

  module _ (vm : Vm) (locates : Locates vm)
      (by_file : (fd fd' file : ℕ) (w w' : files.World)
        → dups.refers fd w ≡ some file
        → dups.refers fd' w' ≡ some file
        → locates.base fd ≡ locates.base fd')
      (reset : Bool) (sizeof_t : ℕ) (d : Descriptor) (s : Store) (v : vm.World) where
    abbrev q : MessageQueue
    q = (init_memory vm reset (unset synchronized_read_write sizeof_t d) s v).0

    -- A valid synchronized queue object, made by either constructor, hands out an AIDL descriptor. The
    -- object that the constructor of `AidlMessageQueue` makes from it in any store, without resetting
    -- the pointers, is not valid, or it works on the same ring and the same two counters, holds the
    -- same bytes, and has changed no memory. No file and no memory is lacking, and the descriptor's
    -- numbers fit in AIDL's signed ones. `mmap` maps the locations of the file that it is given; they
    -- are the same for all descriptors of one open file, and a descriptor's number is not used again
    -- for another file.
    pub dupe_then_reopen :
        (h : NativeHandle) (fs : List ℕ) (w : files.World) (s' : Store) (v' : vm.World)
        → is_valid q ≡ true
        → d.handle ≡ some h
        → Open files dups h.fds fs w
        → AreSigned d.grantors
        → d.quantum < 2 ^ 31
        → d.flags < 2 ^ 31
        → (a : AidlDescriptor) × (w1 : files.World) × (q' : MessageQueue) × (s'' : Store)
          × (w2 : files.World) × (v'' : vm.World) × (dupe_desc files (some d) w ≡ some (a, w1))
          × (open_aidl_queue files vm synchronized_read_write sizeof_t a false s' w1 v'
              ≡ some (q', s'', w2, v''))
          × (is_valid q' ≡ true → Shares q' q × (s'' ≡ s') × (contents q' s'' ≡ contents q s'))
    unfolding open_aidl_queue
    dupe_then_reopen h fs w s' v' valid handle o signed quantum flags =
        let (a, w1, fds, w2, duped, read, opened) =
          dupe_then_read files dups no_limit d h fs w handle o signed quantum flags in
        let (opened', kept) = dup_all-Open files dups fds fs w2 opened in
        (
          a,
          w1,
          _,
          _,
          _,
          _,
          duped,
          open_aidl_queue-copied vm sizeof_t a (record d { grantors = without_flags d.grantors })
              (record { fds = fds; ints = h.ints }) s' w1 w2 v' read,
          opened-Shares files dups vm locates by_file d h
              (record { fds = (dup_all files fds w2).0; ints = h.ints }) fs w _ handle signed o
              opened' reset sizeof_t s s' v v' valid,
        )
