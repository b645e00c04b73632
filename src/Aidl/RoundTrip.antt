-- ===== src/Aidl/RoundTrip.antt =====
-- A queue's descriptor goes to another process as an AIDL descriptor and comes back as one of the
-- same queue.
use platform_system_libfmq.Base.{
  ℕ, ◌^◌, ◌<◌, ◌≡◌, refl, List, [], ◌∷◌, some, length, true, arith, pos,
}
use platform_system_libfmq.Descriptor.{
  NativeHandle, GrantorDescriptor, Descriptor, int32, int64, get_quantum, get_flags,
}
use platform_system_libfmq.Aidl.{
  Files, AidlDescriptor, read_grantors, dup_all, dup_handle, descriptor_of_aidl,
}
use platform_system_libfmq.Aidl.Convert.{to_aidl_grantor, to_aidl_grantors, dupe_desc}
use platform_system_libfmq.Aidl.Duplicates.{Dups, Open, dup_all-Open}

-- The fields of a grantor that the signed numbers of AIDL can hold.
pub record IsSigned (g : GrantorDescriptor) : Type 0 where
  pub index_fits : g.fd_index < 2 ^ 31
  pub offset_fits : g.offset < 2 ^ 31
  pub extent_fits : g.extent < 2 ^ 63

abbrev pub AreSigned : List GrantorDescriptor → Type 0
AreSigned [] = Unit
AreSigned (g ∷ gs) = IsSigned g × AreSigned gs

-- AIDL grantors have no flags.
abbrev pub without_flags : List GrantorDescriptor → List GrantorDescriptor
without_flags [] = []
without_flags (g ∷ gs) = record g { flags = 0 } ∷ without_flags gs

pub int32-pos : (n : ℕ) → n < 2 ^ 31 → int32 n ≡ pos n
int32-pos n h = ground arith

int64-pos : (n : ℕ) → n < 2 ^ 63 → int64 n ≡ pos n
int64-pos n h = ground arith

pub to_aidl_grantor-signed :
    (g : GrantorDescriptor)
    → IsSigned g
    → to_aidl_grantor g
      ≡ record { fd_index = pos g.fd_index; offset = pos g.offset; extent = pos g.extent }
to_aidl_grantor-signed g h =
    rw
      (
        int32-pos g.fd_index h.index_fits,
        int32-pos g.offset h.offset_fits,
        int64-pos g.extent h.extent_fits,
      )
      refl

pub read_grantors-to_aidl :
    (gs : List GrantorDescriptor)
    → AreSigned gs
    → read_grantors (to_aidl_grantors gs) ≡ (true, without_flags gs)
unfolding read_grantors
read_grantors-to_aidl [] h = refl
read_grantors-to_aidl (g ∷ gs) h = ground (
  arith,
  read_grantors-to_aidl gs h.1,
  int32-pos g.fd_index h.0.index_fits,
  int32-pos g.offset h.0.offset_fits,
  int64-pos g.extent h.0.extent_fits,
)

module _ (files : Files) (dups : Dups files)
    (no_limit : (n m : ℕ) (w : files.World) → files.native_handle_create n m w ≡ true) where
  -- The constructor, where nothing is negative.
  pub descriptor_of_aidl-accepts :
      (a : AidlDescriptor) (quantum flags : ℕ) (gs : List GrantorDescriptor) (w : files.World)
      → read_grantors a.grantors ≡ (true, gs)
      → a.quantum ≡ pos quantum
      → quantum < 2 ^ 32
      → a.flags ≡ pos flags
      → flags < 2 ^ 32
      → descriptor_of_aidl files a w ≡ (
        record {
          grantors = gs;
          handle = some (record { fds = (dup_all files a.handle.fds w).0; ints = a.handle.ints });
          quantum = quantum;
          flags = flags;
        },
        (dup_all files a.handle.fds w).1,
      )
  unfolding descriptor_of_aidl dup_handle
  descriptor_of_aidl-accepts a quantum flags gs w read eq fits ef fits' =
      rw (eq, ef, read, no_limit (length a.handle.fds) (length a.handle.ints) w) (ground arith)

  -- `dupeDesc`, and then the constructor from an AIDL descriptor, give back the descriptor: its
  -- quantum, its flags, its grantors without their flags, and a handle with the same integers and with
  -- duplicates of the files, each of which stands for the same open file. This holds for a descriptor
  -- with a handle whose numbers fit in AIDL's signed ones, where no file and no memory is lacking.
  pub dupe_then_read :
      (d : Descriptor) (h : NativeHandle) (fs : List ℕ) (w : files.World)
      → d.handle ≡ some h
      → Open files dups h.fds fs w
      → AreSigned d.grantors
      → d.quantum < 2 ^ 31
      → d.flags < 2 ^ 31
      → (a : AidlDescriptor) × (w1 : files.World) × (fds : List ℕ) × (w2 : files.World) × (dupe_desc
            files
            (some d)
            w
          ≡ some (a, w1))
        × (descriptor_of_aidl files a w1 ≡ (
          record d {
            grantors = without_flags d.grantors;
            handle = some (record { fds = fds; ints = h.ints });
          },
          w2,
        ))
        × Open files dups fds fs w2
  unfolding dupe_desc get_quantum get_flags
  dupe_then_read d h fs w handle o signed quantum flags =
      let (opened, kept) = dup_all-Open files dups h.fds fs w o in
      let (opened', kept') = dup_all-Open files dups _ fs (dup_all files h.fds w).1 opened in
      (
        record {
          grantors = to_aidl_grantors d.grantors;
          handle = record { fds = (dup_all files h.fds w).0; ints = h.ints };
          quantum = int32 d.quantum;
          flags = int32 d.flags;
        },
        (dup_all files h.fds w).1,
        _,
        _,
        rw (dupe_desc, handle) refl,
        descriptor_of_aidl-accepts _ d.quantum d.flags _ _ (read_grantors-to_aidl d.grantors signed)
            (int32-pos d.quantum quantum) (omega arith) (int32-pos d.flags flags) (omega arith),
        opened',
      )
