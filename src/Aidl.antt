-- ===== src/Aidl.antt =====
-- The AIDL descriptor: the constructor of `AidlMQDescriptorShim` from it, copying and the destructor
-- (include/fmq/AidlMQDescriptorShim.h).
pub mod Convert
pub mod Duplicates
pub mod RoundTrip
pub mod Refuses
pub mod Shares
pub mod Reopen
pub mod FromHidl
pub mod HidlRead
use platform_system_libfmq.Base.{
  ℕ, zero, suc, ◌+◌, ◌-◌, ◌%◌, ◌^◌, List, [], ◌∷◌, length, Bool, true, false, ◌&&◌, ◌||◌, not,
  Option, none, some, ◌>>=◌, ltb, leb, ◌==◌, ◌!=◌, if◌then◌else◌, ℤ, pos, negsuc,
}
use platform_system_libfmq.Descriptor.{
  MqFlavor, flavor_value, GrantorDescriptor, NativeHandle, Descriptor, get_quantum, get_flags,
  int32, int64, uint32,
}
use platform_system_libfmq.Store.{Store}
use platform_system_libfmq.Queue.{MessageQueue}
use platform_system_libfmq.Setup.{Vm}
use platform_system_libfmq.Setup.Lifecycle.{open_queue}

-- The parcelables `GrantorDescriptor`, `NativeHandle` and `MQDescriptor` of AIDL have signed numbers.
pub record AidlGrantor : Type 0 where
  pub fd_index : ℤ  -- int32_t
  pub offset : ℤ  -- int32_t
  pub extent : ℤ  -- int64_t

pub record AidlDescriptor : Type 0 where
  pub grantors : List AidlGrantor
  pub handle : NativeHandle
  pub quantum : ℤ  -- int32_t
  pub flags : ℤ  -- int32_t

abbrev pub is_negative : ℤ → Bool
is_negative (pos n) = false
is_negative (negsuc n) = true

-- Files and handles: `dup`, and what libcutils does to allocate a handle and to close its files and
-- free it.
pub record Files : Type 1 where
  pub World : Type 0
  pub dup : ℕ → World → ℕ × World
  pub native_handle_create : ℕ → ℕ → World → Bool
  pub native_handle_close : NativeHandle → World → World

-- What `vector::resize` fills a vector of grantors with.
abbrev pub zero_grantor : GrantorDescriptor
zero_grantor = record { flags = 0; fd_index = 0; offset = 0; extent = 0 }

abbrev pub zero_grantors : List AidlGrantor → List GrantorDescriptor
zero_grantors [] = []
zero_grantors (g ∷ gs) = zero_grantor ∷ zero_grantors gs

abbrev pub has_negative : AidlGrantor → Bool
has_negative g = is_negative g.offset || is_negative g.extent || is_negative g.fd_index

-- A field of the parcelable that is not negative.
abbrev pub unsigned : ℤ → ℕ
unsigned (pos n) = n
unsigned (negsuc n) = 0

-- The loop over the grantors: whether it came to its end, and what the vector then holds.
unfoldable pub read_grantors : List AidlGrantor → Bool × List GrantorDescriptor
read_grantors [] = (true, [])
read_grantors (g ∷ gs) =
    let (all_read, rest) = read_grantors gs in
    if has_negative g then (false, zero_grantors (g ∷ gs)) else (
      all_read,
      record {
        flags = 0;
        fd_index = unsigned g.fd_index;
        offset = unsigned g.offset;
        extent = unsigned g.extent;
      }
          ∷ rest,
    )

-- What the constructor from an AIDL descriptor sets first.
abbrev pub with_numbers : AidlDescriptor → Descriptor
with_numbers a = record {
  grantors = [];
  handle = none;
  quantum = uint32 a.quantum;
  flags = uint32 a.flags;
}

module _ (files : Files) where
  open files use {World, dup, native_handle_create, native_handle_close}

  unfoldable pub dup_all : List ℕ → World → List ℕ × World
  dup_all [] w = ([], w)
  dup_all (fd ∷ fds) w =
      let (fd', w') = dup fd w in let (fds', w'') = dup_all fds w' in (fd' ∷ fds', w'')

  -- A handle with duplicates of the files: `none` is a null handle.
  unfoldable pub dup_handle : NativeHandle → World → Option NativeHandle × World
  dup_handle h w =
      let (fds, w') = dup_all h.fds w in
      if native_handle_create (length h.fds) (length h.ints) w
      then (some (record { fds = fds; ints = h.ints }), w')
      else (none, w)

  -- The constructor from an AIDL descriptor. A negative number leaves the handle null.
  unfoldable pub descriptor_of_aidl : AidlDescriptor → World → Descriptor × World
  unfolding read_grantors
  descriptor_of_aidl a w =
      let (all_read, grantors) = read_grantors a.grantors in
      let (handle, w') = dup_handle a.handle w in
      if is_negative a.quantum || is_negative a.flags
      then (with_numbers a, w)
      else if not all_read
      then (record (with_numbers a) { grantors = grantors }, w)
      else (record (with_numbers a) { grantors = grantors; handle = handle }, w')

  -- The destructor of the descriptor, by its handle.
  unfoldable pub close_handle : Option NativeHandle → World → World
  close_handle none w = w
  close_handle (some h) w = native_handle_close h w

  unfoldable pub destroy_descriptor : Descriptor → World → World
  unfolding close_handle
  destroy_descriptor d w = close_handle d.handle w

  -- `this = other` for two objects: the new value of `this`. Without memory for the handle the code
  -- writes through a null pointer, which is `none`.
  unfoldable pub assign : Descriptor → Descriptor → World → Option (Descriptor × World)
  unfolding close_handle
  assign this other w =
      let w' = close_handle this.handle w in
      elim other.handle [
        | none ↦ some (other, w')
        | some h ↦
            let (handle, w'') = dup_handle h w' in
            elim handle [ none ↦ none | some h' ↦ some (record other { handle = some h' }, w'') ]
      ]

  -- The copy constructor assigns to an empty object.
  unfoldable pub copy_descriptor : Descriptor → World → Option (Descriptor × World)
  unfolding assign
  copy_descriptor other w =
      assign (record { grantors = []; handle = none; quantum = 0; flags = 0 }) other w
