-- ===== src/Aidl/Convert.antt =====
-- Conversions to and from AIDL: `dupeDesc` and the constructor from a descriptor of `AidlMessageQueue`
-- (include/fmq/AidlMessageQueue.h), and `unsafeHidlToAidlMQDescriptor`
-- (include/fmq/ConvertMQDescriptors.h).
use platform_system_libfmq.Base.{
  ℕ, List, [], ◌∷◌, Bool, true, false, ◌||◌, not, Option, none, some, ◌>>=◌, ◌!=◌, if◌then◌else◌,
  pos,
}
use platform_system_libfmq.Descriptor.{
  MqFlavor, flavor_value, GrantorDescriptor, Descriptor, get_quantum, get_flags, int32, int64,
}
use platform_system_libfmq.Store.{Store}
use platform_system_libfmq.Queue.{MessageQueue}
use platform_system_libfmq.Setup.{Vm}
use platform_system_libfmq.Setup.Lifecycle.{open_queue}
use platform_system_libfmq.Aidl.{
  AidlGrantor, AidlDescriptor, Files, is_negative, dup_all, descriptor_of_aidl, destroy_descriptor,
  copy_descriptor,
}

abbrev pub to_aidl_grantor : GrantorDescriptor → AidlGrantor
to_aidl_grantor g = record {
  fd_index = int32 g.fd_index;
  offset = int32 g.offset;
  extent = int64 g.extent;
}

abbrev pub to_aidl_grantors : List GrantorDescriptor → List AidlGrantor
to_aidl_grantors [] = []
to_aidl_grantors (g ∷ gs) = to_aidl_grantor g ∷ to_aidl_grantors gs

-- The fields of a grantor that the conversion from HIDL tests. The file index is cast to 64 bits.
abbrev pub is_unsafe : GrantorDescriptor → Bool
is_unsafe g =
    is_negative (int32 g.offset) || is_negative (int64 g.extent) || is_negative (int64 g.fd_index)

-- The loop of the conversion from HIDL over the grantors: whether it came to its end, and what it has
-- pushed.
unfoldable pub push_grantors : List GrantorDescriptor → Bool × List AidlGrantor
push_grantors [] = (true, [])
push_grantors (g ∷ gs) =
    let (all_pushed, rest) = push_grantors gs in
    if is_unsafe g then (false, []) else (all_pushed, to_aidl_grantor g ∷ rest)

module _ (files : Files) where
  open files use {World}

  -- `dupeDesc` of a queue, by its descriptor if it has one. A null handle is dereferenced: `none`.
  unfoldable pub dupe_desc : Option Descriptor → World → Option (AidlDescriptor × World)
  dupe_desc none w = some (
    record {
      grantors = [];
      handle = record { fds = []; ints = [] };
      quantum = pos 0;
      flags = pos 0;
    },
    w,
  )
  dupe_desc (some d) w = elim d.handle [
    | none ↦ none
    | some h ↦
        let (fds, w') = dup_all files h.fds w in
        some (
          record {
            grantors = to_aidl_grantors d.grantors;
            handle = record { fds = fds; ints = h.ints };
            quantum = int32 (get_quantum d);
            flags = int32 (get_flags d);
          },
          w',
        )
  ]

  -- `unsafeHidlToAidlMQDescriptor`: the result, and what has become of the destination. A HIDL
  -- descriptor is what its accessors say.
  unfoldable pub hidl_to_aidl :
      MqFlavor → Descriptor → AidlDescriptor → World → Option (Bool × AidlDescriptor × World)
  unfolding push_grantors
  hidl_to_aidl flavor hidl dest w =
      let (all_pushed, grantors) = push_grantors hidl.grantors in
      let pushed = record dest { grantors = grantors } in
      elim dest.grantors [
        | g ∷ gs ↦ some (false, dest, w)
        | [] ↦ if not all_pushed then some (false, pushed, w) else elim hidl.handle [
          | none ↦ none
          | some h ↦
              let (fds, w') = dup_all files h.fds w in
              let filled = record pushed { handle = record { fds = fds; ints = h.ints } } in
              if is_negative (int32 (get_quantum hidl))
                || is_negative (int32 (get_flags hidl))
                || get_flags hidl != flavor_value flavor
              then some (false, filled, w')
              else some (
                true,
                record filled {
                  quantum = int32 (get_quantum hidl);
                  flags = int32 (get_flags hidl);
                },
                w',
              )
        ]
      ]

-- The constructor of `AidlMessageQueue` from an AIDL descriptor: the base class copies a temporary
-- descriptor, which then goes.
module _ (files : Files) (vm : Vm) where
  unfoldable pub open_aidl_queue :
      MqFlavor
      → ℕ
      → AidlDescriptor
      → Bool
      → Store
      → files.World
      → vm.World
      → Option (MessageQueue × Store × files.World × vm.World)
  open_aidl_queue flavor sizeof_t a reset_pointers s w v =
      let (desc, w1) = descriptor_of_aidl files a w in
      do
        (copied, w2) ← copy_descriptor files desc w1
        some (
          (open_queue vm flavor sizeof_t copied reset_pointers s v).0,
          (open_queue vm flavor sizeof_t copied reset_pointers s v).1,
          destroy_descriptor files desc w2,
          (open_queue vm flavor sizeof_t copied reset_pointers s v).2,
        )
