-- ===== src/Descriptor/Layout.antt =====
-- The layout that the constructor from sizes gives the shared memory, and the sizes that it takes.
use platform_system_libfmq.Base.{
  ℕ, ◌+◌, ◌-◌, ◌*◌, ◌/◌, ◌%◌, ◌^◌, ◌≤◌, ◌<◌, ◌≡◌, refl, Bool, true, false, Option, none, some, List,
  [], ◌∷◌, if◌then◌else◌, size_max, add64, arith, ◌⊎◌, inl, inr, dec_le,
}
use platform_system_libfmq.Descriptor.{
  MqFlavor, flavor_value, GrantorDescriptor, NativeHandle, Descriptor, get_size, get_quantum,
  count_grantors, align_to_word_boundary, place_grantors, init_descriptor, int32_max,
}

-- The grantors' areas start at word boundaries and follow each other without overlap, from `start`
-- on, at offsets that a signed 32-bit field can hold.
pub InOrder : ℕ → List GrantorDescriptor → Type 0
InOrder start [] = Unit
InOrder start (g ∷ gs) =
    (start ≤ g.offset)
    × (g.offset % 8 ≡ 0)
    × (g.offset ≤ int32_max)
    × InOrder (g.offset + g.extent) gs

pub align-some :
    (len : ℕ) → len ≤ size_max - 7 → align_to_word_boundary len ≡ some ((len + 7) / 8 * 8)
unfolding align_to_word_boundary
align-some len h = ground arith

-- The grantors of a queue that is not too large.
abbrev pub grantor : ℕ → ℕ → GrantorDescriptor
grantor offset extent = record { flags = 0; fd_index = 0; offset = offset; extent = extent }

abbrev pub counters_and_data : ℕ → List GrantorDescriptor → List GrantorDescriptor
counters_and_data buffer_size rest = grantor 0 8 ∷ grantor 8 8 ∷ grantor 16 buffer_size ∷ rest

abbrev pub ev_flag_offset : ℕ → ℕ
ev_flag_offset buffer_size = (16 + buffer_size + 7) / 8 * 8

module _ (flavor : MqFlavor) (buffer_size : ℕ) (handle : Option NativeHandle)
    (message_size : ℕ) where
  abbrev pub laid_out : Bool → Descriptor
  laid_out configure_event_flag = record {
    grantors =
        counters_and_data buffer_size
          (if configure_event_flag then grantor (ev_flag_offset buffer_size) 4 ∷ [] else []);
    handle = handle;
    quantum = message_size;
    flags = flavor_value flavor;
  }

  module _ (room : buffer_size + 24 ≤ 2 ^ 31) (small : message_size < 2 ^ 31) where
    pub init_descriptor-laid_out :
        (configure_event_flag : Bool)
        → init_descriptor flavor buffer_size handle message_size configure_event_flag
          ≡ some (laid_out configure_event_flag)
    unfolding init_descriptor place_grantors
    init_descriptor-laid_out true = ground arith
    init_descriptor-laid_out false = ground arith

    -- For a queue within the limits the constructor succeeds, whatever the flavor: the descriptor has
    -- the sizes and the handle asked for, and three grantors, or four with an event flag; they start
    -- at word boundaries, do not overlap, and have offsets that fit in 31 bits.
    pub layout-InOrder :
        (configure_event_flag : Bool)
        → (d : Descriptor) × (init_descriptor flavor buffer_size handle message_size
              configure_event_flag
            ≡ some d)
          × (get_size d ≡ buffer_size)
          × (get_quantum d ≡ message_size)
          × (d.handle ≡ handle)
          × (count_grantors d ≡ (if configure_event_flag then 4 else 3))
          × InOrder 0 d.grantors
    unfolding get_size get_quantum count_grantors InOrder
    layout-InOrder true = (
      laid_out true,
      init_descriptor-laid_out true,
      refl,
      refl,
      refl,
      refl,
      (
        omega arith,
        refl,
        omega arith,
        (
          omega arith,
          refl,
          omega arith,
          (omega arith, refl, omega arith, (omega arith, omega arith, omega arith, tt)),
        ),
      ),
    )
    layout-InOrder false = (
      laid_out false,
      init_descriptor-laid_out false,
      refl,
      refl,
      refl,
      refl,
      (
        omega arith,
        refl,
        omega arith,
        (omega arith, refl, omega arith, (omega arith, refl, omega arith, tt)),
      ),
    )

  -- A queue beyond the limits, with a buffer size that is a `size_t`, gets no grantors: the
  -- constructor aborts, or its descriptor is one that maps nothing.
  pub too_large_has_no_grantors :
      (configure_event_flag : Bool)
      → buffer_size ≤ size_max
      → (2 ^ 31 < buffer_size + 24) ⊎ (2 ^ 31 ≤ message_size)
      → let x = init_descriptor flavor buffer_size handle message_size configure_event_flag in
        (x ≡ none) ⊎ ((d : Descriptor) × (x ≡ some d) × (count_grantors d ≡ 0) × (get_size d ≡ 0))
  unfolding init_descriptor align_to_word_boundary count_grantors get_size
  too_large_has_no_grantors configure_event_flag fits large =
      elim (dec_le (add64 16 buffer_size) (size_max - 7)) [
        | no aborts ↦ inl (ground arith)
        | yes aligned ↦ inr (
          record {
            grantors = [];
            handle = handle;
            quantum = message_size % 2 ^ 32;
            flags = flavor_value flavor;
          },
          ground arith,
          refl,
          refl,
        )
      ]
