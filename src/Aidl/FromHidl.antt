-- ===== src/Aidl/FromHidl.antt =====
-- When the conversion from a HIDL descriptor succeeds, and what the AIDL side makes of its result.
use platform_system_libfmq.Base.{
  ◌^◌, ◌≤◌, ◌<◌, ◌≡◌, ◌↔◌, ◌⊎◌, inl, inr, refl, ap, List, [], ◌∷◌, Bool, Bool-cases, Option, some,
  true, false, ◌||◌, arith, ◌!=◌,
}
use platform_system_libfmq.Descriptor.{
  MqFlavor, flavor_value, NativeHandle, GrantorDescriptor, Descriptor, int32, get_quantum,
  get_flags,
}
use platform_system_libfmq.Aidl.{Files, AidlGrantor, AidlDescriptor, is_negative, dup_all}
use platform_system_libfmq.Aidl.Convert.{is_unsafe, push_grantors, to_aidl_grantors, hidl_to_aidl}

-- A grantor's numbers are within their unsigned types, and its offset and extent fit in AIDL's.
abbrev pub AreTyped : List GrantorDescriptor → Type 0
AreTyped [] = Unit
AreTyped (g ∷ gs) =
    ((g.fd_index < 2 ^ 32) × (g.offset < 2 ^ 32) × (g.extent < 2 ^ 64)) × AreTyped gs

abbrev pub OffsetsFit : List GrantorDescriptor → Type 0
OffsetsFit [] = Unit
OffsetsFit (g ∷ gs) = ((g.offset < 2 ^ 31) × (g.extent < 2 ^ 63)) × OffsetsFit gs

-- What a test on a grantor finds: the file index does not matter.
is_unsafe-cases :
    (g : GrantorDescriptor)
    → g.fd_index < 2 ^ 32
    → ((is_unsafe g ≡ false) × (g.offset < 2 ^ 31) × (g.extent < 2 ^ 63))
      ⊎ ((is_unsafe g ≡ true) × ((2 ^ 31 ≤ g.offset) ⊎ (2 ^ 63 ≤ g.extent)))
is_unsafe-cases g typed = ground arith

pub push_grantors-cases :
    (gs : List GrantorDescriptor)
    → AreTyped gs
    → (((push_grantors gs).0 ≡ true) × ((push_grantors gs).1 ≡ to_aidl_grantors gs) × OffsetsFit gs)
      ⊎ (((push_grantors gs).0 ≡ false) × (OffsetsFit gs → ⊥))
unfolding push_grantors
push_grantors-cases [] typed = inl (refl, refl, tt)
push_grantors-cases (g ∷ gs) typed = elim (is_unsafe-cases g typed.0.0) [
  | inr (bad, big) ↦ inr (rw bad refl, λ fit. absurd (ground arith))
  | inl (good, small, short) ↦ elim (push_grantors-cases gs typed.1) [
    | inl (e, list, fit) ↦ inl (rw good e, rw (good, list) refl, ((small, short), fit))
    | inr (e, unfit) ↦ inr (rw (good) e, λ fit. unfit fit.1)
  ]
]

List-cases {ℓ} : {A : Type ℓ} (xs : List A) → (xs ≡ []) ⊎ ((x : A) × (ys : List A) × (xs ≡ x ∷ ys))
List-cases [] = inl refl
List-cases (x ∷ ys) = inr (x, ys, refl)

module _ (files : Files) (flavor : MqFlavor) (hidl : Descriptor) (dest : AidlDescriptor)
    (w : files.World) where
  abbrev answer : Option (Bool × AidlDescriptor × files.World)
  answer = hidl_to_aidl files flavor hidl dest w

  -- The AIDL descriptor that a successful conversion leaves.
  abbrev pub converted : NativeHandle → AidlDescriptor
  converted h = record {
    grantors = to_aidl_grantors hidl.grantors;
    handle = record { fds = (dup_all files h.fds w).0; ints = h.ints };
    quantum = int32 hidl.quantum;
    flags = int32 hidl.flags;
  }

  -- What is required of the descriptors.
  abbrev pub Convertible : Type 0
  Convertible =
      (dest.grantors ≡ [])
      × OffsetsFit hidl.grantors
      × (hidl.quantum < 2 ^ 31)
      × (hidl.flags ≡ flavor_value flavor)

  answer_used :
      (g : AidlGrantor) (gs : List AidlGrantor)
      → dest.grantors ≡ g ∷ gs
      → answer ≡ some (false, dest, w)
  unfolding hidl_to_aidl
  answer_used g gs e =
      rw (hidl_to_aidl, e) (ap (λ xs. some (false, record dest { grantors = xs }, w)) e)

  answer_unsafe :
      dest.grantors ≡ []
      → (push_grantors hidl.grantors).0 ≡ false
      → answer ≡ some (false, record dest { grantors = (push_grantors hidl.grantors).1 }, w)
  unfolding hidl_to_aidl
  answer_unsafe e bad = rw (hidl_to_aidl, e, bad) refl

  abbrev mismatch : Bool
  mismatch =
      is_negative (int32 hidl.quantum)
      || is_negative (int32 hidl.flags)
      || hidl.flags != flavor_value flavor

  module _ (h : NativeHandle) (handle : hidl.handle ≡ some h) (empty : dest.grantors ≡ [])
      (all_pushed : (push_grantors hidl.grantors).0 ≡ true)
      (list : (push_grantors hidl.grantors).1 ≡ to_aidl_grantors hidl.grantors) where
    answer-mismatch :
        mismatch ≡ true
        → answer
          ≡ some (
            false,
            record (converted h) { quantum = dest.quantum; flags = dest.flags },
            (dup_all files h.fds w).1,
          )
    unfolding hidl_to_aidl get_quantum get_flags
    answer-mismatch e = rw (hidl_to_aidl, empty, all_pushed, handle, e, list) refl

    answer_good : mismatch ≡ false → answer ≡ some (true, converted h, (dup_all files h.fds w).1)
    unfolding hidl_to_aidl get_quantum get_flags
    answer_good e = rw (hidl_to_aidl, empty, all_pushed, handle, e, list) refl

  mismatch-cases :
      hidl.quantum < 2 ^ 32
      → hidl.flags < 2 ^ 32
      → ((mismatch ≡ false) × (hidl.quantum < 2 ^ 31) × (hidl.flags ≡ flavor_value flavor))
        ⊎ ((mismatch ≡ true) × ((hidl.quantum < 2 ^ 31) × (hidl.flags ≡ flavor_value flavor) → ⊥))
  mismatch-cases q f = elim (Bool-cases mismatch) [
    | inl bad ↦ inr (bad, λ fit. clash bad (within fit))
    | inr good ↦ inl (good, ground arith, ground arith)
  ]
    where
      small_flags : flavor_value flavor ≤ 2
      small_flags = ground arith

      within : (hidl.quantum < 2 ^ 31) × (hidl.flags ≡ flavor_value flavor) → mismatch ≡ false
      within fit = ground (arith, small_flags, fit.0, fit.1)

      clash : mismatch ≡ true → mismatch ≡ false → ⊥
      clash e e' = cc

  pub answer-converted :
      (h : NativeHandle)
      → hidl.handle ≡ some h
      → AreTyped hidl.grantors
      → hidl.flags < 2 ^ 32
      → Convertible
      → answer ≡ some (true, converted h, (dup_all files h.fds w).1)
  answer-converted h handle typed f fit = elim (push_grantors-cases hidl.grantors typed) [
    | inr (bad, unfit) ↦ absurd (unfit fit.1)
    | inl (all_pushed, list, fits) ↦ elim (mismatch-cases (omega (arith, fit.2)) f) [
      | inr (bad, unfit) ↦ absurd (unfit (fit.2, fit.3))
      | inl (good, small, same) ↦ answer_good h handle fit.0 all_pushed list good
    ]
  ]

  -- For any HIDL descriptor with a handle, whose numbers are of their C++ types, the conversion
  -- answers. It says true exactly if the destination had no grantors, all offsets, extents and the
  -- quantum fit in AIDL's signed numbers, and the flags are those of the flavor; then the
  -- destination is the AIDL form of the descriptor.
  pub hidl_to_aidl_converts :
      (h : NativeHandle)
      → hidl.handle ≡ some h
      → AreTyped hidl.grantors
      → hidl.quantum < 2 ^ 32
      → hidl.flags < 2 ^ 32
      → (b : Bool) × (a : AidlDescriptor) × (w' : files.World) × (answer ≡ some (b, a, w'))
        × ((b ≡ true) ↔ Convertible)
        × (b ≡ true → a ≡ converted h)
  hidl_to_aidl_converts h handle typed q f = elim (List-cases dest.grantors) [
    | inr (g, gs, used) ↦
        (false, dest, w, answer_used g gs used, (λ no. cc, λ fit. cc (used, fit.0)), λ no. cc)
    | inl empty ↦ elim (push_grantors-cases hidl.grantors typed) [
      | inr (bad, unfit) ↦
          (false, _, w, answer_unsafe empty bad, (λ no. cc, λ fit. absurd (unfit fit.1)), λ no. cc)
      | inl (all_pushed, list, fit) ↦ elim (mismatch-cases q f) [
        | inr (bad, unfit) ↦ (
          false,
          _,
          _,
          answer-mismatch h handle empty all_pushed list bad,
          (λ no. cc, λ c. absurd (unfit (c.2, c.3))),
          λ no. cc,
        )
        | inl (good, small, same) ↦ (
          true,
          converted h,
          _,
          answer_good h handle empty all_pushed list good,
          (λ yes_. (empty, fit, small, same), λ c. refl),
          λ yes_. refl,
        )
      ]
    ]
  ]
