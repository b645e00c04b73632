-- ===== src/EventFlag/Wake.antt =====
-- `wake` sets flags, and no wake is lost: a later wait for one of them does not sleep.
use platform_system_libfmq.Base.{
  ℕ, ◌-◌, ◌^◌, ◌≤◌, ◌<◌, ◌≡◌, ◌≢◌, refl, ap, ◌∙◌, some, min, max, bit_and, bit, bit-le, bit-bit_or,
  bit-bit_and, bit-bit_not, bit_and-le_left, bit-zero, eq-zero_of_bits, ℤ, arith,
}
use platform_system_libfmq.Store.{Store, store32}
use platform_system_libfmq.EventFlag.{Os, no_error, not32, wake, wait_helper}

abbrev pub u32_mod : ℕ
u32_mod = 2 ^ 32

-- Some bit of `mask` is set in `old`, and all are.
abbrev pub Overlap : ℕ → ℕ → Type 0
Overlap mask old = (i : ℕ) × (i < 32) × (bit mask i ≡ 1) × (bit old i ≡ 1)

-- `a & b` is not zero if the two have a bit in common.
pub bit_and-ne-zero : (a b : ℕ) → Overlap a b → bit_and a b ≢ 0
bit_and-ne-zero a b (i, lt, ha, hb) e =
    omega (arith, bit-bit_and a b i, ap (λ w. bit w i) e, bit-zero i)

pub bit_and-eq-zero :
    (a b : ℕ) → a < u32_mod → ((i : ℕ) → i < 32 → min (bit a i) (bit b i) ≡ 0) → bit_and a b ≡ 0
bit_and-eq-zero a b fits h =
    eq-zero_of_bits 32 (bit_and a b) (omega (arith, bit_and-le_left a b))
      (λ i lt. bit-bit_and a b i ∙ h i lt)

-- A wait that finds a flag of its mask set takes it and does not call the kernel.
pub wait_helper_pending :
    (os : Os) (word wanted state : ℕ) (timeout : ℤ) (t : Store) (w : os.World)
    → wanted ≢ 0
    → bit_and (t.u32 word) wanted ≢ 0
    → wait_helper os word wanted (some state) timeout t w ≡ record {
      status = no_error;
      ef_state = some (bit_and (t.u32 word) wanted);
      store = store32 t word (bit_and (t.u32 word) (not32 wanted));
      world = w;
    }
unfolding wait_helper
wait_helper_pending os word wanted state timeout t w ne pending = ground arith

module _ (os : Os) (word bitmask : ℕ) (s : Store) (w : os.World) (fits : s.u32 word < u32_mod) where
  abbrev after : Store
  after = (wake os word bitmask s w).1

  -- For a mask that is not zero: after `wake` a flag is set exactly if it was set before or is in the
  -- mask; no other memory changes. The kernel is called if a flag of the mask was not set before;
  -- otherwise the call returns NO_ERROR without calling it.
  pub wake_lem :
      bitmask ≢ 0
      → ((i : ℕ) → bit (after.u32 word) i ≡ max (bit (s.u32 word) i) (bit bitmask i))
        × ((p : ℕ) → p ≢ word → after.u32 p ≡ s.u32 p)
        × (after.bytes ≡ s.bytes)
        × (after.u64 ≡ s.u64)
        × (((i : ℕ) → i < 32 → bit bitmask i ≤ bit (s.u32 word) i)
            → ((wake os word bitmask s w).0 ≡ no_error) × ((wake os word bitmask s w).2 ≡ w))
        × ((i : ℕ)
            → i < 32
            → bit bitmask i ≡ 1
            → bit (s.u32 word) i ≡ 0
            → (wake os word bitmask s w).2 ≡ (os.futex_wake word bitmask w).1)
  unfolding wake
  wake_lem ne = (
    λ i. ground (arith, bit-bit_or (s.u32 word) bitmask i, bit-zero i),
    λ p ne. ground arith,
    ground arith,
    ground arith,
    λ all_set. ground (arith, none_new all_set),
    λ i lt new old. ground (arith, some_new i lt new old, bit-zero i),
  )
    where
      none_new :
          ((i : ℕ) → i < 32 → bit bitmask i ≤ bit (s.u32 word) i)
          → bit_and (not32 (s.u32 word)) bitmask ≡ 0
      none_new all_set = bit_and-eq-zero (not32 (s.u32 word)) bitmask (omega arith) λ i lt. omega (
        arith,
        all_set i lt,
        bit-bit_not 32 (s.u32 word) i fits lt,
        bit-le (s.u32 word) i,
        bit-le bitmask i,
      )

      some_new :
          (i : ℕ)
          → i < 32
          → bit bitmask i ≡ 1
          → bit (s.u32 word) i ≡ 0
          → bit_and (not32 (s.u32 word)) bitmask ≢ 0
      some_new i lt new old =
          bit_and-ne-zero (not32 (s.u32 word)) bitmask
            (i, lt, omega (arith, bit-bit_not 32 (s.u32 word) i fits lt), new)

  -- No wake is lost. If the waker's mask and the waiter's mask, of 32 bits, have a flag in common,
  -- then a `waitHelper` that comes after the `wake`, with nothing between them, returns NO_ERROR
  -- without a call of the kernel, reports those flags of its mask that are set, and clears them.
  pub wake_then_wait :
      (wanted state : ℕ) (timeout : ℤ) (w' : os.World)
      → wanted < u32_mod
      → Overlap wanted bitmask
      → let r = wait_helper os word wanted (some state) timeout after w' in
        (r.status ≡ no_error)
        × (r.world ≡ w')
        × (r.ef_state ≡ some (bit_and (after.u32 word) wanted))
        × ((i : ℕ)
            → i < 32
            → bit (r.store.u32 word) i ≡ min (bit (after.u32 word) i) (1 - bit wanted i))
  wake_then_wait wanted state timeout w' wanted_fits common =
      rw (wait_helper_pending os word wanted state timeout after w' asked pending)
        (refl, refl, refl, λ i lt. cleared i lt)
    where
      some_flag : bitmask ≢ 0
      some_flag e = omega (arith, ap (λ x. bit x common.0) e, bit-zero common.0, common.3)

      flags : (i : ℕ) → bit (after.u32 word) i ≡ max (bit (s.u32 word) i) (bit bitmask i)
      flags = (wake_lem some_flag).0

      asked : wanted ≢ 0
      asked e = omega (arith, ap (λ x. bit x common.0) e, bit-zero common.0, common.2)

      pending : bit_and (after.u32 word) wanted ≢ 0
      pending = bit_and-ne-zero (after.u32 word) wanted (
        common.0,
        common.1,
        omega (arith, flags common.0, common.3, bit-le (s.u32 word) common.0),
        common.2,
      )

      cleared :
          (i : ℕ)
          → i < 32
          → bit ((store32 after word (bit_and (after.u32 word) (not32 wanted))).u32 word) i
            ≡ min (bit (after.u32 word) i) (1 - bit wanted i)
      cleared i lt = ground (
        arith,
        bit-bit_and (after.u32 word) (not32 wanted) i,
        bit-bit_not 32 wanted i wanted_fits lt,
      )
