-- ===== src/EventFlag/Wait.antt =====
-- What a successful wait means, and what the retrying `wait` adds to `waitHelper`.
use platform_system_libfmq.Base.{
  ℕ_discrete, ℕ, ◌≤◌, ◌<◌, ◌≡◌, ◌≢◌, refl, Option, none, some, bit_and, bit, bit-bit_and,
  bit-bit_not, ℤ, arith,
}
use platform_system_libfmq.Store.{Store, store32}
use platform_system_libfmq.EventFlag.{
  bad_value, Os, no_error, not32, Waited, deadline, after_futex, wait_helper,
}
use platform_system_libfmq.EventFlag.Wake.{u32_mod, wait_helper_pending}

-- The wait took some flags of its mask: it reports them, and leaves no flag of the mask set.
pub record Took {W : Type 0} (word bitmask : ℕ) (r : Waited W) : Type 0 where
  pub bits : ℕ
  pub shown : r.ef_state ≡ some bits
  pub some_bit : bits ≢ 0
  pub in_mask : (i : ℕ) → bit bits i ≤ bit bitmask i
  pub cleared : (i : ℕ) → i < 32 → bit bitmask i ≡ 1 → bit (r.store.u32 word) i ≡ 0

module _ (os : Os) (word bitmask : ℕ) where
  pub wait_helper_zero :
      (state : ℕ) (timeout : ℤ) (s : Store) (w : os.World)
      → bitmask ≡ 0
      → wait_helper os word bitmask (some state) timeout s w
        ≡ record { status = bad_value; ef_state = some state; store = s; world = w }
  unfolding wait_helper
  wait_helper_zero state timeout s w e = ground arith

  pub wait_helper_null :
      (timeout : ℤ) (s : Store) (w : os.World)
      → wait_helper os word bitmask none timeout s w
        ≡ record { status = bad_value; ef_state = none; store = s; world = w }
  unfolding wait_helper
  wait_helper_null timeout s w = refl

  -- What the futex call of a wait answers.
  abbrev pub slept : ℕ → ℤ → Store → os.World → Option ℕ × Store × os.World
  slept state timeout s w =
      let (time, w') = deadline os timeout w in
      let cleared = bit_and (s.u32 word) (not32 bitmask) in
      os.futex_wait word cleared time bitmask (store32 s word cleared) w'

  -- The wait that finds no flag of its mask sleeps.
  pub wait_helper_sleeps :
      (state : ℕ) (timeout : ℤ) (s : Store) (w : os.World)
      → bitmask ≢ 0
      → bit_and (s.u32 word) bitmask ≡ 0
      → wait_helper os word bitmask (some state) timeout s w
        ≡ after_futex os word bitmask (slept state timeout s w)
  unfolding wait_helper
  wait_helper_sleeps state timeout s w ne e = ground arith

module _ (os : Os) (word bitmask : ℕ) (mask_fits : bitmask < u32_mod) where
  masked_bits :
      (old i : ℕ)
      → (bit (bit_and old bitmask) i ≤ bit bitmask i)
        × (i < 32 → bit bitmask i ≡ 1 → bit (bit_and old (not32 bitmask)) i ≡ 0)
  masked_bits old i = (
    omega (arith, bit-bit_and old bitmask i),
    λ lt set.
        omega (arith, bit-bit_and old (not32 bitmask) i, bit-bit_not 32 bitmask i mask_fits lt),
  )

  after_futex-Took :
      (x : Option ℕ × Store × os.World)
      → (after_futex os word bitmask x).status ≡ no_error
      → Took word bitmask (after_futex os word bitmask x)
  unfolding after_futex
  after_futex-Took (some errno, s, w) ok = cc
  after_futex-Took (none, s, w) ok = record {
    bits = bit_and (s.u32 word) bitmask;
    shown = refl;
    some_bit = ground arith;
    in_mask = λ i. (masked_bits (s.u32 word) i).0;
    cleared = λ i lt set. ground (arith, masked_bits (s.u32 word) i);
  }

  -- A `waitHelper` that returns NO_ERROR took flags of its mask.
  pub wait_helper-Took :
      (ef_state : Option ℕ) (timeout : ℤ) (s : Store) (w : os.World)
      → let r = wait_helper os word bitmask ef_state timeout s w in
        r.status ≡ no_error → Took word bitmask r
  wait_helper-Took none timeout s w = rw (wait_helper_null os word bitmask timeout s w) λ ok. cc
  wait_helper-Took (some state) timeout s w = elim (ℕ_discrete bitmask 0) [
    | yes zero_mask ↦ rw (wait_helper_zero os word bitmask state timeout s w zero_mask) λ ok. cc
    | no some_mask ↦ elim (ℕ_discrete (bit_and (s.u32 word) bitmask) 0) [
      | no pending ↦
          rw (wait_helper_pending os word bitmask state timeout s w some_mask pending) λ ok.
            record {
              bits = bit_and (s.u32 word) bitmask;
              shown = refl;
              some_bit = pending;
              in_mask = λ i. (masked_bits (s.u32 word) i).0;
              cleared = λ i lt set. ground (arith, masked_bits (s.u32 word) i);
            }
      | yes nothing ↦
          rw (wait_helper_sleeps os word bitmask state timeout s w some_mask nothing)
            (after_futex-Took (slept os word bitmask state timeout s w))
    ]
  ]
