-- ===== src/EventFlag/Retry.antt =====
-- The retrying `wait`: it goes on after EAGAIN and EINTR, and a timeout ends it.
use mathlib.Core.Option
use platform_system_libfmq.Base.{
  ℕ, zero, suc, ◌+◌, ◌-◌, ◌≤◌, ◌<◌, ◌≡◌, refl, ap, ℕ_discrete, Bool, true, false, ◌||◌, inl, inr,
  Option, none, some, Bool-cases, is_le_zero-false, min, bit_and, ℤ, pos, negsuc, is_zero,
  is_le_zero, sub_ℕ, ◌-ℤ◌, pos_part, arith,
}
use platform_system_libfmq.Store.{Store}
use platform_system_libfmq.EventFlag.{
  Os, Timespec, Status, no_error, eagain, eintr, timed_out, is_error, Waited, deadline, after_futex,
  wait_helper, wait_loop, wait,
}
use platform_system_libfmq.EventFlag.Wake.{u32_mod, wait_helper_pending}
use platform_system_libfmq.EventFlag.Wait.{
  Took, wait_helper-Took, wait_helper_null, wait_helper_zero, wait_helper_sleeps, slept,
}

-- What is asked of the clock: `elapsedRealtimeNano` reads it, no call sets it back, and a futex call
-- that sleeps takes at least a nanosecond.
pub record Clock (os : Os) : Type 0 where
  pub now : os.World → ℕ
  pub reads : (w : os.World) → (os.elapsed_realtime_nano w).0 ≡ now w
  pub read_later : (w : os.World) → now w ≤ now (os.elapsed_realtime_nano w).1
  pub monotonic_later : (w : os.World) → now w ≤ now (os.monotonic_time w).1
  pub futex_later :
      (word value : ℕ) (time : Option Timespec) (mask : ℕ) (s : Store) (w : os.World)
      → now w < now (os.futex_wait word value time mask s w).2

-- A wait that asks its caller to try again.
abbrev pub again : Status → Bool
again status = is_error status eagain || is_error status eintr

-- The result of a retrying wait: it never asks to try again, and NO_ERROR is a success.
pub record Settled {W : Type 0} (word bitmask : ℕ) (r : Waited W) : Type 0 where
  pub final : again r.status ≡ false
  pub took : r.status ≡ no_error → Took word bitmask r

module _ (os : Os) (clock : Clock os) (word bitmask : ℕ) where
  open clock use {now, reads, read_later, monotonic_later, futex_later}

  deadline_later : (timeout : ℤ) (w : os.World) → now w ≤ now (deadline os timeout w).1
  unfolding deadline
  deadline_later timeout w = ground (arith, monotonic_later w)

  after_futex-world :
      (x : Option ℕ × Store × os.World) → (after_futex os word bitmask x).world ≡ x.2
  unfolding after_futex
  after_futex-world (none, s, w) = refl
  after_futex-world (some errno, s, w) = refl

  pub left-pos_part :
      (timeout : ℤ) (prev : ℕ) (w : os.World)
      → prev ≤ now w
      → pos_part (timeout -ℤ sub_ℕ (os.elapsed_realtime_nano w).0 prev)
        ≡ pos_part timeout - (now w - prev)
  unfolding ◌-ℤ◌
  left-pos_part (pos n) prev w le = ground (arith, reads w)
  left-pos_part (negsuc n) prev w le = ground (arith, reads w)

  -- A `waitHelper` does not set the clock back; if it asks to try again, then time has passed.
  helper_later :
      (ef_state : Option ℕ) (timeout : ℤ) (s : Store) (w : os.World)
      → let r = wait_helper os word bitmask ef_state timeout s w in
        (now w ≤ now r.world) × (again r.status ≡ true → now w < now r.world)
  helper_later none timeout s w =
      rw (wait_helper_null os word bitmask timeout s w) (omega arith, λ e. cc)
  helper_later (some state) timeout s w = elim (ℕ_discrete bitmask 0) [
    | yes zero_mask ↦
        rw (wait_helper_zero os word bitmask state timeout s w zero_mask) (omega arith, λ e. cc)
    | no some_mask ↦ elim (ℕ_discrete (bit_and (s.u32 word) bitmask) 0) [
      | no pending ↦
          rw (wait_helper_pending os word bitmask state timeout s w some_mask pending)
            (omega arith, λ e. cc)
      | yes nothing ↦
          rw (wait_helper_sleeps os word bitmask state timeout s w some_mask nothing)
            (omega (arith, later), λ e. later)
    ]
  ]
    where
      later :
          now w < now (after_futex os word bitmask (slept os word bitmask state timeout s w)).world
      later = omega (
        arith,
        ap now (after_futex-world (slept os word bitmask state timeout s w)),
        deadline_later timeout w,
        futex_later word _ (deadline os timeout w).0 bitmask _ (deadline os timeout w).1,
      )

  module _ (fuel : ℕ) (ef_state : Option ℕ) (timeout : ℤ) (prev : ℕ) (s : Store)
      (w : os.World) where
    abbrev left : ℤ
    left = timeout -ℤ sub_ℕ (os.elapsed_realtime_nano w).0 prev

    abbrev r : Waited os.World
    r = wait_helper os word bitmask ef_state left s (os.elapsed_realtime_nano w).1

    loop_expired :
        is_le_zero left ≡ true
        → wait_loop os (suc fuel) word bitmask ef_state true timeout prev s w
          ≡ some (record {
            status = timed_out;
            ef_state = Option.map (λ _. 0) ef_state;
            store = s;
            world = (os.elapsed_realtime_nano w).1;
          })
    unfolding wait_loop
    loop_expired e = rw e refl

    loop_again :
        is_le_zero left ≡ false
        → again r.status ≡ true
        → wait_loop os (suc fuel) word bitmask ef_state true timeout prev s w
          ≡ wait_loop os fuel word bitmask r.ef_state true left
              (os.elapsed_realtime_nano w).0
              r.store
              r.world
    unfolding wait_loop
    loop_again e more = rw (e, more) refl

    loop_done :
        is_le_zero left ≡ false
        → again r.status ≡ false
        → wait_loop os (suc fuel) word bitmask ef_state true timeout prev s w ≡ some r
    unfolding wait_loop
    loop_done e final = rw (e, final) refl

  -- The wait from `w` on ends, and its end is not before its beginning.
  abbrev pub Settles : os.World → Option (Waited os.World) → Type 0
  Settles w x =
      (r : Waited os.World) × (x ≡ some r) × Settled word bitmask r × (now w ≤ now r.world)

  module _ (mask_fits : bitmask < u32_mod) where
    expired-Settled :
        (ef_state : Option ℕ) (s : Store) (w : os.World)
        → Settled {W = os.World} word bitmask
            (record { status = timed_out; ef_state = ef_state; store = s; world = w })
    expired-Settled ef_state s w = record { final = refl; took = λ ok. cc }

    from_there :
        (w v : os.World) {x : Option (Waited os.World)} → now w ≤ now v → Settles v x → Settles w x
    from_there w v le (r, e, settled, later) = (r, e, settled, omega arith)

    loop-Settles :
        (fuel : ℕ) (ef_state : Option ℕ) (timeout : ℤ) (prev : ℕ) (s : Store) (w : os.World)
        → prev ≤ now w
        → pos_part timeout + 2 ≤ fuel + min 1 (now w - prev)
        → Settles w (wait_loop os fuel word bitmask ef_state true timeout prev s w)
    loop-Settles zero ef_state timeout prev s w le enough = absurd (omega arith)
    loop-Settles (suc fuel) ef_state timeout prev s w le enough =
        elim (Bool-cases (is_le_zero (left fuel ef_state timeout prev s w))) [
          | inl expired ↦ (
            _,
            loop_expired fuel ef_state timeout prev s w expired,
            expired-Settled _ _ _,
            read_later w,
          )
          | inr some_left ↦ elim (Bool-cases (again (r fuel ef_state timeout prev s w).status)) [
            | inl more ↦ rw (loop_again fuel ef_state timeout prev s w some_left more) (
                from_there w _ (omega (arith, read_later w, (helper_later ef_state _ s _).0)) (
                  loop-Settles fuel _ _ _ _ _
                    (omega (arith, (helper_later ef_state _ s _).1 more, reads w, read_later w))
                    (omega (
                      arith,
                      (helper_later ef_state _ s _).1 more,
                      reads w,
                      read_later w,
                      left-pos_part timeout prev w le,
                      is_le_zero-false (left fuel ef_state timeout prev s w) some_left,
                    ))))
            | inr final ↦ (
              _,
              loop_done fuel ef_state timeout prev s w some_left final,
              record { final = final; took = wait_helper-Took os word bitmask mask_fits _ _ _ _ },
              omega (arith, read_later w, (helper_later ef_state _ s _).0),
            )
          ]
        ]

    -- A retrying `wait` with a timeout and a mask of 32 bits ends: fuel of the timeout in
    -- nanoseconds plus two is enough for its loop, whatever else the kernel and the other threads
    -- do, if the clock is not set back and each futex call takes at least a nanosecond of it. It
    -- never hands EAGAIN or EINTR to its caller, and if it returns NO_ERROR then it took flags of
    -- its mask: those that it reports are some, are in the mask, and no flag of the mask is left
    -- set.
    pub wait-Settles :
        (fuel : ℕ) (ef_state : Option ℕ) (timeout : ℤ) (s : Store) (w : os.World)
        → is_zero timeout ≡ false
        → pos_part timeout + 2 ≤ fuel
        → Settles w (wait os fuel word bitmask ef_state timeout true s w)
    unfolding wait
    wait-Settles fuel ef_state timeout s w limited enough = rw limited (
        from_there w _ (read_later w) (
          loop-Settles fuel ef_state timeout _ s _ (omega (arith, reads w, read_later w))
            (omega arith)))
