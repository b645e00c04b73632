-- ===== src/Queue/Blocking/Ends.antt =====
-- A blocking call with a timeout ends, and `true` means that its last `write` or `read` succeeded.
use platform_system_libfmq.Base.{
  ℕ, zero, suc, ◌+◌, ◌≤◌, ◌<◌, ◌≡◌, ◌⊎◌, inl, inr, refl, sym, ap, Bool, true, false, ◌&&◌, Option,
  some, ◌!=◌, if◌then◌else◌, Bool-cases, bit_and, ℤ, pos, negsuc, pos_part, sub_ℕ, ◌-ℤ◌, is_zero,
  is_le_zero, is_le_zero-false, arith,
}
use platform_system_libfmq.Store.{Store}
use platform_system_libfmq.EventFlag.{Os, Status, no_error, error, Waited, wait}
use platform_system_libfmq.EventFlag.Wake.{u32_mod}
use platform_system_libfmq.EventFlag.Retry.{Clock, wait-Settles, left-pos_part}
use platform_system_libfmq.Queue.Blocking.{shown_bits, notify, notified, blocking_loop, blocking}

Status-cases : (x : Status) → (x ≡ no_error) ⊎ ((e : ℕ) × (x ≡ error e))
Status-cases no_error = inl refl
Status-cases (error e) = inr (e, refl)

is_zero-false : (a : ℤ) → is_le_zero a ≡ false → is_zero a ≡ false
is_zero-false (pos n) h = h
is_zero-false (negsuc n) h = refl

and-right : (a b : Bool) → a && b ≡ true → b ≡ true
and-right true b h = h
and-right false b h = cc

module _ (os : Os) (attempt : Store → Bool × Store) where
  -- The call ends; if it says `true` then its last attempt succeeded, and left the store that the
  -- call hands back.
  abbrev Ends : Option (Bool × Store × os.World) → Type 0
  Ends x =
      (b : Bool) × (s' : Store) × (w' : os.World) × (x ≡ some (b, s', w'))
      × (b ≡ true → (t : Store) × ((attempt t).0 ≡ true) × ((attempt t).1 ≡ s'))

  -- The same for the whole call, which then notifies and changes nothing else.
  abbrev pub Served : ℕ → ℕ → Option (Bool × Store × os.World) → Type 0
  Served word notification x =
      (b : Bool) × (s' : Store) × (w' : os.World) × (x ≡ some (b, s', w'))
      × (b ≡ true
          → (t : Store) × (v : os.World) × ((attempt t).0 ≡ true)
            × ((s', w') ≡ notify os word notification (attempt t).1 v))

  module _ (fuel word notification : ℕ) (timeout : ℤ) (prev : ℕ) (s : Store) (w : os.World) where
    abbrev left : ℤ
    left = timeout -ℤ sub_ℕ (os.elapsed_realtime_nano w).0 prev

    abbrev waited : Option (Waited os.World)
    waited = wait os fuel word notification (some 0) left true s (os.elapsed_realtime_nano w).1

    abbrev flagged : Waited os.World → Bool
    flagged r = bit_and (shown_bits r.ef_state) notification != 0

    abbrev turn : Option (Bool × Store × os.World)
    turn = blocking_loop os attempt (suc fuel) word notification true timeout prev s w

    turn_expired :
        is_le_zero left ≡ true
        → turn ≡ some ((attempt s).0, (attempt s).1, (os.elapsed_realtime_nano w).1)
    unfolding blocking_loop
    turn_expired e = rw e refl

    turn_error :
        (r : Waited os.World) (errno : ℕ)
        → is_le_zero left ≡ false
        → waited ≡ some r
        → r.status ≡ error errno
        → turn ≡ some (false, r.store, r.world)
    unfolding blocking_loop
    turn_error r errno some_left e failed = rw (some_left, e, failed) refl

    turn_done :
        (r : Waited os.World)
        → is_le_zero left ≡ false
        → waited ≡ some r
        → r.status ≡ no_error
        → flagged r && (attempt r.store).0 ≡ true
        → turn ≡ some (true, (attempt r.store).1, r.world)
    unfolding blocking_loop
    turn_done r some_left e ok done = rw (some_left, e, ok, done) refl

    turn_again :
        (r : Waited os.World)
        → is_le_zero left ≡ false
        → waited ≡ some r
        → r.status ≡ no_error
        → flagged r && (attempt r.store).0 ≡ false
        → turn
          ≡ blocking_loop os attempt fuel word notification true left
              (os.elapsed_realtime_nano w).0
              (if flagged r then (attempt r.store).1 else r.store)
              r.world
    unfolding blocking_loop
    turn_again r some_left e ok more = rw (some_left, e, ok, more) refl

  module _ (clock : Clock os)
      (ticks : (w : os.World) → clock.now w < clock.now (os.elapsed_realtime_nano w).1)
      (word notification : ℕ) (mask_fits : notification < u32_mod) where
    -- Each turn uses up a part of the timeout.
    shorter :
        (fuel : ℕ) (timeout : ℤ) (prev : ℕ) (s : Store) (w : os.World)
        → prev < clock.now w
        → pos_part timeout + 2 ≤ suc fuel
        → is_le_zero (left fuel word notification timeout prev s w) ≡ false
        → pos_part (left fuel word notification timeout prev s w) + 2 ≤ fuel
    shorter fuel timeout prev s w lt enough some_left = omega (
      arith,
      left-pos_part os clock word notification timeout prev w (omega arith),
      is_le_zero-false (left fuel word notification timeout prev s w) some_left,
    )

    -- What is left of a turn after its wait.
    after_wait :
        (fuel : ℕ) (timeout : ℤ) (prev : ℕ) (s : Store) (w : os.World)
        → is_le_zero (left fuel word notification timeout prev s w) ≡ false
        → (r : Waited os.World) → waited fuel word notification timeout prev s w ≡ some r
        → ((t : Store)
            → Ends (
                blocking_loop os attempt fuel word notification true
                  (left fuel word notification timeout prev s w)
                  (os.elapsed_realtime_nano w).0
                  t
                  r.world))
        → Ends (turn fuel word notification timeout prev s w)
    after_wait fuel timeout prev s w some_left r e rest = elim (Status-cases r.status) [
      | inr failed ↦ (
        false,
        r.store,
        r.world,
        turn_error fuel word notification timeout prev s w r failed.0 some_left e failed.1,
        λ no. cc,
      )
      | inl ok ↦
          elim (Bool-cases
            (flagged fuel word notification timeout prev s w r && (attempt r.store).0)) [
              | inl done ↦ (
                true,
                (attempt r.store).1,
                r.world,
                turn_done fuel word notification timeout prev s w r some_left e ok done,
                λ yes_. (r.store, and-right _ _ done, refl),
              )
              | inr more ↦
                  rw (turn_again fuel word notification timeout prev s w r some_left e ok more)
                    (rest _)
            ]
    ]

    loop-Ends :
        (fuel : ℕ) (timeout : ℤ) (prev : ℕ) (s : Store) (w : os.World)
        → prev < clock.now w
        → pos_part timeout + 2 ≤ fuel
        → Ends (blocking_loop os attempt fuel word notification true timeout prev s w)
    loop-Ends zero timeout prev s w lt enough = absurd (omega arith)
    loop-Ends (suc fuel) timeout prev s w lt enough =
        elim (Bool-cases (is_le_zero (left fuel word notification timeout prev s w))) [
          | inl expired ↦ (
            (attempt s).0,
            (attempt s).1,
            (os.elapsed_realtime_nano w).1,
            turn_expired fuel word notification timeout prev s w expired,
            λ done. (s, done, refl),
          )
          | inr some_left ↦
              let (r, e, settled, later) =
                wait-Settles os clock word notification mask_fits fuel (some 0)
                  (left fuel word notification timeout prev s w) s (os.elapsed_realtime_nano w).1
                  (is_zero-false (left fuel word notification timeout prev s w) some_left)
                  (shorter fuel timeout prev s w lt enough some_left) in
              after_wait fuel timeout prev s w some_left r e λ t.
                loop-Ends fuel (left fuel word notification timeout prev s w) _ t r.world
                  (omega (arith, clock.reads w, ticks w, later))
                  (shorter fuel timeout prev s w lt enough some_left)
        ]

    served :
        (fuel notified_ : ℕ) (timeout : ℤ) (s : Store) (w : os.World)
        → (attempt s).0 ≡ false
        → is_zero timeout ≡ false
        → Ends (
            blocking_loop os attempt fuel word notification true timeout
              (os.elapsed_realtime_nano w).0
              (attempt s).1
              (os.elapsed_realtime_nano w).1)
        → Served word notified_ (blocking os attempt fuel word notification notified_ timeout s w)
    unfolding blocking notified
    served fuel notified_ timeout s w more limited (true, t, v, e, good) =
        rw (more, limited, e)
          (
            true,
            (notify os word notified_ t v).0,
            (notify os word notified_ t v).1,
            refl,
            λ done. (
              (good done).0,
              v,
              (good done).1,
              ap (λ t. notify os word notified_ t v) (sym (good done).2),
            ),
          )
    served fuel notified_ timeout s w more limited (false, t, v, e, good) =
        rw (more, limited, e) (false, t, v, refl, λ done. cc)

    -- The whole of a call past its checks.
    pub blocking_ends :
        (fuel notified_ : ℕ) (timeout : ℤ) (s : Store) (w : os.World)
        → is_zero timeout ≡ false
        → pos_part timeout + 2 ≤ fuel
        → Served word notified_ (blocking os attempt fuel word notification notified_ timeout s w)
    unfolding blocking notified
    blocking_ends fuel notified_ timeout s w limited enough = elim (Bool-cases (attempt s).0) [
      | inl done ↦ rw done (true, _, _, refl, λ e. (s, w, done, refl))
      | inr more ↦ served fuel notified_ timeout s w more limited (
          loop-Ends fuel timeout (os.elapsed_realtime_nano w).0 (attempt s).1
            (os.elapsed_realtime_nano w).1 (omega (arith, clock.reads w, ticks w)) enough)
    ]
