-- ===== src/Queue/Blocking/Calls.antt =====
-- What `writeBlocking` and `readBlocking` promise: they end in time, and where a plain call would
-- succeed they do what it does and notify.
use platform_system_libfmq.Base.{
  ℕ, ◌+◌, ◌*◌, ◌≤◌, ◌<◌, ◌≡◌, ◌≢◌, ◌⊎◌, inl, inr, refl, ◌∙◌, Bool, true, false, ◌||◌, ◌++◌, u64_mod,
  Option, none, some, ltb, ◌==◌, Bool-cases, ℤ, pos_part, is_zero, arith,
}
use platform_system_libfmq.Store.{Store}
use platform_system_libfmq.EventFlag.{Os, EventFlag}
use platform_system_libfmq.EventFlag.Wake.{u32_mod}
use platform_system_libfmq.EventFlag.Retry.{Clock}
use platform_system_libfmq.Queue.{MessageQueue, get_quantum_count, write, read}
use platform_system_libfmq.Queue.Invariant.{
  write_counter, free_bytes, IsConfigured, IsSynced, IsCallers, contents, array,
}
use native.Mathlib.Nat.{le-div_iff_mul-le}
use platform_system_libfmq.Queue.Admit.{quantum_count}
use platform_system_libfmq.Queue.Write.{write_appends}
use platform_system_libfmq.Queue.Blocking.{
  chosen_flag, notify, notified, blocking, write_blocking, read_blocking,
}
use platform_system_libfmq.Queue.Blocking.Notify.{contents-notify}
use platform_system_libfmq.Queue.Blocking.Ends.{blocking_ends}

option-cases : (x : Option EventFlag) → (x ≡ none) ⊎ ((flag : EventFlag) × (x ≡ some flag))
option-cases none = inl refl
option-cases (some flag) = inr (flag, refl)

module _ (os : Os) (q : MessageQueue) (fuel data_ count read_notification write_notification : ℕ)
    (timeout : ℤ) (ev_flag : Option EventFlag) (s : Store) (w : os.World) where
  -- The result of a blocking call: it ends, and `true` means that an event flag was there, the last
  -- attempt succeeded, and the call then only notified.
  abbrev pub Answers : (Store → Bool × Store) → ℕ → Option (Bool × Store × os.World) → Type 0
  Answers attempt notification x =
      (b : Bool) × (s' : Store) × (w' : os.World) × (x ≡ some (b, s', w'))
      × (b ≡ true
          → (flag : EventFlag) × (t : Store) × (v : os.World) × (chosen_flag q ev_flag ≡ some flag)
            × ((attempt t).0 ≡ true)
            × ((s', w') ≡ notify os flag.ef_word_ptr notification (attempt t).1 v))

  -- `writeBlocking` passes its checks or gives up at once.
  write_blocking-cases :
      (write_blocking os q fuel data_ count read_notification write_notification timeout ev_flag s w
        ≡ some (false, s, w))
      ⊎ ((flag : EventFlag) × (chosen_flag q ev_flag ≡ some flag)
          × (write_blocking os q fuel data_ count read_notification write_notification timeout
                ev_flag s w
              ≡ blocking os
                  (write q data_ count)
                  fuel
                  flag.ef_word_ptr
                  read_notification
                  write_notification
                  timeout
                  s
                  w))
  unfolding write_blocking
  write_blocking-cases = elim (option-cases (chosen_flag q ev_flag)) [
    | inl missing ↦ inl (rw (write_blocking, missing) refl)
    | inr (flag, given) ↦
        elim (Bool-cases (read_notification == 0 || ltb (get_quantum_count q) count)) [
          | inl bad ↦ inl (rw (write_blocking, given, bad) refl)
          | inr good ↦ inr (flag, given, rw (write_blocking, given, good) refl)
        ]
  ]

  -- `readBlocking` passes its checks or gives up at once.
  read_blocking-cases :
      (read_blocking os q fuel data_ count read_notification write_notification timeout ev_flag s w
        ≡ some (false, s, w))
      ⊎ ((flag : EventFlag) × (chosen_flag q ev_flag ≡ some flag)
          × (read_blocking os q fuel data_ count read_notification write_notification timeout
                ev_flag s w
              ≡ blocking os
                  (read q data_ count)
                  fuel
                  flag.ef_word_ptr
                  write_notification
                  read_notification
                  timeout
                  s
                  w))
  unfolding read_blocking
  read_blocking-cases = elim (option-cases (chosen_flag q ev_flag)) [
    | inl missing ↦ inl (rw (read_blocking, missing) refl)
    | inr (flag, given) ↦
        elim (Bool-cases (write_notification == 0 || ltb (get_quantum_count q) count)) [
          | inl bad ↦ inl (rw (read_blocking, given, bad) refl)
          | inr good ↦ inr (flag, given, rw (read_blocking, given, good) refl)
        ]
  ]

  module _ (clock : Clock os)
      (ticks : (w : os.World) → clock.now w < clock.now (os.elapsed_realtime_nano w).1)
      (limited : is_zero timeout ≡ false) (enough : pos_part timeout + 2 ≤ fuel) where
    of_cases :
        (attempt : Store → Bool × Store) (awaited notification : ℕ)
        (x : Option (Bool × Store × os.World))
        → awaited < u32_mod
        → (x ≡ some (false, s, w))
          ⊎ ((flag : EventFlag) × (chosen_flag q ev_flag ≡ some flag)
              × (x ≡ blocking os attempt fuel flag.ef_word_ptr awaited notification timeout s w))
        → Answers attempt notification x
    of_cases attempt awaited notification x fits (inl e) = (false, s, w, e, λ no. cc)
    of_cases attempt awaited notification x fits (inr (flag, chosen, e)) =
        let (b, s', w', served, good) =
          blocking_ends os attempt clock ticks flag.ef_word_ptr awaited fits fuel notification
            timeout s w limited enough in
        (
          b,
          s',
          w',
          e ∙ served,
          λ done. (flag, (good done).0, (good done).1, chosen, (good done).2, (good done).3),
        )

    -- With a timeout and a mask of 32 bits, `writeBlocking` ends whatever else the kernel and the
    -- other threads do: fuel of the timeout in nanoseconds plus two is enough for its loops, if the
    -- clock is not set back, and each reading of it and each futex call takes at least a
    -- nanosecond. If it returns true, then it had an event flag, a `write` of the whole array
    -- succeeded, and after that `write` the call only notified.
    pub write_blocking_ends :
        read_notification < u32_mod
        → Answers (write q data_ count) write_notification (
            write_blocking os q fuel data_ count read_notification write_notification timeout
              ev_flag s w)
    write_blocking_ends fits =
        of_cases (write q data_ count) read_notification write_notification _ fits
          write_blocking-cases

    -- With a timeout and a mask of 32 bits, `readBlocking` ends in the same way, with the same fuel
    -- and if the clock behaves in the same way. If it returns true, then it had an event flag, a
    -- `read` of the whole array succeeded, and after that `read` the call only notified.
    pub read_blocking_ends :
        write_notification < u32_mod
        → Answers (read q data_ count) read_notification (
            read_blocking os q fuel data_ count read_notification write_notification timeout ev_flag
              s w)
    read_blocking_ends fits =
        of_cases (read q data_ count) write_notification read_notification _ fits
          read_blocking-cases

  -- The `write` that begins a `writeBlocking` succeeds.
  at_once :
      (flag : EventFlag)
      → chosen_flag q ev_flag ≡ some flag
      → read_notification ≢ 0
      → count ≤ get_quantum_count q
      → (write q data_ count s).0 ≡ true
      → write_blocking os q fuel data_ count read_notification write_notification timeout ev_flag s
          w
        ≡ some
            (notified os flag.ef_word_ptr write_notification (true, (write q data_ count s).1, w))
  unfolding write_blocking blocking
  at_once flag given ne le done = rw (write_blocking, given, checks, done) refl
    where
      checks : read_notification == 0 || ltb (get_quantum_count q) count ≡ false
      checks = ground arith

  -- On a queue that is set up with consistent counters, with an event flag to use and a mask to wait for
  -- that is not zero: if the array fits now, is apart from the ring, and does not make the write counter
  -- wrap, then `writeBlocking` does not sleep. It returns true, with the array appended to the contents
  -- of the queue, and what it has done is a `write` and then a `wake` with the mask to notify, if that is
  -- not zero.
  pub write_blocking_fits :
      (flag : EventFlag)
      → chosen_flag q ev_flag ≡ some flag
      → read_notification ≢ 0
      → IsConfigured q
      → IsSynced q s
      → IsCallers q data_ (count * q.sizeof_t)
      → count * q.sizeof_t ≤ free_bytes q s
      → write_counter q s + count * q.sizeof_t < u64_mod
      → (after : Store) × (w' : os.World) × (write_blocking os q fuel data_ count read_notification
            write_notification timeout ev_flag s w
          ≡ some (true, after, w'))
        × (contents q after ≡ contents q s ++ array s.bytes data_ (count * q.sizeof_t))
        × ((after, w') ≡ notify os flag.ef_word_ptr write_notification (write q data_ count s).1 w)
  unfolding notified
  write_blocking_fits flag given ne c v callers fits no_wrap =
      let written = write_appends c v data_ count callers fits no_wrap in
      let t = (write q data_ count s).1 in
      (
        (notify os flag.ef_word_ptr write_notification t w).0,
        (notify os flag.ef_word_ptr write_notification t w).1,
        at_once flag given ne in_count written.0,
        contents-notify os flag.ef_word_ptr write_notification t w q ∙ written.1,
        refl,
      )
    where
      in_count : count ≤ get_quantum_count q
      in_count = rw (quantum_count c) ((le-div_iff_mul-le c.element).1 (omega (arith, v.behind)))
