-- ===== src/Queue/Blocking.antt =====
-- `writeBlocking` and `readBlocking`: they repeat a `write` or a `read` until it succeeds, and sleep
-- on the event flag in between.
pub mod Ends
pub mod Notify
pub mod Calls
pub mod Woken
pub mod Handover
use mathlib.Core.Option
use platform_system_libfmq.Base.{
  ℕ, zero, suc, ◌-◌, Bool, true, false, ◌&&◌, ◌||◌, not, Option, none, some, ltb, ◌==◌, ◌!=◌,
  if◌then◌else◌, bit_and, ℤ, sub_ℕ, ◌-ℤ◌, is_zero, is_le_zero, get_or,
}
use platform_system_libfmq.Store.{Store}
use platform_system_libfmq.EventFlag.{Os, EventFlag, Status, no_error, error, Waited, wake, wait}
use platform_system_libfmq.Queue.{MessageQueue, get_quantum_count, write, read}

-- `DefaultEventNotification`
abbrev pub fmq_not_full : ℕ
fmq_not_full = 1

abbrev pub fmq_not_empty : ℕ
fmq_not_empty = 2

-- The event flag of a blocking call: the caller's, or else the queue's own.
abbrev pub chosen_flag : MessageQueue → Option EventFlag → Option EventFlag
chosen_flag q (some ev_flag) = some ev_flag
chosen_flag q none = q.event_flag

abbrev pub shown_bits : Option ℕ → ℕ
shown_bits none = 0
shown_bits (some bits) = bits

module _ (os : Os) where
  open os use {World, elapsed_realtime_nano}

  -- `if (notification) evFlag->wake(notification)`: the status of the wake is dropped.
  unfoldable pub notify : ℕ → ℕ → Store → World → Store × World
  notify word notification s w =
      let (status, s', w') = wake os word notification s w in
      if notification == 0 then (s, w) else (s', w')

  -- A call that succeeded notifies.
  unfoldable pub notified : ℕ → ℕ → Bool × Store × World → Bool × Store × World
  unfolding notify
  notified word notification (result, s, w) =
      let (s', w') = notify word notification s w in
      if result then (true, s', w') else (false, s, w)

  -- The loop that both calls have, with `attempt` for the `write` or the `read`. `none` is that the
  -- fuel ran out, here or in the loop of `wait`.
  unfoldable pub blocking_loop :
      (Store → Bool × Store)
      → ℕ
      → ℕ
      → ℕ
      → Bool
      → ℤ
      → ℕ
      → Store
      → World
      → Option (Bool × Store × World)
  blocking_loop attempt zero word notification should_time_out timeout prev s w = none
  blocking_loop attempt (suc fuel) word notification should_time_out timeout prev s w =
      let (now, w') = elapsed_realtime_nano w in
      let left = if should_time_out then timeout -ℤ sub_ℕ now prev else timeout in
      let prev' = if should_time_out then now else prev in
      let w'' = if should_time_out then w' else w in
      if should_time_out && is_le_zero left
      then some ((attempt s).0, (attempt s).1, w'')
      else elim (wait os fuel word notification (some 0) left true s w'') [
        | none ↦ none
        | some r ↦ elim (r.status) [
          | error errno ↦ some (false, r.store, r.world)
          | no_error ↦
              let (done, s') = attempt r.store in
              let flagged = bit_and (shown_bits r.ef_state) notification != 0 in
              let rest =
                blocking_loop attempt fuel word notification should_time_out left prev'
                  (if flagged then s' else r.store) r.world in
              if flagged && done then some (true, s', r.world) else rest
        ]
      ]

  -- What follows the checks of a blocking call: an attempt, then the loop, then the notification.
  unfoldable pub blocking :
      (Store → Bool × Store) → ℕ → ℕ → ℕ → ℕ → ℤ → Store → World → Option (Bool × Store × World)
  unfolding notified
  blocking attempt fuel word awaited notification timeout s w =
      let (done, s') = attempt s in
      let (now, w') = elapsed_realtime_nano w in
      if done
      then some (notified word notification (true, s', w))
      else Option.map (notified word notification) (
          if is_zero timeout
          then blocking_loop attempt fuel word awaited false timeout 0 s' w
          else blocking_loop attempt fuel word awaited true timeout now s' w')

  unfoldable pub write_blocking :
      MessageQueue
      → ℕ
      → ℕ
      → ℕ
      → ℕ
      → ℕ
      → ℤ
      → Option EventFlag
      → Store
      → World
      → Option (Bool × Store × World)
  unfolding blocking
  write_blocking q fuel data_ count read_notification write_notification timeout ev_flag s w =
      elim (chosen_flag q ev_flag) [
        | none ↦ some (false, s, w)
        | some flag ↦
            if read_notification == 0 || ltb (get_quantum_count q) count
            then some (false, s, w)
            else blocking (write q data_ count) fuel flag.ef_word_ptr read_notification
                write_notification timeout s w
      ]

  unfoldable pub read_blocking :
      MessageQueue
      → ℕ
      → ℕ
      → ℕ
      → ℕ
      → ℕ
      → ℤ
      → Option EventFlag
      → Store
      → World
      → Option (Bool × Store × World)
  unfolding blocking
  read_blocking q fuel data_ count read_notification write_notification timeout ev_flag s w =
      elim (chosen_flag q ev_flag) [
        | none ↦ some (false, s, w)
        | some flag ↦
            if write_notification == 0 || ltb (get_quantum_count q) count
            then some (false, s, w)
            else blocking (read q data_ count) fuel flag.ef_word_ptr write_notification
                read_notification timeout s w
      ]

  -- The calls without masks: FMQ_NOT_FULL is what a reader notifies, FMQ_NOT_EMPTY what a writer does.
  unfoldable pub write_blocking_default :
      MessageQueue → ℕ → ℕ → ℕ → ℤ → Store → World → Option (Bool × Store × World)
  unfolding write_blocking
  write_blocking_default q fuel data_ count timeout s w =
      write_blocking q fuel data_ count fmq_not_full fmq_not_empty timeout none s w

  unfoldable pub read_blocking_default :
      MessageQueue → ℕ → ℕ → ℕ → ℤ → Store → World → Option (Bool × Store × World)
  unfolding read_blocking
  read_blocking_default q fuel data_ count timeout s w =
      read_blocking q fuel data_ count fmq_not_full fmq_not_empty timeout none s w
