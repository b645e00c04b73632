-- ===== src/Tests/Threads.antt =====
-- A thread that sleeps, and one that has set its flag and not yet called the kernel.
use platform_system_libfmq.Base.{ℕ, ◌≡◌, refl, true, arith}
use platform_system_libfmq.EventFlag.{needs_wake}
use platform_system_libfmq.EventFlag.Threads.{
  raised, asleep, woken, raise, check, sleep, Threads, move_to, roused, move, Reach, start, later,
  all_idle, checked,
}
use platform_system_libfmq.EventFlag.Threads.Safety.{no_lost_wake}

-- The first thread waits for flag 2 and sleeps; then the second sets flags 0 and 2.
abbrev raced : Threads
raced = record {
  word = 5;
  pc =
      move_to (move_to (move_to (λ i. (all_idle 0).pc i) 0 (checked 4 0)) 0 (asleep 4)) 1
        (raised 5 0);
}

raced-Reach : Reach (all_idle 0) raced
raced-Reach =
    later
      (later (later start (move 0 (check 4 (λ e. omega arith) (omega arith) refl)))
        (move 0 (sleep refl)))
      (move 1 (raise 5 (λ e. omega arith) (omega arith)))

no_lost_wake_example :
    (k : ℕ) × (b : ℕ) × (old : ℕ) × (raced.pc k ≡ raised b old)
    × (needs_wake old b ≡ true)
    × (roused b (raced.pc 0) ≡ woken 4)
no_lost_wake_example = no_lost_wake 0 (omega arith) raced-Reach 0 4 2 refl (omega arith) refl refl
