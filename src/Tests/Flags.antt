-- ===== src/Tests/Flags.antt =====
-- A kernel with one other thread, and the theorems about event flags and blocking calls at concrete
-- inputs. The world is a clock; each reading takes a nanosecond. A sleep is interrupted before time
-- 10, and later ends by a wake for all flags of its mask.
use platform_system_libfmq.Base.{
  ℕ, suc, ◌-◌, ◌≤◌, ◌<◌, ◌≡◌, ◌≢◌, refl, true, false, Option, none, some, ltb, if◌then◌else◌, ◌++◌,
  bit, bit_and, min, max, pos, ◌-ℤ◌, arith,
}
use platform_system_libfmq.Store.{Store, store32}
use platform_system_libfmq.Descriptor.{synchronized_read_write, get_size}
use platform_system_libfmq.EventFlag.{
  deadline, after_futex, wait_loop, Os, Timespec, EventFlag, Waited, Status, no_error, eintr,
  timed_out, wake, wait, wait_helper, add_nanoseconds,
}
use platform_system_libfmq.EventFlag.Wake.{wake_lem, wake_then_wait}
use platform_system_libfmq.EventFlag.Retry.{Clock, Settles, wait-Settles}
use platform_system_libfmq.Queue.{write, read}
use platform_system_libfmq.Queue.Invariant.{contents, array}
use platform_system_libfmq.Queue.Blocking.{notify, write_blocking, read_blocking}
use platform_system_libfmq.Queue.Blocking.Calls.{
  Answers, write_blocking_ends, read_blocking_ends, write_blocking_fits,
}
use platform_system_libfmq.Tests.Rings.{
  sync_ring, one_stored, one_stored-IsSynced, ring_of-IsConfigured, array-IsCallers,
}

abbrev pub kernel : Os
kernel = record {
  World = ℕ;
  elapsed_realtime_nano = λ w. (w, suc w);
  monotonic_time = λ w. ((0, w), w);
  futex_wake = λ word mask w. (none, w);
  futex_wait = λ word value time mask s w.
      if ltb w 10 then (some eintr, s, suc w) else (none, store32 s word mask, suc w);
  munmap = λ word w. (none, w);
}

pub sleep-later :
    (word value : ℕ) (time : Option Timespec) (mask : ℕ) (s : Store) (w : ℕ)
    → w < (kernel.futex_wait word value time mask s w).2
sleep-later word value time mask s w = ground arith

abbrev pub kernel_clock : Clock kernel
kernel_clock = record {
  now = λ w. w;
  reads = λ w. refl;
  read_later = λ w. omega arith;
  monotonic_later = λ w. omega arith;
  futex_later = λ word value time mask s w. sleep-later word value time mask s w;
}

abbrev outcome : Option (Waited ℕ) → Status × Option ℕ × ℕ
outcome none = (timed_out, none, 0)
outcome (some r) = (r.status, r.ef_state, r.world)

-- The wait sleeps until it is no longer interrupted, and then takes the flag.
wait-kernel :
    outcome (wait kernel 40 300 2 (some 7) (pos 30) true one_stored 0) ≡ (no_error, some 2, 11)
unfolding wait wait_loop wait_helper deadline after_futex add_nanoseconds ◌-ℤ◌
wait-kernel = refl

-- A shorter timeout ends it first.
wait-kernel_timeout :
    outcome (wait kernel 40 300 2 (some 7) (pos 6) true one_stored 0) ≡ (timed_out, some 0, 8)
unfolding wait wait_loop wait_helper deadline after_futex add_nanoseconds ◌-ℤ◌
wait-kernel_timeout = refl

wake_lem_example :
    let after = (wake kernel 300 2 one_stored 0).1 in
    ((i : ℕ) → bit (after.u32 300) i ≡ max (bit (one_stored.u32 300) i) (bit 2 i))
    × ((p : ℕ) → p ≢ 300 → after.u32 p ≡ one_stored.u32 p)
    × (after.bytes ≡ one_stored.bytes)
    × (after.u64 ≡ one_stored.u64)
    × (((i : ℕ) → i < 32 → bit 2 i ≤ bit (one_stored.u32 300) i)
        → ((wake kernel 300 2 one_stored 0).0 ≡ no_error)
          × ((wake kernel 300 2 one_stored 0).2 ≡ 0))
    × ((i : ℕ)
        → i < 32
        → bit 2 i ≡ 1
        → bit (one_stored.u32 300) i ≡ 0
        → (wake kernel 300 2 one_stored 0).2 ≡ (kernel.futex_wake 300 2 0).1)
wake_lem_example = wake_lem kernel 300 2 one_stored 0 (omega arith) (λ e. omega arith)

wake_then_wait_example :
    let after = (wake kernel 300 2 one_stored 0).1 in
    let r = wait_helper kernel 300 3 (some 0) (pos 5) after 4 in
    (r.status ≡ no_error)
    × (r.world ≡ 4)
    × (r.ef_state ≡ some (bit_and (after.u32 300) 3))
    × ((i : ℕ) → i < 32 → bit (r.store.u32 300) i ≡ min (bit (after.u32 300) i) (1 - bit 3 i))
wake_then_wait_example =
    wake_then_wait kernel 300 2 one_stored 0 (omega arith) 3 0 (pos 5) 4 (omega arith)
      (1, omega arith, refl, refl)

wait-Settles_example :
    Settles kernel kernel_clock 300 2 0 (wait kernel 40 300 2 (some 7) (pos 30) true one_stored 0)
wait-Settles_example =
    wait-Settles kernel kernel_clock 300 2 (omega arith) 40 (some 7) (pos 30) one_stored 0 refl
      (omega arith)

abbrev own_flag : EventFlag
own_flag = record { ef_word_ptr = 300; ef_word_needs_unmapping = false }

write_blocking_ends_example :
    Answers kernel sync_ring 40 1000 2 1 2
      (pos 30)
      (some own_flag)
      one_stored
      0
      (write sync_ring 1000 2)
      2
      (write_blocking kernel sync_ring 40 1000 2 1 2 (pos 30) (some own_flag) one_stored 0)
write_blocking_ends_example =
    write_blocking_ends kernel sync_ring 40 1000 2 1 2 (pos 30) (some own_flag) one_stored 0
      kernel_clock (λ w. omega arith) refl (omega arith) (omega arith)

read_blocking_ends_example :
    Answers kernel sync_ring 40 1000 2 1 2
      (pos 30)
      (some own_flag)
      one_stored
      0
      (read sync_ring 1000 2)
      1
      (read_blocking kernel sync_ring 40 1000 2 1 2 (pos 30) (some own_flag) one_stored 0)
read_blocking_ends_example =
    read_blocking_ends kernel sync_ring 40 1000 2 1 2 (pos 30) (some own_flag) one_stored 0
      kernel_clock (λ w. omega arith) refl (omega arith) (omega arith)

write_blocking_fits_example :
    (after : Store) × (w' : ℕ) × (write_blocking kernel sync_ring 40 1000 2 1 2
        (pos 30)
        (some own_flag)
        one_stored
        0
      ≡ some (true, after, w'))
    × (contents sync_ring after ≡ contents sync_ring one_stored ++ array one_stored.bytes 1000 4)
    × ((after, w') ≡ notify kernel 300 2 (write sync_ring 1000 2 one_stored).1 0)
unfolding get_size
write_blocking_fits_example =
    write_blocking_fits kernel sync_ring 40 1000 2 1 2 (pos 30) (some own_flag) one_stored 0
      own_flag refl (omega arith) (ring_of-IsConfigured synchronized_read_write) one_stored-IsSynced
      (array-IsCallers 4 (omega arith)) (omega arith) (omega arith)
