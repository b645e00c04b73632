-- ===== src/EventFlag.antt =====
-- `EventFlag` of EventFlag.cpp: a 32-bit word of flags in shared memory, with the futex calls of the
-- kernel to sleep on it. What the kernel, the clocks and the other threads do is the parameter `Os`.
pub mod Object
pub mod Wake
pub mod Wait
pub mod Retry
pub mod Threads
use mathlib.Core.Option
use platform_system_libfmq.Base.{
  ℕ, zero, suc, ◌+◌, ◌-◌, ◌/◌, ◌%◌, ◌^◌, ◌<◌, Bool, true, false, ◌&&◌, ◌||◌, not, Option, none,
  some, ltb, leb, ◌==◌, ◌!=◌, if◌then◌else◌, bit_and, bit_or, bit_not, ℤ, pos, negsuc, sub_ℕ, ◌-ℤ◌,
  is_zero, is_le_zero,
}
use platform_system_libfmq.Store.{Store, nullptr, store32}

-- `status_t`: NO_ERROR, or minus an `errno`. BAD_VALUE, NO_MEMORY and TIMED_OUT are minus EINVAL,
-- ENOMEM and ETIMEDOUT.
pub data Status : Type 0 where
  no_error : Status
  error : (errno : ℕ) → Status

abbrev pub eintr : ℕ
eintr = 4

abbrev pub eagain : ℕ
eagain = 11

abbrev pub enomem : ℕ
enomem = 12

abbrev pub einval : ℕ
einval = 22

abbrev pub etimedout : ℕ
etimedout = 110

abbrev pub bad_value : Status
bad_value = error einval

abbrev pub no_memory : Status
no_memory = error enomem

abbrev pub timed_out : Status
timed_out = error etimedout

abbrev pub is_error : Status → ℕ → Bool
is_error no_error e = false
is_error (error errno) e = errno == e

-- `struct timespec`. Its fields are signed, which matters for a negative duration.
pub record Timespec : Type 0 where
  pub tv_sec : ℤ
  pub tv_nsec : ℤ

-- The system calls. `World` is all that they depend on besides the store: the clocks, the scheduler
-- and what other threads are about to do. A futex call answers with an `errno`, or none; a wait may
-- take time, in which others change the store.
pub record Os : Type 1 where
  pub World : Type 0
  pub elapsed_realtime_nano : World → ℕ × World
  pub monotonic_time : World → (ℕ × ℕ) × World
  pub futex_wake : ℕ → ℕ → World → Option ℕ × World
  pub futex_wait : ℕ → ℕ → Option Timespec → ℕ → Store → World → Option ℕ × Store × World
  pub munmap : ℕ → World → Option ℕ × World

-- `~mask` of a `uint32_t`.
abbrev pub not32 : ℕ → ℕ
not32 mask = bit_not 32 mask

-- `(~old & bitmask) != 0`: whether a wake has set a flag that was not set before.
abbrev pub needs_wake : ℕ → ℕ → Bool
needs_wake old bitmask = bit_and (not32 old) bitmask != 0

-- The object, by its two members.
pub record EventFlag : Type 0 where
  pub ef_word_ptr : ℕ
  pub ef_word_needs_unmapping : Bool

-- `nanoSeconds / 1000000000` and `%` of C round towards zero; the carry is one second.
unfoldable pub add_nanoseconds : ℤ → ℕ × ℕ → Timespec
add_nanoseconds (pos n) (sec, nsec) =
    let total = nsec + n % 1_000_000_000 in
    if leb 1_000_000_000 total
    then record {
      tv_sec = pos (sec + n / 1_000_000_000 + 1);
      tv_nsec = pos (total - 1_000_000_000);
    }
    else record { tv_sec = pos (sec + n / 1_000_000_000); tv_nsec = pos total }
add_nanoseconds (negsuc n) (sec, nsec) = record {
  tv_sec = sub_ℕ sec (suc n / 1_000_000_000);
  tv_nsec = sub_ℕ nsec (suc n % 1_000_000_000);
}

-- What a wait hands back: the status, the value at `efState`, and what has become of the rest.
pub record Waited (W : Type 0) : Type 0 where
  pub status : Status
  pub ef_state : Option ℕ
  pub store : Store
  pub world : W

module _ (os : Os) where
  open os use {World, elapsed_realtime_nano, monotonic_time, futex_wake, futex_wait, munmap}

  -- `wake(bitmask)`.
  unfoldable pub wake : ℕ → ℕ → Store → World → Status × Store × World
  wake word bitmask s w =
      let old = s.u32 word in
      let s' = store32 s word (bit_or old bitmask) in
      let (ret, w') = futex_wake word bitmask w in
      if bitmask == 0
      then (no_error, s, w)
      else if needs_wake old bitmask
      then (elim ret [ none ↦ no_error | some errno ↦ error errno ], s', w')
      else (no_error, s', w)

  -- The absolute time of a timeout: none for an unlimited wait.
  unfoldable pub deadline : ℤ → World → Option Timespec × World
  unfolding add_nanoseconds
  deadline timeout w =
      let (now, w') = monotonic_time w in
      if is_zero timeout then (none, w) else (some (add_nanoseconds timeout now), w')

  -- The part of `waitHelper` after the futex call.
  unfoldable pub after_futex : ℕ → ℕ → Option ℕ × Store × World → Waited World
  after_futex word bitmask (some errno, s, w) = record {
    status = error errno;
    ef_state = some 0;
    store = s;
    world = w;
  }
  after_futex word bitmask (none, s, w) =
      let old = s.u32 word in
      let set_bits = bit_and old bitmask in
      record {
        status = if set_bits == 0 then error eintr else no_error;
        ef_state = some set_bits;
        store = store32 s word (bit_and old (not32 bitmask));
        world = w;
      }

  -- `waitHelper`. The argument `ef_state` is the value at `*efState`, or none for a null pointer.
  unfoldable pub wait_helper : ℕ → ℕ → Option ℕ → ℤ → Store → World → Waited World
  unfolding after_futex deadline
  wait_helper word bitmask none timeout s w = record {
    status = bad_value;
    ef_state = none;
    store = s;
    world = w;
  }
  wait_helper word bitmask (some state) timeout s w =
      let old = s.u32 word in
      let cleared = bit_and old (not32 bitmask) in
      let s' = store32 s word cleared in
      let set_bits = bit_and old bitmask in
      let (time, w') = deadline timeout w in
      if bitmask == 0
      then record { status = bad_value; ef_state = some state; store = s; world = w }
      else if set_bits != 0
      then record { status = no_error; ef_state = some set_bits; store = s'; world = w }
      else after_futex word bitmask (futex_wait word cleared time bitmask s' w')

  -- The loop of `wait` with `retry`: `none` is that the fuel ran out. Without a timeout the clock is
  -- not read.
  unfoldable pub wait_loop :
      ℕ → ℕ → ℕ → Option ℕ → Bool → ℤ → ℕ → Store → World → Option (Waited World)
  wait_loop zero word bitmask ef_state should_time_out timeout prev s w = none
  wait_loop (suc fuel) word bitmask ef_state should_time_out timeout prev s w =
      let (now, w') = elapsed_realtime_nano w in
      let left = if should_time_out then timeout -ℤ sub_ℕ now prev else timeout in
      let prev' = if should_time_out then now else prev in
      let w'' = if should_time_out then w' else w in
      let r = wait_helper word bitmask ef_state left s w'' in
      let again =
        wait_loop fuel word bitmask r.ef_state should_time_out left prev' r.store r.world in
      if should_time_out && is_le_zero left
      then some (record {
        status = timed_out;
        ef_state = Option.map (λ _. 0) ef_state;
        store = s;
        world = w'';
      })
      else if is_error r.status eagain || is_error r.status eintr
      then again
      else some r

  -- `wait(bitmask, efState, timeoutNanoSeconds, retry)`
  unfoldable pub wait : ℕ → ℕ → ℕ → Option ℕ → ℤ → Bool → Store → World → Option (Waited World)
  wait fuel word bitmask ef_state timeout retry s w =
      let (now, w') = elapsed_realtime_nano w in
      if not retry
      then some (wait_helper word bitmask ef_state timeout s w)
      else if is_zero timeout
      then wait_loop fuel word bitmask ef_state false timeout 0 s w
      else wait_loop fuel word bitmask ef_state true timeout now s w'
