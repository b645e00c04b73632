-- ===== src/EventFlag/Threads.antt =====
-- Any number of threads that wake and wait on one event flag word (`EventFlag::wake` and
-- `EventFlag::waitHelper` of EventFlag.cpp), interleaved between their atomic operations and system
-- calls. The futex calls do what the kernel documents: a wait sleeps only if the word still has the
-- expected value, and a wake reaches all threads that sleep for a flag of its mask. A sleep may also end
-- by a signal, by its timeout, or for no reason.
pub mod Pending
pub mod Moves
pub mod Safety
pub mod Calls
use platform_system_libfmq.Base.{
  ℕ, ◌^◌, ◌<◌, ◌≡◌, ◌≢◌, Bool, true, false, ◌==◌, ◌!=◌, if◌then◌else◌, bit_and, bit_or,
}
use platform_system_libfmq.EventFlag.{not32, needs_wake}
use platform_system_libfmq.EventFlag.Wake.{u32_mod}

-- Where a thread stands, with the local variables that are live there.
pub data Pc : Type 0 where
  idle : Pc  -- outside of both functions
  raised : (bitmask old : ℕ) → Pc  -- `wake`, after its `fetch_or`
  checked : (bitmask ef_word : ℕ) → Pc  -- `waitHelper`, before its futex call
  asleep : (bitmask : ℕ) → Pc  -- in the futex call
  woken : (bitmask : ℕ) → Pc  -- `waitHelper`, after its futex call has returned 0

-- What `fetch_and(~bitmask)` leaves.
abbrev pub cleared : ℕ → ℕ → ℕ
cleared word bitmask = bit_and word (not32 bitmask)

-- One thread's step that no other thread takes part in: the word and the thread before it, and after.
pub data Move (word : ℕ) : Pc → ℕ → Pc → Type 0 where
  raise :
      (bitmask : ℕ)
      → bitmask ≢ 0
      → bitmask < u32_mod
      → Move word idle (bit_or word bitmask) (raised bitmask word)
  no_wake :
      {bitmask old : ℕ} → needs_wake old bitmask ≡ false → Move word (raised bitmask old) word idle
  take :
      (bitmask : ℕ)
      → bitmask ≢ 0
      → bit_and word bitmask ≢ 0
      → Move word idle (cleared word bitmask) idle
  check :
      (bitmask : ℕ)
      → bitmask ≢ 0
      → bitmask < u32_mod
      → bit_and word bitmask ≡ 0
      → Move word idle (cleared word bitmask) (checked bitmask (cleared word bitmask))
  sleep :
      {bitmask ef_word : ℕ}
      → word ≡ ef_word
      → Move word (checked bitmask ef_word) word (asleep bitmask)
  try_again : {bitmask ef_word : ℕ} → word ≢ ef_word → Move word (checked bitmask ef_word) word idle
  interrupt : {bitmask : ℕ} → Move word (asleep bitmask) word idle
  spurious : {bitmask : ℕ} → Move word (asleep bitmask) word (woken bitmask)
  finish : {bitmask : ℕ} → Move word (woken bitmask) (cleared word bitmask) idle

-- The word, and all threads.
pub record Threads : Type 0 where
  pub word : ℕ
  pub pc : ℕ → Pc

abbrev pub move_to : (ℕ → Pc) → ℕ → Pc → ℕ → Pc
move_to pc i p k = if i == k then p else pc k

-- What FUTEX_WAKE_BITSET does to a thread.
abbrev pub roused : ℕ → Pc → Pc
roused bitmask (asleep mask) = if bit_and mask bitmask != 0 then woken mask else asleep mask
roused bitmask idle = idle
roused bitmask (raised b old) = raised b old
roused bitmask (checked b ef_word) = checked b ef_word
roused bitmask (woken b) = woken b

pub data Step (s : Threads) : Threads → Type 0 where
  move :
      (i : ℕ) {word : ℕ} {p : Pc}
      → Move s.word (s.pc i) word p
      → Step s (record { word = word; pc = move_to s.pc i p })
  wake_all :
      (i : ℕ) {bitmask old : ℕ}
      → s.pc i ≡ raised bitmask old
      → needs_wake old bitmask ≡ true
      → Step s (record s { pc = move_to (λ k. roused bitmask (s.pc k)) i idle })

pub data Reach (s : Threads) : Threads → Type 0 where
  start : Reach s s
  later : {t u : Threads} → Reach s t → Step t u → Reach s u

-- No thread is in a call.
abbrev pub all_idle : ℕ → Threads
all_idle word = record { word = word; pc = λ i. idle }
