-- ===== src/EventFlag/Threads/Moves.antt =====
-- Every step of a single thread keeps the invariant of `EventFlag.Threads.Pending`.
use mathlib.Core.Path.{subst}
use platform_system_libfmq.Base.{
  ℕ, ◌<◌, ◌≡◌, refl, ◌∙◌, ap, bit_or, bit, bit-le, bit-bit_or, bit_and-le_left, bit_or-lt,
  ℕ_discrete, arith,
}
use platform_system_libfmq.EventFlag.{not32}
use platform_system_libfmq.EventFlag.Wake.{u32_mod}
use platform_system_libfmq.EventFlag.Threads.{
  Pc, idle, raised, checked, asleep, woken, cleared, Move, raise, no_wake, take, check, sleep,
  try_again, interrupt, spurious, finish, Threads, move_to,
}
use platform_system_libfmq.EventFlag.Threads.Pending.{
  Waker, IsPending, Waker-other, cleared-le, cleared-none, new_flag-wakes, moved-IsPending,
  quiet-IsPending, return-IsPending,
}

cleared-lt : (word b : ℕ) → word < u32_mod → cleared word b < u32_mod
cleared-lt word b fits = omega (arith, bit_and-le_left word (not32 b), fits)

-- Where a `fetch_or` sets an awaited flag, its thread is a waker; else there was one.
raised-Waker :
    {s : Threads} (v : IsPending s) (i b k m j : ℕ)
    → s.pc i ≡ idle
    → s.pc k ≡ asleep m
    → j < 32
    → bit m j ≡ 1
    → bit (bit_or s.word b) j ≡ 1
    → Waker (move_to s.pc i (raised b s.word)) j
raised-Waker {s} v i b k m j at e lt set here = elim (ℕ_discrete (bit s.word j) 1) [
  | yes old ↦
      Waker-other s.pc i (raised b s.word) j (λ b' old' r. absurd (cc (at, r)))
        (v.awaited k m j e lt set old)
  | no new ↦ (
    i,
    b,
    s.word,
    ground arith,
    omega (arith, bit-bit_or s.word b j, bit-le s.word j, here, new),
    omega (arith, bit-le s.word j, new),
  )
]

same_word : {a b w w' : ℕ} → checked a w ≡ checked b w' → w' ≡ w
same_word e = cc e

same_mask : {a b w w' : ℕ} → checked a w ≡ checked b w' → a ≡ b
same_mask e = cc e

same_sleeper : {a b : ℕ} → asleep a ≡ asleep b → a ≡ b
same_sleeper e = cc e

-- A thread's own step.
pub Move-IsPending :
    {s : Threads} {p p' : Pc} {word' : ℕ} (i : ℕ)
    → Move s.word p word' p'
    → s.pc i ≡ p
    → IsPending s
    → IsPending (record { word = word'; pc = move_to s.pc i p' })
Move-IsPending {s} i (raise b ne fits) at v =
    moved-IsPending v i (bit_or s.word b) (raised b s.word) (bit_or-lt 32 s.word b v.fits fits)
      (λ b' old e. subst (λ (x : ℕ). x < u32_mod) (cc e) v.fits) (λ b' ef j e. absurd (cc e))
      (λ m j e. absurd (cc e)) (λ k m j e. raised-Waker v i b k m j at e)
Move-IsPending {s} i (no_wake {bitmask} {old} none) at v =
    return-IsPending v i s.word idle refl v.fits (λ j. omega arith)
      λ b old' j e lt new unset.
        cc (none, new_flag-wakes old' b j (v.old_fits i b old' e) lt new unset, at, e)
Move-IsPending {s} i (take b ne some_) at v =
    return-IsPending v i (cleared s.word b) idle refl (cleared-lt s.word b v.fits)
      (cleared-le s.word b) (λ b' old' j e. absurd (cc (at, e)))
Move-IsPending {s} i (check b ne fits none) at v =
    quiet-IsPending v i (cleared s.word b) (checked b (cleared s.word b))
      (cleared-lt s.word b v.fits) (cleared-le s.word b) (λ b' old' j e. absurd (cc (at, e)))
      (λ b' old' e. cc e) (λ b' ef j e lt set. none_of b' ef j e lt set) (λ m j e. absurd (cc e))
  where
    none_of :
        (b' ef j : ℕ)
        → checked b (cleared s.word b) ≡ checked b' ef
        → j < 32
        → bit b' j ≡ 1
        → bit ef j ≡ 0
    none_of b' ef j e lt set =
        ap (λ w. bit w j) (same_word e)
        ∙ cleared-none s.word b j fits lt (ap (λ w. bit w j) (same_mask e) ∙ set)
Move-IsPending {s} i (sleep {bitmask} {ef_word} same) at v =
    quiet-IsPending v i s.word (asleep bitmask) v.fits (λ j. omega arith)
      (λ b old j e. absurd (cc (at, e))) (λ b old e. cc e) (λ b ef j e. absurd (cc e))
      (λ m j e lt set.
        ap (λ w. bit w j) same
        ∙ v.none_set i bitmask ef_word j at lt (ap (λ w. bit w j) (same_sleeper e) ∙ set))
Move-IsPending {s} i (try_again other) at v =
    return-IsPending v i s.word idle refl v.fits (λ j. omega arith)
      (λ b old j e. absurd (cc (at, e)))
Move-IsPending {s} i interrupt at v =
    return-IsPending v i s.word idle refl v.fits (λ j. omega arith)
      (λ b old j e. absurd (cc (at, e)))
Move-IsPending {s} i (spurious {bitmask}) at v =
    quiet-IsPending v i s.word (woken bitmask) v.fits (λ j. omega arith)
      (λ b old j e. absurd (cc (at, e))) (λ b old e. cc e) (λ b ef j e. absurd (cc e))
      (λ m j e. absurd (cc e))
Move-IsPending {s} i (finish {bitmask}) at v =
    return-IsPending v i (cleared s.word bitmask) idle refl (cleared-lt s.word bitmask v.fits)
      (cleared-le s.word bitmask) (λ b old j e. absurd (cc (at, e)))
