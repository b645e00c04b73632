-- ===== src/EventFlag/Threads/Safety.antt =====
-- No wake is lost between any number of threads: a thread that sleeps has none of its flags set, unless
-- the thread that set it is about to call the kernel, which will wake the sleeper.
use platform_system_libfmq.Base.{
  ℕ, ◌<◌, ◌≡◌, ◌≢◌, ◌⊎◌, inl, inr, refl, sym, ◌∙◌, ap, true, bit_and, bit, ℕ_discrete, arith,
}
use platform_system_libfmq.EventFlag.{needs_wake}
use platform_system_libfmq.EventFlag.Wake.{u32_mod, bit_and-ne-zero}
use platform_system_libfmq.EventFlag.Threads.{
  Pc, idle, raised, checked, asleep, woken, Threads, move_to, roused, Step, move, wake_all, Reach,
  start, later, all_idle,
}
use platform_system_libfmq.EventFlag.Threads.Pending.{
  Waker, IsPending, move_to-cases, move_to-other, new_flag-wakes,
}
use platform_system_libfmq.EventFlag.Threads.Moves.{Move-IsPending}

same_waker : {b b' old old' : ℕ} → raised b old ≡ raised b' old' → b' ≡ b
same_waker e = cc e

same_sleeper : {a b : ℕ} → asleep a ≡ asleep b → a ≡ b
same_sleeper e = cc e

-- A wake leaves a thread as it is, with no flag of the mask in common, or wakes it.
abbrev Outcome : ℕ → Pc → Type 0
Outcome b p =
    ((roused b p ≡ p) × ((m : ℕ) → p ≡ asleep m → bit_and m b ≡ 0))
    ⊎ ((m : ℕ) × (roused b p ≡ woken m))

roused_sleeper : (b m : ℕ) → bit_and m b ≢ 0 → roused b (asleep m) ≡ woken m
roused_sleeper b m ne = ground (arith, ne)

roused-cases : (b : ℕ) (p : Pc) → Outcome b p
roused-cases b idle = inl (refl, λ m e. absurd (cc e))
roused-cases b (raised b' old) = inl (refl, λ m e. absurd (cc e))
roused-cases b (checked b' ef_word) = inl (refl, λ m e. absurd (cc e))
roused-cases b (woken b') = inl (refl, λ m e. absurd (cc e))
roused-cases b (asleep mask) = elim (ℕ_discrete (bit_and mask b) 0) [
  | yes e ↦ inl (ground (arith, e), λ m same. ground (arith, e, same_sleeper same))
  | no ne ↦ inr (mask, roused_sleeper b mask ne)
]

-- A thread that a wake leaves in another state than woken was in it before.
roused-same : (b : ℕ) (p q : Pc) → roused b p ≡ q → ((m : ℕ) → q ≢ woken m) → p ≡ q
roused-same b p q e other = elim (roused-cases b p) [
  | inl (same, apart) ↦ sym same ∙ e
  | inr (m, is_woken) ↦ absurd (other m (sym e ∙ is_woken))
]

roused-apart : (b m : ℕ) (p : Pc) → roused b p ≡ asleep m → bit_and m b ≡ 0
roused-apart b m p e = elim (roused-cases b p) [
  | inl (same, apart) ↦ apart m (sym same ∙ e)
  | inr (m', is_woken) ↦ absurd (cc (e, is_woken))
]

-- A call of FUTEX_WAKE keeps the invariant: who still sleeps waits for other flags, which others set.
module _ {s : Threads} (v : IsPending s) (i b old : ℕ) (at : s.pc i ≡ raised b old) where
  abbrev pc' : ℕ → Pc
  pc' = move_to (λ k. roused b (s.pc k)) i idle

  unchanged :
      (k : ℕ) (q : Pc) → pc' k ≡ q → q ≢ idle → ((m : ℕ) → q ≢ woken m) → (i ≢ k) × (s.pc k ≡ q)
  unchanged k q e not_idle not_woken = elim (move_to-cases (λ k'. roused b (s.pc k')) i idle k) [
    | inl here ↦ absurd (not_idle (sym e ∙ here))
    | inr (ne, there) ↦ (ne, roused-same b (s.pc k) q (sym there ∙ e) not_woken)
  ]

  wake_all-Waker :
      (k m j : ℕ) → pc' k ≡ asleep m → bit m j ≡ 1 → j < 32 → Waker s.pc j → Waker pc' j
  wake_all-Waker k m j e set lt (k', b', old', waker, new, unset) =
      (k', b', old', stays, new, unset)
    where
      apart : bit_and m b ≡ 0
      apart = elim (move_to-cases (λ k'. roused b (s.pc k')) i idle k) [
        | inl here ↦ absurd (cc (e, here))
        | inr (ne, there) ↦ roused-apart b m (s.pc k) (sym there ∙ e)
      ]

      other : i ≢ k'
      other same =
          bit_and-ne-zero m b
            (j, lt, set, ap (λ x. bit x j) (sym (same_waker (sym at ∙ ap s.pc same ∙ waker))) ∙ new)
            apart

      stays : pc' k' ≡ raised b' old'
      stays = move_to-other (λ k. roused b (s.pc k)) i idle k' other ∙ ap (roused b) waker

  wake_all-IsPending : IsPending (record s { pc = pc' })
  wake_all-IsPending = record {
    fits = v.fits;
    old_fits = λ k b' old' e.
        v.old_fits k b' old' ((unchanged k (raised b' old') e (λ x. cc x) (λ m x. cc x)).1);
    none_set = λ k b' ef_word j e.
        v.none_set k b' ef_word j
          ((unchanged k (checked b' ef_word) e (λ x. cc x) (λ m x. cc x)).1);
    awaited = λ k m j e lt set here.
        wake_all-Waker k m j e set lt
          (v.awaited k m j ((unchanged k (asleep m) e (λ x. cc x) (λ m x. cc x)).1) lt set here);
  }

Step-IsPending : {s t : Threads} → Step s t → IsPending s → IsPending t
Step-IsPending (move i m) v = Move-IsPending i m refl v
Step-IsPending (wake_all i {bitmask} {old} at new) v = wake_all-IsPending v i bitmask old at

Reach-IsPending : {s t : Threads} → Reach s t → IsPending s → IsPending t
Reach-IsPending start v = v
Reach-IsPending (later r step) v = Step-IsPending step (Reach-IsPending r v)

all_idle-IsPending : (word : ℕ) → word < u32_mod → IsPending (all_idle word)
all_idle-IsPending word fits = record {
  fits = fits;
  old_fits = λ i b old e. absurd (cc e);
  none_set = λ i b ef_word j e. absurd (cc e);
  awaited = λ i m j e. absurd (cc e);
}

-- However any number of threads run `wake` and `waitHelper` on one word of 32 bits, from no thread
-- being in a call: where a thread sleeps and one of the flags that it waits for is set, some thread
-- is between the `fetch_or` and the FUTEX_WAKE of `wake`; it finds that the kernel is to be called,
-- and its call wakes the sleeper.
pub no_lost_wake :
    (word : ℕ)
    → word < u32_mod
    → {s : Threads} → Reach (all_idle word) s
    → (i m j : ℕ) → s.pc i ≡ asleep m
    → j < 32
    → bit m j ≡ 1
    → bit s.word j ≡ 1
    → (k : ℕ) × (b : ℕ) × (old : ℕ) × (s.pc k ≡ raised b old)
      × (needs_wake old b ≡ true)
      × (roused b (s.pc i) ≡ woken m)
no_lost_wake word fits {s} r i m j at lt set here =
    let v = Reach-IsPending r (all_idle-IsPending word fits) in
    let (k, b, old, waker, new, unset) = v.awaited i m j at lt set here in
    (
      k,
      b,
      old,
      waker,
      new_flag-wakes old b j (v.old_fits k b old waker) lt new unset,
      ap (roused b) at ∙ roused_sleeper b m (bit_and-ne-zero m b (j, lt, set, new)),
    )
