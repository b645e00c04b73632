-- ===== src/EventFlag/Threads/Calls.antt =====
-- The steps of EventFlag.Threads are those of the calls: a `wake`, and a `waitHelper` that finds a flag, is a
-- run of one thread that leaves the same word.
use mathlib.Core.Path.{subst}
use platform_system_libfmq.Base.{
  ℕ, ◌<◌, ◌≡◌, ◌≢◌, inl, inr, sym, Bool-cases, some, bit_and, bit_or, ℤ, arith,
}
use platform_system_libfmq.Store.{Store}
use platform_system_libfmq.EventFlag.{Os, needs_wake, wake, wait_helper}
use platform_system_libfmq.EventFlag.Wake.{u32_mod, wait_helper_pending}
use platform_system_libfmq.EventFlag.Threads.{
  Pc, idle, raised, cleared, Move, raise, no_wake, take, Threads, move_to, roused, Step, move,
  wake_all, Reach, start, later,
}

-- A step of thread `i`, by where it stands.
move_of :
    (s : Threads) (i : ℕ) {word : ℕ} {p p' : Pc}
    → s.pc i ≡ p
    → Move s.word p word p'
    → Step s (record { word = word; pc = move_to s.pc i p' })
move_of s i {word} {p} {p'} at m = move i (subst (λ (x : Pc). Move s.word x word p') (sym at) m)

move_to-here : (pc : ℕ → Pc) (i : ℕ) (p : Pc) → move_to pc i p i ≡ p
move_to-here pc i p = ground arith

-- A run from an idle thread `i` back to it, with the word given.
abbrev Runs : (ℕ → Pc) → ℕ → ℕ → ℕ → Type 0
Runs pc i before after =
    (pc' : ℕ → Pc) × Reach (record { word = before; pc = pc }) (record { word = after; pc = pc' })
    × (pc' i ≡ idle)

module _ (os : Os) (word bitmask : ℕ) (s : Store) (w : os.World) (pc : ℕ → Pc) (i : ℕ)
    (ne : bitmask ≢ 0) (at : pc i ≡ idle) where
  wake-word : (wake os word bitmask s w).1.u32 word ≡ bit_or (s.u32 word) bitmask
  unfolding wake
  wake-word = ground (arith, ne)

  abbrev begun : Threads
  begun = record {
    word = bit_or (s.u32 word) bitmask;
    pc = move_to pc i (raised bitmask (s.u32 word));
  }

  -- `wake` is a run: its `fetch_or`, then the call of the kernel or none.
  wake-Runs : bitmask < u32_mod → Runs pc i (s.u32 word) ((wake os word bitmask s w).1.u32 word)
  wake-Runs fits =
      subst (Runs pc i (s.u32 word)) (sym wake-word)
        (elim (Bool-cases (needs_wake (s.u32 word) bitmask)) [
          | inl needed ↦ (
            move_to (λ k. roused bitmask (begun.pc k)) i idle,
            later raising (wake_all i here needed),
            move_to-here (λ k. roused bitmask (begun.pc k)) i idle,
          )
          | inr not_needed ↦ (
            move_to begun.pc i idle,
            later raising (move_of begun i here (no_wake not_needed)),
            move_to-here begun.pc i idle,
          )
        ])
    where
      here : begun.pc i ≡ raised bitmask (s.u32 word)
      here = move_to-here pc i (raised bitmask (s.u32 word))

      raising : Reach (record { word = s.u32 word; pc = pc }) begun
      raising =
          later start (move_of (record { word = s.u32 word; pc = pc }) i at (raise bitmask ne fits))

  -- `waitHelper` that finds a flag is a run of one step.
  wait_helper-Runs :
      (state : ℕ) (timeout : ℤ)
      → bit_and (s.u32 word) bitmask ≢ 0
      → Runs pc i
          (s.u32 word)
          ((wait_helper os word bitmask (some state) timeout s w).store.u32 word)
  wait_helper-Runs state timeout found = subst (Runs pc i (s.u32 word)) (sym taken) (
    move_to pc i idle,
    later start (move_of (record { word = s.u32 word; pc = pc }) i at (take bitmask ne found)),
    move_to-here pc i idle,
  )
    where
      taken :
          (wait_helper os word bitmask (some state) timeout s w).store.u32 word
          ≡ cleared (s.u32 word) bitmask
      taken = rw (wait_helper_pending os word bitmask state timeout s w ne found) (ground arith)
