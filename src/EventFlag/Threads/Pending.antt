-- ===== src/EventFlag/Threads/Pending.antt =====
-- Between any two steps: a flag that a sleeping thread waits for is set only while the thread that set
-- it has its FUTEX_WAKE still before it.
use platform_system_libfmq.Base.{
  ℕ, ◌≤◌, ◌<◌, ◌≡◌, ◌≢◌, ◌⊎◌, inl, inr, sym, ◌∙◌, ap, true, bit_and, bit, bit-le, bit-bit_and,
  bit-bit_not, ℕ_discrete, arith,
}
use platform_system_libfmq.EventFlag.{not32, needs_wake}
use platform_system_libfmq.EventFlag.Wake.{u32_mod, bit_and-ne-zero}
use platform_system_libfmq.EventFlag.Threads.{
  Pc, idle, raised, checked, asleep, cleared, Threads, move_to,
}

-- A thread that has set flag `j` of the word, and will call the kernel.
abbrev pub Waker : (ℕ → Pc) → ℕ → Type 0
Waker pc j = (k : ℕ) × (b : ℕ) × (old : ℕ) × (pc k ≡ raised b old) × (bit b j ≡ 1) × (bit old j ≡ 0)

pub record IsPending (s : Threads) : Type 0 where
  pub fits : s.word < u32_mod
  pub old_fits : (i b old : ℕ) → s.pc i ≡ raised b old → old < u32_mod
  pub none_set :
      (i b ef_word j : ℕ) → s.pc i ≡ checked b ef_word → j < 32 → bit b j ≡ 1 → bit ef_word j ≡ 0
  pub awaited :
      (i m j : ℕ) → s.pc i ≡ asleep m → j < 32 → bit m j ≡ 1 → bit s.word j ≡ 1 → Waker s.pc j

-- A thread moves, or is another one.
pub move_to-cases :
    (pc : ℕ → Pc) (i : ℕ) (p : Pc) (k : ℕ)
    → (move_to pc i p k ≡ p) ⊎ ((i ≢ k) × (move_to pc i p k ≡ pc k))
move_to-cases pc i p k = elim (ℕ_discrete i k) [
  | yes e ↦ inl (ground (arith, e))
  | no ne ↦ inr (ne, ground (arith, ne))
]

pub move_to-other : (pc : ℕ → Pc) (i : ℕ) (p : Pc) (k : ℕ) → i ≢ k → move_to pc i p k ≡ pc k
move_to-other pc i p k ne = ground (arith, ne)

-- A waker stays one while another thread moves.
pub Waker-other :
    (pc : ℕ → Pc) (i : ℕ) (p : Pc) (j : ℕ)
    → ((b old : ℕ) → pc i ≡ raised b old → bit b j ≡ 1 → bit old j ≡ 0 → ⊥)
    → Waker pc j
    → Waker (move_to pc i p) j
Waker-other pc i p j idle_i (k, b, old, at, new, unset) = elim (ℕ_discrete i k) [
  | yes e ↦ absurd (idle_i b old (ap pc e ∙ at) new unset)
  | no ne ↦ (k, b, old, move_to-other pc i p k ne ∙ at, new, unset)
]

pub cleared-le : (word b j : ℕ) → bit (cleared word b) j ≤ bit word j
cleared-le word b j = omega (arith, bit-bit_and word (not32 b) j)

pub cleared-none : (word b j : ℕ) → b < u32_mod → j < 32 → bit b j ≡ 1 → bit (cleared word b) j ≡ 0
cleared-none word b j fits lt set =
    omega (arith, bit-bit_and word (not32 b) j, bit-bit_not 32 b j fits lt)

-- A flag that was not set before makes the waker call the kernel.
pub new_flag-wakes :
    (old b j : ℕ) → old < u32_mod → j < 32 → bit b j ≡ 1 → bit old j ≡ 0 → needs_wake old b ≡ true
new_flag-wakes old b j fits lt new unset = ground (arith, differ)
  where
    differ : bit_and (not32 old) b ≢ 0
    differ = bit_and-ne-zero (not32 old) b (j, lt, omega (arith, bit-bit_not 32 old j fits lt), new)

module _ {s : Threads} (v : IsPending s) (i word' : ℕ) (p' : Pc) where
  abbrev pub s' : Threads
  s' = record { word = word'; pc = move_to s.pc i p' }

  -- What is to be shown of the thread that moves.
  pub moved-IsPending :
      word' < u32_mod
      → ((b old : ℕ) → p' ≡ raised b old → old < u32_mod)
      → ((b ef_word j : ℕ) → p' ≡ checked b ef_word → j < 32 → bit b j ≡ 1 → bit ef_word j ≡ 0)
      → ((m j : ℕ)
          → p' ≡ asleep m
          → j < 32
          → bit m j ≡ 1
          → bit word' j ≡ 1
          → Waker (move_to s.pc i p') j)
      → ((k m j : ℕ)
          → s.pc k ≡ asleep m
          → j < 32
          → bit m j ≡ 1
          → bit word' j ≡ 1
          → Waker (move_to s.pc i p') j)
      → IsPending s'
  moved-IsPending fits old_fits' none_set' own others = record {
    fits = fits;
    old_fits = λ k b old e. elim (move_to-cases s.pc i p' k) [
      | inl here ↦ old_fits' b old (sym here ∙ e)
      | inr (ne, there) ↦ v.old_fits k b old (sym there ∙ e)
    ];
    none_set = λ k b ef_word j e. elim (move_to-cases s.pc i p' k) [
      | inl here ↦ none_set' b ef_word j (sym here ∙ e)
      | inr (ne, there) ↦ v.none_set k b ef_word j (sym there ∙ e)
    ];
    awaited = λ k m j e. elim (move_to-cases s.pc i p' k) [
      | inl here ↦ own m j (sym here ∙ e)
      | inr (ne, there) ↦ others k m j (sym there ∙ e)
    ];
  }

  -- A move that sets no flag, of a thread that has no call of the kernel before it.
  pub quiet-IsPending :
      word' < u32_mod
      → ((j : ℕ) → bit word' j ≤ bit s.word j)
      → ((b old j : ℕ) → s.pc i ≡ raised b old → j < 32 → bit b j ≡ 1 → bit old j ≡ 0 → ⊥)
      → ((b old : ℕ) → p' ≡ raised b old → ⊥)
      → ((b ef_word j : ℕ) → p' ≡ checked b ef_word → j < 32 → bit b j ≡ 1 → bit ef_word j ≡ 0)
      → ((m j : ℕ) → p' ≡ asleep m → j < 32 → bit m j ≡ 1 → bit word' j ≡ 0)
      → IsPending s'
  quiet-IsPending fits less no_waker not_raised none_set' own =
      moved-IsPending fits (λ b old e. absurd (not_raised b old e)) none_set'
        (λ m j e lt set here. absurd (omega (arith, own m j e lt set, here)))
        (λ k m j e lt set here.
          Waker-other s.pc i p' j (λ b old at. no_waker b old j at lt)
            (v.awaited k m j e lt set (omega (arith, less j, here, bit-le s.word j))))

  -- A return from a call.
  pub return-IsPending :
      p' ≡ idle
      → word' < u32_mod
      → ((j : ℕ) → bit word' j ≤ bit s.word j)
      → ((b old j : ℕ) → s.pc i ≡ raised b old → j < 32 → bit b j ≡ 1 → bit old j ≡ 0 → ⊥)
      → IsPending s'
  return-IsPending e fits less no_waker =
      quiet-IsPending fits less no_waker (λ b old e'. cc (e, e'))
        (λ b ef_word j e'. absurd (cc (e, e'))) (λ m j e'. absurd (cc (e, e')))
