-- ===== src/Base/Bits.antt =====
-- The bits of a word, and what `&`, `|` and `~` do to each.
use Prim.Native.Nat.{
  ℕ, zero, suc, ◌-◌, ◌/◌, ◌%◌, ◌^◌, ◌≤◌, ◌<◌, min, max, bit_and, bit_or, digits, bit_and-bitwise,
  bit_or-bitwise,
}
use mathlib.Core.Path.{◌≡◌, refl, ◌∙◌, ap}
use native.Mathlib.Nat.{le_refl, pow-suc}
use native.Mathlib.Omega.{arith}

-- Bit `i` of a word.
abbrev pub bit : ℕ → ℕ → ℕ
bit w zero = w % 2
bit w (suc i) = bit (w / 2) i

-- `~a` of a word of `k` bits.
abbrev pub bit_not : ℕ → ℕ → ℕ
bit_not k a = 2 ^ k - 1 - a

pub bit-le : (w i : ℕ) → bit w i ≤ 1
bit-le w zero = omega arith
bit-le w (suc i) = bit-le (w / 2) i

pub bit-zero : (i : ℕ) → bit 0 i ≡ 0
bit-zero zero = refl
bit-zero (suc i) = bit-zero i

-- An operation on words that works bit by bit: `f` on two bits, and `z` once the first word is zero.
module _ (z : ℕ → ℕ) (f : ℕ → ℕ → ℕ) (one_bit : (x y : ℕ) → x ≤ 1 → y ≤ 1 → f x y ≤ 1)
    (rest : (b i : ℕ) → bit (z b) i ≡ f 0 (bit b i)) where
  bit-digits : (n a b i : ℕ) → a ≤ n → bit (digits z f n a b) i ≡ f (bit a i) (bit b i)
  bit-digits zero zero b i le = rw (bit-zero i) (rest b i)
  bit-digits zero (suc a) b i le = absurd (omega arith)
  bit-digits (suc n) zero b i le = rw (bit-zero i) (rest b i)
  bit-digits (suc n) (suc a) b zero le =
      omega (arith, one_bit (suc a % 2) (b % 2) (omega arith) (omega arith))
  bit-digits (suc n) (suc a) b (suc i) le =
      ap (λ w. bit w i) (omega (arith, one_bit (suc a % 2) (b % 2) (omega arith) (omega arith)))
      ∙ bit-digits n (suc a / 2) (b / 2) i (omega arith)

pub bit-bit_or : (a b i : ℕ) → bit (bit_or a b) i ≡ max (bit a i) (bit b i)
bit-bit_or a b i =
    ap (λ w. bit w i) (bit_or-bitwise a b)
    ∙ bit-digits (λ y. y) max (λ x y p q. omega arith) (λ y j. omega arith) a a b i (le_refl a)

pub bit-bit_and : (a b i : ℕ) → bit (bit_and a b) i ≡ min (bit a i) (bit b i)
bit-bit_and a b i =
    ap (λ w. bit w i) (bit_and-bitwise a b)
    ∙ bit-digits (λ y. 0) min (λ x y p q. omega arith) (λ y j. omega (arith, bit-zero j)) a a b i
        (le_refl a)

pub bit-bit_not : (k a i : ℕ) → a < 2 ^ k → i < k → bit (bit_not k a) i ≡ 1 - bit a i
bit-bit_not zero a i fits lt = absurd (omega arith)
bit-bit_not (suc k) a zero fits lt = omega (arith, pow-suc 2 k)
bit-bit_not (suc k) a (suc i) fits lt =
    ap (λ w. bit w i) (omega (arith, pow-suc 2 k))
    ∙ bit-bit_not k (a / 2) i (omega (arith, pow-suc 2 k)) (omega arith)

-- A word with a bit set is not zero, and one with none set is.
pub eq-zero_of_bits : (k w : ℕ) → w < 2 ^ k → ((i : ℕ) → i < k → bit w i ≡ 0) → w ≡ 0
eq-zero_of_bits zero w fits h = omega arith
eq-zero_of_bits (suc k) w fits h = omega (
  arith,
  h 0 (omega arith),
  eq-zero_of_bits k (w / 2) (omega (arith, pow-suc 2 k)) (λ i lt. h (suc i) (omega arith)),
)

-- `&` stays below its words.
and-le : (n a b : ℕ) → digits (λ y. 0) min n a b ≤ a
and-le zero a b = omega arith
and-le (suc n) zero b = omega arith
and-le (suc n) (suc a) b = omega (arith, and-le n (suc a / 2) (b / 2))

pub bit_and-le_left : (a b : ℕ) → bit_and a b ≤ a
bit_and-le_left a b = omega (arith, bit_and-bitwise a b, and-le a a b)

and-le_right : (n a b : ℕ) → digits (λ y. 0) min n a b ≤ b
and-le_right zero a b = omega arith
and-le_right (suc n) zero b = omega arith
and-le_right (suc n) (suc a) b = omega (arith, and-le_right n (suc a / 2) (b / 2))

pub bit_and-le_right : (a b : ℕ) → bit_and a b ≤ b
bit_and-le_right a b = omega (arith, bit_and-bitwise a b, and-le_right a a b)

-- `|` of two words of `k` bits is one.
or-lt : (k n a b : ℕ) → a ≤ n → a < 2 ^ k → b < 2 ^ k → digits (λ y. y) max n a b < 2 ^ k
or-lt k zero zero b le ha hb = hb
or-lt k zero (suc a) b le ha hb = absurd (omega arith)
or-lt k (suc n) zero b le ha hb = hb
or-lt zero (suc n) (suc a) b le ha hb = absurd (omega arith)
or-lt (suc k) (suc n) (suc a) b le ha hb = omega (
  arith,
  pow-suc 2 k,
  or-lt k n (suc a / 2) (b / 2) (omega arith) (omega (arith, pow-suc 2 k))
      (omega (arith, pow-suc 2 k)),
)

pub bit_or-lt : (k a b : ℕ) → a < 2 ^ k → b < 2 ^ k → bit_or a b < 2 ^ k
bit_or-lt k a b ha hb = omega (arith, bit_or-bitwise a b, or-lt k a a b (le_refl a) ha hb)
