-- ===== src/Base/Arith.antt =====
-- Multiples, remainders and the indices of a ring.
use Prim.Native.Nat.{ℕ, ◌+◌, ◌-◌, ◌*◌, ◌/◌, ◌%◌, ◌≤◌, ◌<◌}
use mathlib.Core.Path.{◌≡◌, ap}
use mathlib.Core.Logic.{◌≢◌}
use native.Mathlib.Nat.{
  mod-eq_of_lt, mod-eq-sub-mod, mod-add-mod, mod-lt, div-add-mod', mod-mod_of_dvd,
  dvd_of_mod-eq-zero, mul-mod_left, mul-sub, add-mod, zero-mod, mul-le-mul_right,
}
use native.Mathlib.Decide.{dec_lt}
use native.Mathlib.Omega.{arith}

-- A multiple is its quotient times the divisor.
pub div-mul_of_mod-eq-zero : (n m : ℕ) → n % m ≡ 0 → n / m * m ≡ n
div-mul_of_mod-eq-zero n m h = omega (arith, div-add-mod' n m)

-- The offset of an aligned position in a ring of whole elements is aligned.
pub mod-mod-eq-zero : (p size sz : ℕ) → size % sz ≡ 0 → p % sz ≡ 0 → p % size % sz ≡ 0
mod-mod-eq-zero p size sz hs hp = omega (arith, mod-mod_of_dvd sz p (dvd_of_mod-eq-zero sz hs))

-- `i` steps on from position `p` of a ring, fewer than a full turn.
pub ring_step_low : (p i size : ℕ) → p % size + i < size → (p + i) % size ≡ p % size + i
ring_step_low p i size h = omega (arith, mod-add-mod p size i, mod-eq_of_lt h)

pub ring_step_high :
    (p i size : ℕ)
    → i ≤ size
    → 0 < size
    → size ≤ p % size + i
    → (p + i) % size ≡ p % size + i - size
ring_step_high p i size hi pos h = omega (
  arith,
  mod-add-mod p size i,
  mod-eq-sub-mod h,
  mod-eq_of_lt {n = p % size + i - size} {m = size} (omega (arith, mod-lt p pos)),
)

pub sub-mul : (a b c : ℕ) → (a - b) * c ≡ a * c - b * c
sub-mul a b c = omega (arith, mul-sub c a b)

-- Byte `b` of element `i` comes before the end of `n` elements.
pub element_byte_lt : (i n b sz : ℕ) → i < n → b < sz → i * sz + b < n * sz
element_byte_lt i n b sz hi hb = omega (arith, mul-le-mul_right sz hi)

-- A difference of multiples is a multiple.
pub sub-mod-eq-zero : (a b sz : ℕ) → a % sz ≡ 0 → b % sz ≡ 0 → (a - b) % sz ≡ 0
sub-mod-eq-zero a b sz ha hb = rw as_product (mul-mod_left (a / sz - b / sz) sz)
  where
    as_product : a - b ≡ (a / sz - b / sz) * sz
    as_product = omega (
      arith,
      mul-sub sz (a / sz) (b / sz),
      div-mul_of_mod-eq-zero a sz ha,
      div-mul_of_mod-eq-zero b sz hb,
    )

pub add-mod-eq-zero : (a b sz : ℕ) → a % sz ≡ 0 → b % sz ≡ 0 → (a + b) % sz ≡ 0
add-mod-eq-zero a b sz ha hb = rw (add-mod, ha, hb) (zero-mod sz)

-- The elements left to the end of a ring, counted from an aligned offset, fill it exactly.
pub contiguous-mul :
    (off size sz : ℕ) → size % sz ≡ 0 → off % sz ≡ 0 → (size - off) / sz * sz ≡ size - off
contiguous-mul off size sz hs ho =
    div-mul_of_mod-eq-zero (size - off) sz (sub-mod-eq-zero size off sz hs ho)

-- Positions less than a turn apart have different places in the ring.
pub ring_distinct : (p r size : ℕ) → 0 < size → p < r → r < p + size → p % size ≢ r % size
ring_distinct p r size pos lt near = elim (dec_lt (p % size + (r - p)) size) [
  | yes low ↦ omega (arith, ap (λ k. k % size) together, ring_step_low p (r - p) size low)
  | no high ↦ omega (
    arith,
    ap (λ k. k % size) together,
    ring_step_high p (r - p) size (omega arith) pos (omega arith),
    mod-lt p pos,
  )
]
  where
    together : p + (r - p) ≡ r
    together = omega arith
