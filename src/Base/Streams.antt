-- ===== src/Base/Streams.antt =====
-- `collect f p n` is the list of the `n` values of `f` from position `p` on.
use Prim.Native.Nat.{ℕ, zero, suc, ◌+◌, ◌≤◌, ◌<◌}
use mathlib.Core.Path.{◌≡◌, refl, ◌∙◌, ap, ap₂}
use mathlib.Core.List.{List, [], ◌∷◌, ◌++◌}
use mathlib.Core.Option.{Option, none, some}
use native.Mathlib.Nat.{zero-add, add-zero, suc-add}
use native.Mathlib.Omega.{arith}

abbrev pub length {ℓ} : {A : Type ℓ} → List A → ℕ
length [] = 0
length (x ∷ xs) = suc (length xs)

abbrev pub get_elem? {ℓ} : {A : Type ℓ} → List A → ℕ → Option A
get_elem? [] i = none
get_elem? (x ∷ xs) zero = some x
get_elem? (x ∷ xs) (suc i) = get_elem? xs i

abbrev pub take {ℓ} : {A : Type ℓ} → ℕ → List A → List A
take zero xs = []
take (suc n) [] = []
take (suc n) (x ∷ xs) = x ∷ take n xs

abbrev pub drop {ℓ} : {A : Type ℓ} → ℕ → List A → List A
drop zero xs = xs
drop (suc n) [] = []
drop (suc n) (x ∷ xs) = drop n xs

module _ {ℓ} {A : Type ℓ} where
  unfoldable pub collect : (ℕ → A) → ℕ → ℕ → List A
  collect f p zero = []
  collect f p (suc n) = f p ∷ collect f (p + 1) n

  pub length-collect : (f : ℕ → A) (p n : ℕ) → length (collect f p n) ≡ n
  unfolding collect
  length-collect f p zero = refl
  length-collect f p (suc n) = ap suc (length-collect f (p + 1) n)

  -- Two runs of the same length with the same values are the same list.
  pub collect_ext :
      (f g : ℕ → A) (p q n : ℕ)
      → ((i : ℕ) → i < n → f (p + i) ≡ g (q + i))
      → collect f p n ≡ collect g q n
  unfolding collect
  collect_ext f g p q zero h = refl
  collect_ext f g p q (suc n) h =
      ap₂ ◌∷◌ (head (h 0 (omega arith)))
        (collect_ext f g (p + 1) (q + 1) n (λ i lt. shift i (h (suc i) (omega arith))))
    where
      head : f (p + 0) ≡ g (q + 0) → f p ≡ g q
      head e = ground arith

      shift : (i : ℕ) → f (p + suc i) ≡ g (q + suc i) → f (p + 1 + i) ≡ g (q + 1 + i)
      shift i e = ground arith

  pub collect-add :
      (f : ℕ → A) (p m n : ℕ) → collect f p (m + n) ≡ collect f p m ++ collect f (p + m) n
  unfolding collect
  collect-add f p zero n = simp (zero-add, add-zero)
  collect-add f p (suc m) n =
      rw suc-add (ap (λ xs. f p ∷ xs) (rw (← next) (collect-add f (p + 1) m n)))
    where
      next : p + 1 + m ≡ p + suc m
      next = omega arith

  pub take-collect : (f : ℕ → A) (p m n : ℕ) → m ≤ n → take m (collect f p n) ≡ collect f p m
  unfolding collect
  take-collect f p zero n h = refl
  take-collect f p (suc m) zero h = absurd (omega arith)
  take-collect f p (suc m) (suc n) h =
      ap (λ xs. f p ∷ xs) (take-collect f (p + 1) m n (omega arith))

  pub drop-collect : (f : ℕ → A) (p m n : ℕ) → drop m (collect f p (m + n)) ≡ collect f (p + m) n
  unfolding collect
  drop-collect f p zero n = simp (zero-add, add-zero)
  drop-collect f p (suc m) n = rw suc-add (rw (← next) (drop-collect f (p + 1) m n))
    where
      next : p + 1 + m ≡ p + suc m
      next = omega arith

  pub collect-eq-nil : (f : ℕ → A) (p n : ℕ) → n ≡ 0 → collect f p n ≡ []
  unfolding collect
  collect-eq-nil f p zero h = refl
  collect-eq-nil f p (suc n) h = absurd (omega arith)

  pub length-append : (xs ys : List A) → length (xs ++ ys) ≡ length xs + length ys
  length-append [] ys = omega arith
  length-append (x ∷ xs) ys = omega (arith, length-append xs ys)

  pub take-append_length : (xs ys : List A) → take (length xs) (xs ++ ys) ≡ xs
  take-append_length [] ys = refl
  take-append_length (x ∷ xs) ys = ap (λ zs. x ∷ zs) (take-append_length xs ys)

  pub drop-append_length : (xs ys : List A) → drop (length xs) (xs ++ ys) ≡ ys
  drop-append_length [] ys = refl
  drop-append_length (x ∷ xs) ys = drop-append_length xs ys

  abbrev pub get_or : List A → ℕ → A → A
  get_or [] i d = d
  get_or (x ∷ xs) zero d = x
  get_or (x ∷ xs) (suc i) d = get_or xs i d

  -- A list is what its indices hold.
  pub collect-get_or : (xs : List A) (d : A) → collect (λ i. get_or xs i d) 0 (length xs) ≡ xs
  unfolding collect
  collect-get_or [] d = refl
  collect-get_or (x ∷ xs) d =
      ap (λ zs. x ∷ zs)
        (collect_ext _ _ (0 + 1) 0 (length xs) (λ i lt. shift i) ∙ collect-get_or xs d)
    where
      next : (i : ℕ) → 0 + 1 + i ≡ suc (0 + i)
      next i = omega arith

      shift : (i : ℕ) → get_or (x ∷ xs) (0 + 1 + i) d ≡ get_or xs (0 + i) d
      shift i = rw (next i)
