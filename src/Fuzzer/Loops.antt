-- ===== src/Fuzzer/Loops.antt =====
-- The loop that the fuzzer's reader and writer have: if every turn consumes data, it ends once the
-- fuel is above the data, and what every turn keeps, the loop keeps.
use platform_system_libfmq.Base.{
  ℕ, zero, suc, ◌<◌, ◌≤◌, ◌≡◌, ◌≢◌, refl, List, [], ◌∷◌, ◌++◌, false, Option, some, ◌==◌,
  ℕ_discrete, arith,
}
use platform_system_libfmq.Store.{Store}
use platform_system_libfmq.Fuzzer.{Provider, Ran, after, consume_loop}

-- What `FuzzedDataProvider` says of itself: a value stands in its range, and while there is data left,
-- a range of more than one value, or an integral type, consumes some of it. Nothing adds data.
pub record IsProvider (provider : Provider) : Type 0 where
  pub in_range :
      (lo hi : ℕ) (d : provider.Data)
      → lo ≤ hi
      → (lo ≤ (provider.consume_integral_in_range lo hi d).0)
        × ((provider.consume_integral_in_range lo hi d).0 ≤ hi)
  pub range_consumes :
      (lo hi : ℕ) (d : provider.Data)
      → lo < hi
      → provider.remaining_bytes d ≢ 0
      → provider.remaining_bytes ((provider.consume_integral_in_range lo hi d).1)
        < provider.remaining_bytes d
  pub integral_consumes :
      (bytes : ℕ) (d : provider.Data)
      → bytes ≢ 0
      → provider.remaining_bytes d ≢ 0
      → provider.remaining_bytes ((provider.consume_integral bytes d).1)
        < provider.remaining_bytes d
  pub integral_adds_none :
      (bytes : ℕ) (d : provider.Data)
      → provider.remaining_bytes ((provider.consume_integral bytes d).1)
        ≤ provider.remaining_bytes d

-- Every access satisfies a predicate.
abbrev pub Every : (ℕ → Type 0) → List ℕ → Type 0
Every Good [] = Unit
Every Good (a ∷ xs) = Good a × Every Good xs

pub Every-++ :
    (Good : ℕ → Type 0) (xs ys : List ℕ) → Every Good xs → Every Good ys → Every Good (xs ++ ys)
Every-++ Good [] ys u v = v
Every-++ Good (a ∷ xs) ys (g, u) v = (g, Every-++ Good xs ys u v)

module _ (provider : Provider) (Good : ℕ → Type 0) (Keeps : Store → Store → Type 0) where
  open provider use {Data, remaining_bytes}

  -- A turn, and a whole loop.
  abbrev pub Turns : Option (Ran Data) → Data → Store → Type 0
  Turns result d s =
      (r : Ran Data) × (result ≡ some r)
      × (remaining_bytes r.left < remaining_bytes d)
      × Every Good r.accesses
      × Keeps s r.store

  abbrev pub Ends : Option (Ran Data) → Store → Type 0
  Ends result s =
      (r : Ran Data) × (result ≡ some r)
      × (remaining_bytes r.left ≡ 0)
      × Every Good r.accesses
      × Keeps s r.store

  module _ (keeps_refl : (s : Store) → Keeps s s)
      (keeps_trans : (s t u : Store) → Keeps s t → Keeps t u → Keeps s u)
      (turn : Data → Store → Option (Ran Data))
      (turns : (d : Data) (s : Store) → remaining_bytes d ≢ 0 → Turns (turn d s) d s) where
    loop_stops :
        (fuel : ℕ) (d : Data) (s : Store)
        → remaining_bytes d ≡ 0
        → consume_loop provider turn (suc fuel) d s
          ≡ some (record { accesses = []; left = d; store = s })
    unfolding consume_loop
    loop_stops fuel d s e = rw e refl

    loop_turns :
        (fuel : ℕ) (d : Data) (s : Store) (r r' : Ran Data)
        → remaining_bytes d ≢ 0
        → turn d s ≡ some r
        → consume_loop provider turn fuel r.left r.store ≡ some r'
        → consume_loop provider turn (suc fuel) d s ≡ some (after r.accesses r')
    unfolding consume_loop
    loop_turns fuel d s r r' ne e e' = rw (not_zero, e, e') refl
      where
        not_zero : (remaining_bytes d == 0) ≡ false
        not_zero = ground (arith, ne)

    pub consume_loop-Ends :
        (fuel : ℕ) (d : Data) (s : Store)
        → remaining_bytes d < fuel
        → Ends (consume_loop provider turn fuel d s) s
    consume_loop-Ends zero d s lt = absurd (omega arith)
    consume_loop-Ends (suc fuel) d s lt = elim (ℕ_discrete (remaining_bytes d) 0) [
      | yes e ↦ (
        record { accesses = []; left = d; store = s },
        loop_stops fuel d s e,
        e,
        tt,
        keeps_refl s,
      )
      | no ne ↦
          let (r, taken, less, good, kept) = turns d s ne in
          let (r', taken', none_left, good', kept') =
            consume_loop-Ends fuel r.left r.store (omega (arith, less, lt)) in
          (
            after r.accesses r',
            loop_turns fuel d s r r' ne taken taken',
            none_left,
            Every-++ Good r.accesses r'.accesses good good',
            keeps_trans s r.store r'.store kept kept',
          )
    ]
