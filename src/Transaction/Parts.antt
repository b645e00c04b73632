-- ===== src/Transaction/Parts.antt =====
-- The two areas that `getMemRegionInfo` finds for `n` elements from slot `st` on, in bytes: what the
-- proofs about `copyTo` and `copyFrom` need of it.
use platform_system_libfmq.Base.{
  ℕ, ◌+◌, ◌-◌, ◌*◌, ◌≤◌, ◌<◌, ◌≡◌, ◌≢◌, ◌⊎◌, some, u64_mod, sub-mul, mul-le-mul_right, dec_le,
  arith,
}
use platform_system_libfmq.Store.{nullptr}
use platform_system_libfmq.Transaction.{MemTransaction, RegionInfo, get_mem_region_info}
use platform_system_libfmq.Transaction.Regions.{
  total_length, tx_byte, info_first, info_second, info_both,
}

-- Two areas of memory share no address.
abbrev pub Disjoint : ℕ → ℕ → ℕ → ℕ → Type 0
Disjoint a n b m = (a + n ≤ b) ⊎ (b + m ≤ a)

-- A transaction over two separate areas, and a caller's array of `bytes` bytes apart from both.
pub record IsApart (sizeof_t : ℕ) (tx : MemTransaction) (data_ bytes : ℕ) : Type 0 where
  pub given : data_ ≢ nullptr
  pub fits : tx.first.length * sizeof_t + tx.second.length * sizeof_t < u64_mod
  pub count_fits : total_length tx < u64_mod
  pub regions :
      Disjoint tx.first.address
        (tx.first.length * sizeof_t)
        tx.second.address
        (tx.second.length * sizeof_t)
  pub from_first : Disjoint data_ bytes tx.first.address (tx.first.length * sizeof_t)
  pub from_second : Disjoint data_ bytes tx.second.address (tx.second.length * sizeof_t)

-- The areas `info`, for `bytes` bytes from byte `start` of the transaction.
pub record Parts (sizeof_t : ℕ) (tx : MemTransaction) (data_ start bytes : ℕ) (info : RegionInfo)
    : Type 0 where
  pub first_bytes : ℕ
  pub second_bytes : ℕ
  pub first_eq : info.first_count * sizeof_t ≡ first_bytes
  pub second_eq : info.second_count * sizeof_t ≡ second_bytes
  pub sum : first_bytes + second_bytes ≡ bytes
  pub fits : bytes < u64_mod
  pub in_first : (k : ℕ) → k < first_bytes → tx_byte sizeof_t tx (start + k) ≡ info.first_base + k
  pub in_second :
      (k : ℕ)
      → k < second_bytes
      → tx_byte sizeof_t tx (start + (first_bytes + k)) ≡ info.second_base + k
  pub areas : Disjoint info.first_base first_bytes info.second_base second_bytes
  pub from_first : Disjoint data_ bytes info.first_base first_bytes
  pub from_second : Disjoint data_ bytes info.second_base second_bytes

module _ (sizeof_t : ℕ) (tx : MemTransaction) (data_ st n : ℕ)
    (apart : IsApart sizeof_t tx data_ (n * sizeof_t)) (hn : st + n ≤ total_length tx) where
  abbrev Found : Type 0
  Found =
      (info : RegionInfo) × (get_mem_region_info sizeof_t tx st n ≡ some info)
      × Parts sizeof_t tx data_ (st * sizeof_t) (n * sizeof_t) info

  abbrev first_size : ℕ
  first_size = tx.first.length * sizeof_t

  abbrev second_size : ℕ
  second_size = tx.second.length * sizeof_t

  within_total : st * sizeof_t + n * sizeof_t ≤ first_size + second_size
  within_total = omega (arith, mul-le-mul_right {m = st + n} {n = total_length tx} sizeof_t hn)

  found_first : st + n ≤ tx.first.length → Found
  found_first below = (
    _,
    info_first sizeof_t tx st n apart.count_fits below,
    record {
      first_bytes = n * sizeof_t;
      second_bytes = 0;
      first_eq = ground (arith, bounds);
      second_eq = ground (arith, bounds);
      sum = ground (arith, bounds);
      fits = ground (arith, bounds);
      in_first = λ k lt. ground (arith, bounds);
      in_second = λ k lt. ground (arith, bounds);
      areas = ground (arith, bounds);
      from_first = ground (arith, bounds);
      from_second = ground (arith, bounds);
    },
  )
    where
      bounds : st * sizeof_t + n * sizeof_t ≤ first_size
      bounds = omega (arith, mul-le-mul_right {m = st + n} {n = tx.first.length} sizeof_t below)

  found_second : tx.first.length ≤ st → Found
  found_second above = (
    _,
    info_second sizeof_t tx st n apart.count_fits above hn,
    record {
      first_bytes = 0;
      second_bytes = n * sizeof_t;
      first_eq = ground (arith, bounds);
      second_eq = ground (arith, bounds);
      sum = ground (arith, bounds);
      fits = ground (arith, bounds);
      in_first = λ k lt. ground (arith, bounds);
      in_second = λ k lt. ground (arith, bounds);
      areas = ground (arith, bounds);
      from_first = ground (arith, bounds);
      from_second = ground (arith, bounds);
    },
  )
    where
      bounds :
          ((st - tx.first.length) * sizeof_t + first_size ≡ st * sizeof_t)
          × (st * sizeof_t + n * sizeof_t ≤ first_size + second_size)
      bounds = (
        omega (
          arith,
          sub-mul st tx.first.length sizeof_t,
          mul-le-mul_right {m = tx.first.length} {n = st} sizeof_t above,
        ),
        within_total,
      )

  found_both : st < tx.first.length → tx.first.length < st + n → Found
  found_both inside over = (
    _,
    info_both sizeof_t tx st n apart.count_fits inside over hn,
    record {
      first_bytes = (tx.first.length - st) * sizeof_t;
      second_bytes = (st + n - tx.first.length) * sizeof_t;
      first_eq = ground (arith, bounds);
      second_eq = ground (arith, bounds);
      sum = ground (arith, bounds);
      fits = ground (arith, bounds);
      in_first = λ k lt. ground (arith, bounds);
      in_second = λ k lt. ground (arith, bounds);
      areas = ground (arith, bounds);
      from_first = ground (arith, bounds);
      from_second = ground (arith, bounds);
    },
  )
    where
      bounds :
          ((tx.first.length - st) * sizeof_t + st * sizeof_t ≡ first_size)
          × ((st + n - tx.first.length) * sizeof_t + first_size ≡ st * sizeof_t + n * sizeof_t)
          × (st * sizeof_t + n * sizeof_t ≤ first_size + second_size)
      bounds = (
        omega (
          arith,
          sub-mul tx.first.length st sizeof_t,
          mul-le-mul_right {m = st} {n = tx.first.length} sizeof_t (omega arith),
        ),
        omega (
          arith,
          sub-mul (st + n) tx.first.length sizeof_t,
          mul-le-mul_right {m = tx.first.length} {n = st + n} sizeof_t (omega arith),
        ),
        within_total,
      )

  pub found : Found
  found = elim (dec_le (st + n) tx.first.length) [
    | yes below ↦ found_first below
    | no over ↦ elim (dec_le tx.first.length st) [
      | yes above ↦ found_second above
      | no inside ↦ found_both (omega arith) (omega arith)
    ]
  ]
