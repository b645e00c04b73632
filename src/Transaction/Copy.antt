-- ===== src/Transaction/Copy.antt =====
-- `copyTo` and `copyFrom` move bytes between the caller's array and the slots of a transaction.
use platform_system_libfmq.Base.{
  ℕ, ◌+◌, ◌-◌, ◌*◌, ◌≤◌, ◌<◌, ◌≡◌, ◌≢◌, ◌⊎◌, true, false, u64_mod, mul64-eq, dec_lt, inl, inr,
  arith,
}
use platform_system_libfmq.Store.{Memory, nullptr, memcpy}
use platform_system_libfmq.Transaction.{
  MemTransaction, RegionInfo, read_regions, write_regions, copy_from, copy_to,
}
use platform_system_libfmq.Transaction.Regions.{total_length, tx_byte, info_none}
use platform_system_libfmq.Transaction.Parts.{IsApart, Parts, found}

module _ {sizeof_t : ℕ} {tx : MemTransaction} {data_ start bytes : ℕ} {info : RegionInfo}
    (p : Parts sizeof_t tx data_ start bytes info) (m : Memory) where
  open p use {first_bytes, second_bytes}

  -- The two guarded copies are two copies: one of no bytes changes nothing.
  read_regions_eq :
      (a : ℕ)
      → read_regions sizeof_t info data_ m a
        ≡ memcpy
            (memcpy m data_ info.first_base first_bytes)
            (data_ + first_bytes)
            info.second_base
            second_bytes
            a
  unfolding read_regions
  read_regions_eq a = ground (
    arith,
    mul64-eq info.first_count sizeof_t,
    mul64-eq info.second_count sizeof_t,
    p.first_eq,
    p.second_eq,
    p.sum,
    p.fits,
  )

  write_regions_eq :
      (a : ℕ)
      → write_regions sizeof_t info data_ m a
        ≡ memcpy
            (memcpy m info.first_base data_ first_bytes)
            info.second_base
            (data_ + first_bytes)
            second_bytes
            a
  unfolding write_regions
  write_regions_eq a = ground (
    arith,
    mul64-eq info.first_count sizeof_t,
    mul64-eq info.second_count sizeof_t,
    p.first_eq,
    p.second_eq,
    p.sum,
    p.fits,
  )

  write_regions_byte :
      (k : ℕ)
      → k < bytes
      → write_regions sizeof_t info data_ m (tx_byte sizeof_t tx (start + k)) ≡ m (data_ + k)
  write_regions_byte k lt = elim (dec_lt k first_bytes) [
    | yes low ↦ rw (p.in_first k low, write_regions_eq) (ground (arith, p.areas))
    | no high ↦ ground (
      arith,
      write_regions_eq (tx_byte sizeof_t tx (start + k)),
      p.in_second (k - first_bytes),
      p.sum,
      p.areas,
      p.from_first,
    )
  ]

  write_regions_other :
      (a : ℕ)
      → ((k : ℕ) → k < bytes → a ≢ tx_byte sizeof_t tx (start + k))
      → write_regions sizeof_t info data_ m a ≡ m a
  write_regions_other a out = ground (
    arith,
    write_regions_eq a,
    out (a - info.first_base),
    out (first_bytes + (a - info.second_base)),
    p.in_first (a - info.first_base),
    p.in_second (a - info.second_base),
    p.sum,
  )

  read_regions_byte :
      (k : ℕ)
      → k < bytes
      → read_regions sizeof_t info data_ m (data_ + k) ≡ m (tx_byte sizeof_t tx (start + k))
  read_regions_byte k lt = elim (dec_lt k first_bytes) [
    | yes low ↦ ground (arith, read_regions_eq (data_ + k), p.in_first k low, p.sum)
    | no high ↦
        ground
          (arith, read_regions_eq (data_ + k), p.in_second (k - first_bytes), p.sum, p.from_second)
  ]

  read_regions_other :
      (a : ℕ) → (a < data_) ⊎ (data_ + bytes ≤ a) → read_regions sizeof_t info data_ m a ≡ m a
  read_regions_other a out = ground (arith, read_regions_eq a, p.sum)

module _ (sizeof_t : ℕ) (tx : MemTransaction) (data_ st n : ℕ) (m : Memory) where
  module _ (apart : IsApart sizeof_t tx data_ (n * sizeof_t)) (hn : st + n ≤ total_length tx) where
    pub record CopiedTo : Type 0 where
      pub done : (copy_to sizeof_t tx data_ st n m).0 ≡ true
      pub inside :
          (k : ℕ)
          → k < n * sizeof_t
          → (copy_to sizeof_t tx data_ st n m).1 (tx_byte sizeof_t tx (st * sizeof_t + k))
            ≡ m (data_ + k)
      pub outside :
          (a : ℕ)
          → ((k : ℕ) → k < n * sizeof_t → a ≢ tx_byte sizeof_t tx (st * sizeof_t + k))
          → (copy_to sizeof_t tx data_ st n m).1 a ≡ m a

    pub copy_to-CopiedTo : CopiedTo
    unfolding copy_to
    copy_to-CopiedTo =
        let (info, e, p) = found sizeof_t tx data_ st n apart hn in
        record {
          done = ground (arith, e, apart.given);
          inside = λ k lt. ground (arith, e, apart.given, write_regions_byte p m k lt);
          outside = λ a out. ground (arith, e, apart.given, write_regions_other p m a out);
        }

    pub record CopiedFrom : Type 0 where
      pub done : (copy_from sizeof_t tx data_ st n m).0 ≡ true
      pub inside :
          (k : ℕ)
          → k < n * sizeof_t
          → (copy_from sizeof_t tx data_ st n m).1 (data_ + k)
            ≡ m (tx_byte sizeof_t tx (st * sizeof_t + k))
      pub outside :
          (a : ℕ)
          → (a < data_) ⊎ (data_ + n * sizeof_t ≤ a)
          → (copy_from sizeof_t tx data_ st n m).1 a ≡ m a

    pub copy_from-CopiedFrom : CopiedFrom
    unfolding copy_from
    copy_from-CopiedFrom =
        let (info, e, p) = found sizeof_t tx data_ st n apart hn in
        record {
          done = ground (arith, e, apart.given);
          inside = λ k lt. ground (arith, e, apart.given, read_regions_byte p m k lt);
          outside = λ a out. ground (arith, e, apart.given, read_regions_other p m a out);
        }

  -- Both copies refuse a null array, and a range of slots that the transaction does not have, and
  -- then change nothing.
  pub copy_refused :
      (data_ ≡ nullptr) ⊎ ((total_length tx < st + n) × (st + n < u64_mod))
      → (copy_to sizeof_t tx data_ st n m ≡ (false, m))
        × (copy_from sizeof_t tx data_ st n m ≡ (false, m))
  unfolding copy_to copy_from
  copy_refused (inl null) = (rw null, rw null)
  copy_refused (inr (over, fits)) = (
    ground (arith, info_none sizeof_t tx st n over fits),
    ground (arith, info_none sizeof_t tx st n over fits),
  )
