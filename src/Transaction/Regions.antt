-- ===== src/Transaction/Regions.antt =====
-- What `getMemRegionInfo` computes, and the bytes that a transaction names.
use platform_system_libfmq.Base.{
  ℕ, ◌+◌, ◌-◌, ◌*◌, ◌≤◌, ◌<◌, ◌≡◌, some, none, ltb, ◌!=◌, if◌then◌else◌, u64_mod, dec_lt,
  mul-le-mul_right, element_byte_lt, arith,
}
use platform_system_libfmq.Store.{nullptr}
use platform_system_libfmq.Transaction.{MemTransaction, get_slot, get_mem_region_info}

-- The number of elements that a transaction holds.
abbrev pub total_length : MemTransaction → ℕ
total_length tx = tx.first.length + tx.second.length

module _ (sizeof_t : ℕ) where
  -- The address of byte `k` of a transaction, its two regions one after the other.
  abbrev pub tx_byte : MemTransaction → ℕ → ℕ
  tx_byte tx k =
      if ltb k (tx.first.length * sizeof_t)
      then tx.first.address + k
      else tx.second.address + (k - tx.first.length * sizeof_t)

  pub get_slot-eq-tx_byte :
      (tx : MemTransaction) (i b : ℕ)
      → total_length tx < u64_mod
      → i < total_length tx
      → b < sizeof_t
      → get_slot sizeof_t tx i + b ≡ tx_byte tx (i * sizeof_t + b)
  unfolding get_slot
  get_slot-eq-tx_byte tx i b fits hi hb = elim (dec_lt i tx.first.length) [
    | yes lt ↦ ground (arith, element_byte_lt i tx.first.length b sizeof_t lt hb)
    | no ge ↦ ground (arith, mul-le-mul_right {m = tx.first.length} {n = i} sizeof_t (omega arith))
  ]

  pub info_first :
      (tx : MemTransaction) (st n : ℕ)
      → total_length tx < u64_mod
      → st + n ≤ tx.first.length
      → get_mem_region_info sizeof_t tx st n
        ≡ some (record {
          first_count = n;
          second_count = 0;
          first_base = if n != 0 then tx.first.address + st * sizeof_t else nullptr;
          second_base = nullptr;
        })
  unfolding get_mem_region_info
  info_first tx st n fits h = ground arith

  pub info_second :
      (tx : MemTransaction) (st n : ℕ)
      → total_length tx < u64_mod
      → tx.first.length ≤ st
      → st + n ≤ total_length tx
      → get_mem_region_info sizeof_t tx st n
        ≡ some (record {
          first_count = 0;
          second_count = n;
          first_base = nullptr;
          second_base =
              if n != 0 then tx.second.address + (st - tx.first.length) * sizeof_t else nullptr;
        })
  unfolding get_mem_region_info
  info_second tx st n fits lo hi = ground arith

  pub info_both :
      (tx : MemTransaction) (st n : ℕ)
      → total_length tx < u64_mod
      → st < tx.first.length
      → tx.first.length < st + n
      → st + n ≤ total_length tx
      → get_mem_region_info sizeof_t tx st n
        ≡ some (record {
          first_count = tx.first.length - st;
          second_count = st + n - tx.first.length;
          first_base = tx.first.address + st * sizeof_t;
          second_base = tx.second.address;
        })
  unfolding get_mem_region_info
  info_both tx st n fits lo mid hi = ground arith

  pub info_none :
      (tx : MemTransaction) (st n : ℕ)
      → total_length tx < st + n
      → st + n < u64_mod
      → get_mem_region_info sizeof_t tx st n ≡ none
  unfolding get_mem_region_info
  info_none tx st n lt fits = ground arith
