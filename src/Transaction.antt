-- ===== src/Transaction.antt =====
-- `MemRegion` and `MemTransaction` of include/fmq/MessageQueueBase.h: the one or two areas of the
-- ring buffer that a read or a write goes to. `sizeof_t` is `sizeof(T)`; a pointer to `T` moves by
-- that many addresses for each element.
pub mod Regions
pub mod Parts
pub mod Copy
pub mod Slots
use platform_system_libfmq.Base.{
  ℕ, ◌+◌, ◌-◌, ◌*◌, min, Bool, true, false, Option, none, some, ltb, ◌==◌, ◌!=◌, if◌then◌else◌,
  add64, mul64,
}
use platform_system_libfmq.Store.{Memory, nullptr, memcpy}

pub record MemRegion : Type 0 where
  pub address : ℕ
  pub length : ℕ

pub record MemTransaction : Type 0 where
  pub first : MemRegion
  pub second : MemRegion

abbrev pub empty_region : MemRegion
empty_region = record { address = nullptr; length = 0 }

abbrev pub empty_transaction : MemTransaction
empty_transaction = record { first = empty_region; second = empty_region }

-- The four results that `getMemRegionInfo` hands back by reference.
pub record RegionInfo : Type 0 where
  pub first_count : ℕ
  pub second_count : ℕ
  pub first_base : ℕ
  pub second_base : ℕ

module _ (sizeof_t : ℕ) where
  pub get_length_in_bytes : MemRegion → ℕ
  get_length_in_bytes r = mul64 r.length sizeof_t

  unfoldable pub get_slot : MemTransaction → ℕ → ℕ
  get_slot tx idx =
      if ltb (add64 tx.first.length tx.second.length) idx
      then nullptr
      else if ltb idx tx.first.length
      then tx.first.address + idx * sizeof_t
      else tx.second.address + idx * sizeof_t - tx.first.length * sizeof_t

  -- `none` is the result `false`. The base addresses are null before the call, as in both callers.
  pub get_mem_region_info : MemTransaction → ℕ → ℕ → Option RegionInfo
  get_mem_region_info tx start_idx n_messages =
      let first_length = tx.first.length in
      let first_count =
        if ltb start_idx first_length then min n_messages (first_length - start_idx) else 0 in
      let second_count = n_messages - first_count in
      let second_start = if ltb first_length start_idx then start_idx - first_length else 0 in
      if ltb (add64 first_length tx.second.length) (add64 start_idx n_messages)
      then none
      else some (record {
        first_count = first_count;
        second_count = second_count;
        first_base = if first_count != 0 then tx.first.address + start_idx * sizeof_t else nullptr;
        second_base =
            if second_count != 0 then tx.second.address + second_start * sizeof_t else nullptr;
      })

  -- Both copies hand back the new bytes.
  read_regions : RegionInfo → ℕ → Memory → Memory
  read_regions info data_ m =
      let bytes = mul64 info.first_count sizeof_t in
      let m' = if info.first_count != 0 then memcpy m data_ info.first_base bytes else m in
      if info.second_count != 0
      then memcpy m' (data_ + info.first_count * sizeof_t) info.second_base
          (mul64 info.second_count sizeof_t)
      else m'

  write_regions : RegionInfo → ℕ → Memory → Memory
  write_regions info data_ m =
      let bytes = mul64 info.first_count sizeof_t in
      let m' = if info.first_count != 0 then memcpy m info.first_base data_ bytes else m in
      if info.second_count != 0
      then memcpy m' info.second_base (data_ + info.first_count * sizeof_t)
          (mul64 info.second_count sizeof_t)
      else m'

  pub copy_from : MemTransaction → ℕ → ℕ → ℕ → Memory → Bool × Memory
  unfolding read_regions
  copy_from tx data_ start_idx n_messages m =
      if data_ == nullptr then (false, m) else elim (get_mem_region_info tx start_idx n_messages) [
        | none ↦ (false, m)
        | some info ↦ (true, read_regions info data_ m)
      ]

  pub copy_to : MemTransaction → ℕ → ℕ → ℕ → Memory → Bool × Memory
  unfolding write_regions
  copy_to tx data_ start_idx n_messages m =
      if data_ == nullptr then (false, m) else elim (get_mem_region_info tx start_idx n_messages) [
        | none ↦ (false, m)
        | some info ↦ (true, write_regions info data_ m)
      ]
