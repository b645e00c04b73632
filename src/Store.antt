-- ===== src/Store.antt =====
-- The memory that the queue objects work on. An address is a number, and `nullptr` is 0. Plain
-- bytes, the 64-bit atomics (the read and write counters) and the 32-bit atomics (EventFlag words)
-- are three arrays over the addresses, so an access through one type does not alias another.
-- An address stands for a location of the shared region: two mappings of one location are one
-- address.
pub mod Copy
use platform_system_libfmq.Base.{
  ℕ, ◌+◌, ◌-◌, Bool, true, false, ◌&&◌, ltb, leb, ◌==◌, if◌then◌else◌,
}

abbrev pub nullptr : ℕ
nullptr = 0

abbrev pub Memory : Type 0
Memory = ℕ → ℕ

pub record Store : Type 0 where
  pub bytes : Memory
  pub u64 : Memory
  pub u32 : Memory

-- An array with one cell changed.
abbrev pub update : Memory → ℕ → ℕ → Memory
update f p v q = if p == q then v else f q

-- `std::atomic<uint64_t>::store` and the store of a 32-bit atomic. A load is a look-up.
abbrev pub store64 : Store → ℕ → ℕ → Store
store64 s p v = record s { u64 = update s.u64 p v }

abbrev pub store32 : Store → ℕ → ℕ → Store
store32 s p v = record s { u32 = update s.u32 p v }

-- Whether `a` is one of the `n` addresses from `p` on.
abbrev pub within : ℕ → ℕ → ℕ → Bool
within p n a = leb p a && ltb a (p + n)

-- C's `memcpy(dst, src, n)`, of areas that do not overlap.
abbrev pub memcpy : Memory → ℕ → ℕ → ℕ → Memory
memcpy m dst src n a = if within dst n a then m (src + (a - dst)) else m a
