-- ===== src/Store/Copy.antt =====
-- What `memcpy` writes and what it leaves alone.
use platform_system_libfmq.Base.{ℕ, ◌+◌, ◌≤◌, ◌<◌, ◌≡◌, ◌⊎◌, arith}
use platform_system_libfmq.Store.{Memory, memcpy}

pub memcpy_in : (m : Memory) (dst src n i : ℕ) → i < n → memcpy m dst src n (dst + i) ≡ m (src + i)
memcpy_in m dst src n i h = ground arith

pub memcpy_out :
    (m : Memory) (dst src n a : ℕ) → (a < dst) ⊎ (dst + n ≤ a) → memcpy m dst src n a ≡ m a
memcpy_out m dst src n a h = ground arith
