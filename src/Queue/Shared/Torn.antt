-- ===== src/Queue/Shared/Torn.antt =====
-- The unsynchronized flavor with a writer in the middle of a write.
use platform_system_libfmq.Base.{ℕ, ◌%◌, ◌≡◌, [], ◌∷◌, ◌++◌, if◌then◌else◌, some}
use platform_system_libfmq.Store.{Store, update}
use platform_system_libfmq.Descriptor.{unsynchronized_write}
use platform_system_libfmq.Queue.{MessageQueue, ring_transaction, commit_read}
use platform_system_libfmq.Queue.Invariant.{
  size, read_counter, write_counter, stored_bytes, IsConfigured, IsSynced,
}
use platform_system_libfmq.Queue.Shared.{Held, Shared, at_rest, add_byte, next_byte}

module _ {q : MessageQueue} (c : IsConfigured q) (flavor : q.flavor ≡ unsynchronized_write)
    (one_byte : q.sizeof_t ≡ 1) {s : Store} (v : IsSynced q s) (full : stored_bytes q s ≡ size q)
    (b : ℕ) where
  abbrev r : ℕ
  r = read_counter q s

  abbrev w : ℕ
  w = write_counter q s

  abbrev w_side : Held
  w_side = record { n = 1; tx = ring_transaction q (w % size q) 1; moved = [] }

  abbrev r_side : Held
  r_side = record { n = 1; tx = ring_transaction q (r % size q) 1; moved = [] }

  abbrev dirty : Store
  dirty = record s { bytes = update s.bytes (next_byte q w_side) b }

  -- The reader has taken a byte that the writer has put and not committed.
  abbrev last : Shared
  last = record (at_rest q s) {
    store = (commit_read q dirty 1).1;
    writer = some (add_byte w_side b);
    received =
        if (commit_read q dirty 1).0 then [] ++ (dirty.bytes (next_byte q r_side) ∷ []) else [];
  }
