-- ===== src/Queue/Read.antt =====
-- `read` takes the oldest bytes of the contents, or changes nothing.
use native.Mathlib.Nat.{mul-mod_left, mod-lt}
use platform_system_libfmq.Base.{
  ℕ, ◌+◌, ◌-◌, ◌*◌, ◌%◌, ◌≤◌, ◌<◌, ◌≡◌, ◌∙◌, ap, ap₂, sym, ◌++◌, true, false, u64_mod, mul64-eq,
  add-mod-eq-zero, collect, collect_ext, collect-add, refl, arith,
}
use platform_system_libfmq.Store.{Store, Memory, store64}
use platform_system_libfmq.Transaction.{MemTransaction, copy_from}
use platform_system_libfmq.Transaction.Regions.{tx_byte}
use platform_system_libfmq.Transaction.Copy.{CopiedFrom, copy_from-CopiedFrom}
use platform_system_libfmq.Queue.{MessageQueue, ring_transaction, commit_read, read}
use platform_system_libfmq.Queue.Invariant.{
  size, read_counter, write_counter, stored_bytes, IsConfigured, IsSynced, IsCallers, ring_byte,
  contents, array, IsFrame,
}
use platform_system_libfmq.Queue.Regions.{
  total-ring_transaction, ring_transaction_byte, ring_transaction-IsApart,
}
use platform_system_libfmq.Queue.Admit.{begin_read_admits, begin_read_refuses}

module _ {q : MessageQueue} (c : IsConfigured q) {s : Store} (v : IsSynced q s) (data_ n : ℕ) where
  -- A read of more than is stored returns false and changes nothing, if its size in bytes is a
  -- `size_t`.
  pub read_refused :
      stored_bytes q s < n * q.sizeof_t → n * q.sizeof_t < u64_mod → read q data_ n s ≡ (false, s)
  unfolding read
  read_refused h fits = rw (begin_read_refuses c v n h fits)

  module _ (callers : IsCallers q data_ (n * q.sizeof_t))
      (enough : n * q.sizeof_t ≤ stored_bytes q s) where
    abbrev taken : ℕ
    taken = n * q.sizeof_t

    abbrev tx : MemTransaction
    tx = ring_transaction q (read_counter q s % size q) n

    room : taken ≤ size q
    room = omega (arith, v.no_overrun)

    copied :
        CopiedFrom q.sizeof_t tx data_ 0 n s.bytes
          (ring_transaction-IsApart c (read_counter q s) n v.read_aligned room data_ callers)
          (omega (arith, total-ring_transaction c (read_counter q s) n v.read_aligned room))
    copied = copy_from-CopiedFrom _ _ _ _ _ _ _ _

    abbrev bytes : Memory
    bytes = (copy_from q.sizeof_t tx data_ 0 n s.bytes).1

    abbrev s' : Store
    s' = store64 (record s { bytes = bytes }) q.read_ptr (read_counter q s + taken)

    read_eq : read q data_ n s ≡ (true, s')
    unfolding read commit_read
    read_eq = ground (
      arith,
      begin_read_admits c v n enough,
      copied.done,
      mul64-eq n q.sizeof_t,
      v.behind,
      v.no_overrun,
      v.write_fits,
      c.addressable,
    )

    counters :
        (read_counter q s' ≡ read_counter q s + taken) × (write_counter q s' ≡ write_counter q s)
    counters = (ground arith, ground (arith, c.counters))

    slot_address :
        (k : ℕ)
        → k < taken
        → tx_byte q.sizeof_t tx (0 * q.sizeof_t + k) ≡ q.ring + (read_counter q s + k) % size q
    slot_address k lt =
        ap (tx_byte q.sizeof_t tx) (omega arith)
        ∙ ring_transaction_byte c (read_counter q s) n v.read_aligned room k lt

    delivered : (k : ℕ) → k < taken → bytes (data_ + k) ≡ ring_byte q s.bytes (read_counter q s + k)
    delivered k lt = copied.inside k lt ∙ ap s.bytes (slot_address k lt)

    -- The array is apart from the ring, so the ring is left as it is.
    ring_kept : (p : ℕ) → ring_byte q bytes p ≡ ring_byte q s.bytes p
    ring_kept p = copied.outside _ (omega (arith, callers.apart, mod-lt p c.some_room))

    split : contents q s ≡ array bytes data_ taken ++ contents q s'
    split =
        ap (collect (ring_byte q s.bytes) (read_counter q s)) (omega arith)
        ∙ collect-add _ (read_counter q s) taken (stored_bytes q s - taken)
        ∙ ap₂ ◌++◌ (collect_ext _ _ (read_counter q s) data_ taken (λ i lt. sym (delivered i lt))) (
            collect_ext _ _ _ _ _ (λ i lt. sym (ring_kept _))
            ∙ ap₂ (collect (ring_byte q bytes)) (sym counters.0) (omega (arith, counters)))

    synced : IsSynced q s'
    synced = record {
      aligned = record {
        read_aligned =
            rw counters.0 (add-mod-eq-zero _ _ _ v.read_aligned (mul-mod_left n q.sizeof_t));
        write_aligned = rw counters.1 v.write_aligned;
        read_fits = omega (arith, counters, v.behind, v.write_fits);
        write_fits = rw counters.1 v.write_fits;
      };
      behind = omega (arith, counters, v.behind);
      no_overrun = omega (arith, counters, v.no_overrun);
    }

    -- On a queue that is set up and whose counters are consistent, a read of at most what is
    -- stored, into an array apart from the ring, returns true; the contents before the call are
    -- what the caller's array now holds, followed by the contents after it. The counters stay
    -- consistent, and the writer's counter, the memory outside of the array and all other atomics
    -- stay as they are.
    pub read_takes :
        let (done, after) = read q data_ n s in
        (done ≡ true)
        × (contents q s ≡ array after.bytes data_ (n * q.sizeof_t) ++ contents q after)
        × IsSynced q after
        × IsFrame s after data_ (n * q.sizeof_t) q.read_ptr
    read_takes = rw read_eq (
      refl,
      split,
      synced,
      record {
        bytes_kept = copied.outside;
        counters_kept = λ p ne. ground arith;
        words_kept = refl;
      },
    )
