-- ===== src/Queue/Write.antt =====
-- `write` appends to the contents of the queue, or changes nothing.
use platform_system_libfmq.Base.{
  ℕ, ◌+◌, ◌*◌, ◌≤◌, ◌<◌, ◌≡◌, ◌∙◌, ap, ap₂, ◌++◌, true, false, u64_mod, collect, collect_ext,
  collect-add, refl, arith,
}
use platform_system_libfmq.Store.{Store}
use platform_system_libfmq.Descriptor.{synchronized_read_write}
use platform_system_libfmq.Transaction.{empty_transaction}
use platform_system_libfmq.Queue.{MessageQueue, write}
use platform_system_libfmq.Queue.Invariant.{
  size, read_counter, write_counter, stored_bytes, free_bytes, IsConfigured, IsSynced, IsCallers,
  ring_byte, contents, array, IsFrame,
}
use platform_system_libfmq.Queue.Stream.{
  IsAdmitted, written_bytes, written_store, write_eq, byte_new, byte_kept, counters,
  written-IsAligned, written-IsFrame,
}
use platform_system_libfmq.Queue.Admit.{begin_write_admits, begin_write_refuses}

module _ {q : MessageQueue} (c : IsConfigured q) {s : Store} (v : IsSynced q s) (data_ n : ℕ) where
  -- A write that does not fit returns false and changes nothing.
  pub write_refused :
      q.flavor ≡ synchronized_read_write
      → free_bytes q s < n * q.sizeof_t
      → write q data_ n s ≡ (false, s)
  unfolding write
  write_refused sync h = rw (begin_write_refuses c v n empty_transaction sync h)

  module _ (callers : IsCallers q data_ (n * q.sizeof_t)) (fits : n * q.sizeof_t ≤ free_bytes q s)
      (no_wrap : write_counter q s + n * q.sizeof_t < u64_mod) where
    call : IsAdmitted q s data_ n
    call = record {
      aligned = v.aligned;
      begun = begin_write_admits c v n empty_transaction fits;
      room = omega arith;
      callers = callers;
      no_wrap = no_wrap;
    }

    abbrev s' : Store
    s' = written_store c call

    appended : contents q s' ≡ contents q s ++ array s.bytes data_ (n * q.sizeof_t)
    appended =
        ap₂ (collect stream) (counters c call).0 (omega (arith, counters c call, v.behind))
        ∙ collect-add stream (read_counter q s) (stored_bytes q s) (n * q.sizeof_t)
        ∙ ap₂ ◌++◌ (collect_ext _ _ (read_counter q s) (read_counter q s) (stored_bytes q s) old) (
            ap (λ p. collect stream p (n * q.sizeof_t)) (omega (arith, v.behind))
            ∙ collect_ext _ _ (write_counter q s) data_ (n * q.sizeof_t) (byte_new c call))
      where
        stream : ℕ → ℕ
        stream = ring_byte q (written_bytes c call)

        old :
            (i : ℕ)
            → i < stored_bytes q s
            → stream (read_counter q s + i) ≡ ring_byte q s.bytes (read_counter q s + i)
        old i lt = byte_kept c call _ (omega arith) (omega (arith, v.no_overrun))

    -- On a queue that is set up and whose counters are consistent, a write of an array apart from
    -- the ring that fits into the free space, and does not take the write counter past 2 ^ 64,
    -- returns true and appends the array to the contents. The write counter moves by the bytes
    -- written, the counters stay consistent, and the reader's counter, the memory outside of the
    -- ring and all other atomics stay as they are.
    pub write_appends :
        let (done, after) = write q data_ n s in
        (done ≡ true)
        × (contents q after ≡ contents q s ++ array s.bytes data_ (n * q.sizeof_t))
        × (write_counter q after ≡ write_counter q s + n * q.sizeof_t)
        × IsSynced q after
        × IsFrame s after q.ring (size q) q.write_ptr
    write_appends =
        rw (write_eq c call) (refl, appended, (counters c call).1, synced, written-IsFrame c call)
      where
        synced : IsSynced q s'
        synced = record {
          aligned = written-IsAligned c call;
          behind = omega (arith, counters c call, v.behind);
          no_overrun = omega (arith, counters c call, v.behind, v.no_overrun);
        }
