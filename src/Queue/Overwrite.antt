-- ===== src/Queue/Overwrite.antt =====
-- The unsynchronized flavor: a write always succeeds, over unread bytes where the ring is full; a
-- reader that was overrun finds out.
use platform_system_libfmq.Base.{
  ℕ, ◌+◌, ◌*◌, ◌%◌, ◌≤◌, ◌<◌, ◌≡◌, ◌∙◌, ap, ap₂, ◌++◌, [], true, false, u64_mod, collect,
  collect_ext, collect-add, collect-eq-nil, refl, arith,
}
use platform_system_libfmq.Store.{Store, store64}
use platform_system_libfmq.Descriptor.{unsynchronized_write}
use platform_system_libfmq.Transaction.{empty_transaction}
use platform_system_libfmq.Queue.{
  MessageQueue, ring_transaction, begin_write, write, begin_read, commit_read, read,
}
use platform_system_libfmq.Queue.Invariant.{
  size, read_counter, write_counter, IsConfigured, IsAligned, IsSynced, IsCallers, ring_byte,
  contents, array,
}
use platform_system_libfmq.Queue.Admit.{le-div_element, quantum_count}
use platform_system_libfmq.Queue.Stream.{
  IsAdmitted, written_bytes, written_store, write_eq, byte_new, byte_kept, counters,
}

module _ {q : MessageQueue} (c : IsConfigured q) where
  module _ {s : Store} (v : IsAligned q s) (data_ n : ℕ) (flavor : q.flavor ≡ unsynchronized_write)
      (room : n * q.sizeof_t ≤ size q) (callers : IsCallers q data_ (n * q.sizeof_t))
      (no_wrap : write_counter q s + n * q.sizeof_t < u64_mod) where
    begun :
        begin_write q s n empty_transaction
        ≡ (true, ring_transaction q (write_counter q s % size q) n)
    unfolding begin_write
    begun = ground (arith, flavor, quantum_count c, le-div_element c n (size q), v.write_aligned)

    pub write_call : IsAdmitted q s data_ n
    write_call = record {
      aligned = v;
      begun = begun;
      room = room;
      callers = callers;
      no_wrap = no_wrap;
    }

    -- On an unsynchronized queue that is set up, with both counters multiples of the element size:
    -- whatever the reader has read, a write of at most the ring returns true, and each run of the
    -- stream up to the write counter that still fits in the ring with the new bytes is kept and
    -- extended by the caller's array. The array is apart from the ring, and the write counter does not
    -- wrap.
    pub write_overwrites :
        let (done, after) = write q data_ n s in
        (done ≡ true)
        × (write_counter q after ≡ write_counter q s + n * q.sizeof_t)
        × ((p m : ℕ)
            → p + m ≡ write_counter q s
            → m + n * q.sizeof_t ≤ size q
            → collect (ring_byte q after.bytes) p (m + n * q.sizeof_t)
              ≡ collect (ring_byte q s.bytes) p m ++ array s.bytes data_ (n * q.sizeof_t))
    write_overwrites = rw (write_eq c write_call) (refl, (counters c write_call).1, kept)
      where
        stream : ℕ → ℕ
        stream = ring_byte q (written_bytes c write_call)

        kept :
            (p m : ℕ)
            → p + m ≡ write_counter q s
            → m + n * q.sizeof_t ≤ size q
            → collect stream p (m + n * q.sizeof_t)
              ≡ collect (ring_byte q s.bytes) p m ++ array s.bytes data_ (n * q.sizeof_t)
        kept p m end near =
            collect-add stream p m (n * q.sizeof_t)
            ∙ ap₂ ◌++◌
                (collect_ext _ _ p p m
                  (λ i lt. byte_kept c write_call _ (omega arith) (omega arith)))
                (ap (λ e. collect stream e (n * q.sizeof_t)) end
                  ∙ collect_ext _ _ (write_counter q s) data_ (n * q.sizeof_t)
                      (byte_new c write_call))

  module _ {s : Store} (v : IsAligned q s) (data_ n : ℕ)
      (overrun : read_counter q s + size q < write_counter q s) where
    abbrev resynced : Store
    resynced = store64 s q.read_ptr (write_counter q s)

    begin_read_overrun : begin_read q s n ≡ (false, empty_transaction, resynced)
    unfolding begin_read
    begin_read_overrun = ground (arith, v.read_aligned, v.write_aligned, v.write_fits)

    moved :
        (read_counter q resynced ≡ write_counter q s)
        × (write_counter q resynced ≡ write_counter q s)
    moved = (ground arith, ground (arith, c.counters))

    -- On a queue that is set up, with counters that are whole elements and a write counter that has
    -- not wrapped, a reader with more unread bytes than the ring holds gets false; its counter is
    -- set to the writer's and nothing else changes, so that it holds nothing and can read on.
    pub read_overrun :
        let (done, after) = read q data_ n s in
        (done ≡ false)
        × (after ≡ store64 s q.read_ptr (write_counter q s))
        × IsSynced q after
        × (contents q after ≡ [])
    unfolding read
    read_overrun = rw begin_read_overrun (refl, refl, synced, drained)
      where
        synced : IsSynced q resynced
        synced = record {
          aligned = record {
            read_aligned = rw moved.0 v.write_aligned;
            write_aligned = rw moved.1 v.write_aligned;
            read_fits = rw moved.0 v.write_fits;
            write_fits = rw moved.1 v.write_fits;
          };
          behind = omega (arith, moved);
          no_overrun = omega (arith, moved);
        }

        drained : contents q resynced ≡ []
        drained = collect-eq-nil _ _ _ (omega (arith, moved))

  -- Any number of admitted writes, by the writer of the queue.
  pub data Writes (s : Store) : Store → Type 0 where
    none_yet : Writes s s
    one_more :
        {t : Store} {data_ n : ℕ}
        → Writes s t
        → (call : IsAdmitted q t data_ n) → Writes s (written_store c call)

  Writes-counters :
      {s t : Store}
      → IsAligned q s
      → Writes s t
      → (read_counter q t ≡ read_counter q s)
        × (write_counter q s ≤ write_counter q t)
        × (write_counter q t < u64_mod)
  Writes-counters v none_yet = omega (arith, v.write_fits)
  Writes-counters v (one_more w call) =
      omega (arith, Writes-counters v w, counters c call, call.no_wrap)

  -- While the writer has not lapped the reader, what the reader has not read is as it was.
  Writes-kept :
      {s t : Store}
      → IsAligned q s
      → Writes s t
      → write_counter q t ≤ read_counter q s + size q
      → (p : ℕ) → read_counter q s ≤ p
      → p < write_counter q s
      → ring_byte q t.bytes p ≡ ring_byte q s.bytes p
  Writes-kept v none_yet near p lo hi = refl
  Writes-kept v (one_more w call) near p lo hi =
      byte_kept c call p (omega (arith, Writes-counters v w)) (omega (arith, counters c call))
      ∙ Writes-kept v w (omega (arith, counters c call)) p lo hi

  -- Zero-copy reads, on a queue that is set up and has consistent counters at `beginRead`: let any
  -- writes follow, each of them granted, from an array apart from the ring, and without the write
  -- counter passing 2 ^ 64. If `commitRead` then succeeds, the bytes that were there at `beginRead`
  -- still stand in the ring at the commit. If it fails, the writer has lapped the reader, which is
  -- then resynchronised.
  pub commit_read_sound :
      {s t : Store} (n : ℕ)
      → IsSynced q s
      → Writes s t
      → ((commit_read q t n).0 ≡ true
          → (p : ℕ) → read_counter q s ≤ p
          → p < write_counter q s
          → ring_byte q t.bytes p ≡ ring_byte q s.bytes p)
        × ((commit_read q t n).0 ≡ false
            → (read_counter q s + size q < write_counter q t)
              × ((commit_read q t n).1 ≡ store64 t q.read_ptr (write_counter q t)))
  unfolding commit_read
  commit_read_sound {s} {t} n v w = (
    λ done. Writes-kept v.aligned w (ground (arith, moved, v.behind)),
    λ refused. (ground (arith, moved, v.behind), ground (arith, moved, v.behind)),
  )
    where
      moved :
          (read_counter q t ≡ read_counter q s)
          × (write_counter q s ≤ write_counter q t)
          × (write_counter q t < u64_mod)
      moved = Writes-counters v.aligned w
