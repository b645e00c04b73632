-- ===== src/Tests/Unsync.antt =====
-- The theorems about unsynchronized queues at concrete inputs.
use platform_system_libfmq.Base.{
  ℕ, ◌+◌, ◌*◌, ◌≤◌, ◌<◌, ◌≡◌, inr, refl, [], ◌++◌, true, false, collect, arith,
}
use platform_system_libfmq.Store.{Store, store64}
use platform_system_libfmq.Descriptor.{unsynchronized_write, get_size}
use platform_system_libfmq.Queue.{MessageQueue, commit_read, write, read}
use platform_system_libfmq.Queue.Invariant.{
  size, write_counter, IsAligned, IsSynced, IsCallers, ring_byte, contents, array,
}
use platform_system_libfmq.Queue.Overwrite.{
  write_call, write_overwrites, read_overrun, none_yet, one_more, commit_read_sound,
}
use platform_system_libfmq.Queue.Stream.{IsAdmitted, written_store}
use platform_system_libfmq.Tests.Rings.{ring_of, at_counters, ring_of-IsConfigured}

unsync-IsCallers : (n : ℕ) → n ≤ 6 → IsCallers (ring_of unsynchronized_write) 1000 n
unfolding get_size
unsync-IsCallers n h = record { given = omega arith; apart = inr (omega arith) }

abbrev unsync_ring : MessageQueue
unsync_ring = ring_of unsynchronized_write

unsync-IsAligned :
    (rd wr : ℕ) → rd < 2 → wr < 2 → IsAligned unsync_ring (at_counters (2 * rd) (6 + 2 * wr))
unsync-IsAligned rd wr hr hw = omega arith

write_overwrites_example :
    let s = at_counters (2 * 0) (6 + 2 * 0) in
    let (done, after) = write unsync_ring 1000 2 s in
    (done ≡ true)
    × (write_counter unsync_ring after ≡ 10)
    × ((p m : ℕ)
        → p + m ≡ 6
        → m + 4 ≤ size unsync_ring
        → collect (ring_byte unsync_ring after.bytes) p (m + 4)
          ≡ collect (ring_byte unsync_ring s.bytes) p m ++ array s.bytes 1000 4)
unfolding get_size
write_overwrites_example =
    write_overwrites (ring_of-IsConfigured unsynchronized_write)
      (unsync-IsAligned 0 0 (omega arith) (omega arith)) 1000 2 refl (omega arith)
      (unsync-IsCallers 4 (omega arith)) (omega arith)

read_overrun_example :
    let s = at_counters (2 * 0) (6 + 2 * 1) in
    let (done, after) = read unsync_ring 1000 1 s in
    (done ≡ false)
    × (after ≡ store64 s 10 8)
    × IsSynced unsync_ring after
    × (contents unsync_ring after ≡ [])
unfolding get_size
read_overrun_example =
    read_overrun (ring_of-IsConfigured unsynchronized_write)
      (unsync-IsAligned 0 1 (omega arith) (omega arith)) 1000 1 (omega arith)

-- The reader has begun to read when one more element is written: six bytes are unread, so that it
-- is not lapped.
abbrev two_stored : Store
two_stored = at_counters 2 6

two_stored-IsSynced : IsSynced unsync_ring two_stored
unfolding get_size
two_stored-IsSynced = omega arith

one_write : IsAdmitted unsync_ring two_stored 1000 1
unfolding get_size
one_write =
    write_call (ring_of-IsConfigured unsynchronized_write) two_stored-IsSynced.aligned 1000 1 refl
      (omega arith) (unsync-IsCallers 2 (omega arith)) (omega arith)

abbrev after_write : Store
after_write = written_store (ring_of-IsConfigured unsynchronized_write) one_write

commit_read_sound_example :
    ((commit_read unsync_ring after_write 2).0 ≡ true
      → (p : ℕ) → 2 ≤ p
      → p < 6
      → ring_byte unsync_ring after_write.bytes p ≡ ring_byte unsync_ring two_stored.bytes p)
    × ((commit_read unsync_ring after_write 2).0 ≡ false
        → (2 + size unsync_ring < write_counter unsync_ring after_write)
          × ((commit_read unsync_ring after_write 2).1
              ≡ store64 after_write 10 (write_counter unsync_ring after_write)))
commit_read_sound_example =
    commit_read_sound (ring_of-IsConfigured unsynchronized_write) 2 two_stored-IsSynced
      (one_more none_yet one_write)
