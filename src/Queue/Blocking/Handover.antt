-- ===== src/Queue/Blocking/Handover.antt =====
-- A reader sleeps, and a writer's `writeBlocking` serves it.
use platform_system_libfmq.Base.{
  ℕ, suc, ◌+◌, ◌*◌, ◌≤◌, ◌<◌, ◌≡◌, ◌≢◌, refl, ◌∙◌, ap, sym, true, ◌++◌, Option, none, some, bit,
  bit_and, bit-zero, bit-le, bit_and-le_left, pos, u64_mod, arith,
}
use platform_system_libfmq.Store.{Store, store32}
use platform_system_libfmq.EventFlag.{Os, EventFlag, not32, wake}
use platform_system_libfmq.EventFlag.Wake.{u32_mod, wake_lem, bit_and-ne-zero}
use platform_system_libfmq.Queue.{MessageQueue, write}
use platform_system_libfmq.Queue.Invariant.{
  size, write_counter, stored_bytes, free_bytes, IsConfigured, IsSynced, IsCallers, contents, array,
  IsFrame,
}
use platform_system_libfmq.Queue.Write.{write_appends}
use platform_system_libfmq.Queue.Blocking.{chosen_flag, notify, read_blocking}
use platform_system_libfmq.Queue.Blocking.Notify.{
  notify_keeps, contents-notify, same_counters-IsSynced,
}
use platform_system_libfmq.Queue.Blocking.Woken.{woken_reader_ends}

-- The flag word after a notification.
notify_word :
    (os : Os) (word notification : ℕ) (s : Store) (w : os.World)
    → notification ≢ 0
    → (notify os word notification s w).0 ≡ (wake os word notification s w).1
unfolding notify
notify_word os word notification s w ne = ground (arith, ne)

-- The store that a `write` and its notification leave.
abbrev pub served_store :
    (os : Os) (q : MessageQueue) (flag : EventFlag) (notification : ℕ) (s : Store) (wdata k : ℕ)
    (w : os.World)
    → Store
served_store os q flag notification s wdata k w =
    (notify os flag.ef_word_ptr notification (write q wdata k s).1 w).0

module _ (os : Os) {q : MessageQueue} (c : IsConfigured q) (flag : EventFlag)
    (notification awaited i : ℕ) (in_word : i < 32) (notified : bit notification i ≡ 1)
    (bit_set : bit awaited i ≡ 1) (s : Store) (synced : IsSynced q s) (wdata k : ℕ) (w : os.World)
    (wcallers : IsCallers q wdata (k * q.sizeof_t)) (room : k * q.sizeof_t ≤ free_bytes q s)
    (no_wrap : write_counter q s + k * q.sizeof_t < u64_mod) where
  abbrev served : Store
  served = served_store os q flag notification s wdata k w

  written :
      ((write q wdata k s).0 ≡ true)
      × (contents q (write q wdata k s).1 ≡ contents q s ++ array s.bytes wdata (k * q.sizeof_t))
      × (write_counter q (write q wdata k s).1 ≡ write_counter q s + k * q.sizeof_t)
      × IsSynced q (write q wdata k s).1
      × IsFrame s (write q wdata k s).1 q.ring (size q) q.write_ptr
  written = write_appends c synced wdata k wcallers room no_wrap

  kept : (served.bytes ≡ (write q wdata k s).1.bytes) × (served.u64 ≡ (write q wdata k s).1.u64)
  kept = notify_keeps os flag.ef_word_ptr notification (write q wdata k s).1 w

  served-IsSynced : IsSynced q served
  served-IsSynced = same_counters-IsSynced q served (write q wdata k s).1 kept.1 written.3

  stored-served : stored_bytes q served ≡ stored_bytes q s + k * q.sizeof_t
  stored-served = omega (
    arith,
    ap (λ (f : ℕ → ℕ). f q.write_ptr) kept.1,
    ap (λ (f : ℕ → ℕ). f q.read_ptr) kept.1,
    written.2,
    written.4.counters_kept q.read_ptr c.counters,
    synced.behind,
  )

  contents-served : contents q served ≡ contents q s ++ array s.bytes wdata (k * q.sizeof_t)
  contents-served =
      contents-notify os flag.ef_word_ptr notification (write q wdata k s).1 w q ∙ written.1

  asked : notification ≢ 0
  asked e = omega (arith, ap (λ x. bit x i) e, bit-zero i, notified)

  served_flag : s.u32 flag.ef_word_ptr < u32_mod → bit_and (served.u32 flag.ef_word_ptr) awaited ≢ 0
  served_flag fits =
      bit_and-ne-zero (served.u32 flag.ef_word_ptr) awaited (i, in_word, raised, bit_set)
    where
      word_fits : (write q wdata k s).1.u32 flag.ef_word_ptr < u32_mod
      word_fits = rw written.4.words_kept fits

      raised : bit (served.u32 flag.ef_word_ptr) i ≡ 1
      raised = rw (notify_word os flag.ef_word_ptr notification (write q wdata k s).1 w asked) (
          omega (
            arith,
            (wake_lem os flag.ef_word_ptr notification (write q wdata k s).1 w word_fits asked).0 i,
            bit-le ((write q wdata k s).1.u32 flag.ef_word_ptr) i,
            notified,
          ))

module _ (os : Os) {q : MessageQueue} (c : IsConfigured q) (ev_flag : Option EventFlag)
    (flag : EventFlag) (chosen : chosen_flag q ev_flag ≡ some flag) (notification awaited i : ℕ)
    (in_word : i < 32) (notified : bit notification i ≡ 1) (bit_set : bit awaited i ≡ 1)
    (awaited_fits : awaited < u32_mod) (s : Store) (synced : IsSynced q s)
    (fits : s.u32 flag.ef_word_ptr < u32_mod)
    (clear : bit_and (s.u32 flag.ef_word_ptr) awaited ≡ 0) where
  abbrev pub cleared : ℕ
  cleared = bit_and (s.u32 flag.ef_word_ptr) (not32 awaited)

  -- The store in which the reader sleeps.
  abbrev pub asleep : Store
  asleep = store32 s flag.ef_word_ptr cleared

  asleep-IsSynced : IsSynced q asleep
  asleep-IsSynced = same_counters-IsSynced q asleep s refl synced

  asleep_fits : asleep.u32 flag.ef_word_ptr < u32_mod
  asleep_fits = ground (arith, bit_and-le_left (s.u32 flag.ef_word_ptr) (not32 awaited), fits)

  -- No sleeping reader is forgotten. A `readBlocking` without a timeout finds fewer bytes than it asks
  -- for, and no pending flag of its mask, and sleeps. While it sleeps, a writer of the same queue
  -- writes what is missing, or more, and notifies, on the event flag of the reader, a mask that has a
  -- flag in common with the reader's; the kernel then wakes the reader, and nothing else happens
  -- meanwhile. The call ends, after two rounds of fuel, and returns true: what was in the queue
  -- followed by what was written is what the reader has got followed by what is in the queue. The
  -- queue is set up with consistent counters, the reader has an event flag, both arrays are apart from
  -- the ring, the request is not larger than the ring, what is written fits, and the write counter does
  -- not wrap.
  pub writer_serves_reader :
      (data_ count read_notification fuel : ℕ) (w v ww : os.World) (wdata k : ℕ)
      → IsCallers q data_ (count * q.sizeof_t)
      → count * q.sizeof_t ≤ size q
      → stored_bytes q s < count * q.sizeof_t
      → IsCallers q wdata (k * q.sizeof_t)
      → k * q.sizeof_t ≤ free_bytes q s
      → write_counter q s + k * q.sizeof_t < u64_mod
      → count * q.sizeof_t ≤ stored_bytes q s + k * q.sizeof_t
      → os.futex_wait flag.ef_word_ptr cleared none awaited asleep w
        ≡ (none, served_store os q flag notification asleep wdata k ww, v)
      → (after : Store) × (w' : os.World) × (read_blocking os q
            (suc (suc fuel))
            data_
            count
            read_notification
            awaited
            (pos 0)
            ev_flag
            s
            w
          ≡ some (true, after, w'))
        × (contents q s ++ array s.bytes wdata (k * q.sizeof_t)
            ≡ array after.bytes data_ (count * q.sizeof_t) ++ contents q after)
  writer_serves_reader data_ count read_notification fuel w v ww wdata k callers in_size short
        wcallers room no_wrap enough woken =
      let (after, w', ends, split) =
        woken_reader_ends os c ev_flag flag chosen data_ count read_notification awaited asked'
          callers in_size s _ w v fuel synced short clear woken
          (served_flag os c flag notification awaited i in_word notified bit_set asleep
            asleep-IsSynced wdata k ww wcallers room no_wrap asleep_fits)
          awaited_fits
          (served-IsSynced os c flag notification awaited i in_word notified bit_set asleep
            asleep-IsSynced wdata k ww wcallers room no_wrap)
          (omega (
            arith,
            enough,
            stored-served os c flag notification awaited i in_word notified bit_set asleep
                asleep-IsSynced wdata k ww wcallers room no_wrap,
          )) in
      (
        after,
        w',
        ends,
        sym (
              contents-served os c flag notification awaited i in_word notified bit_set asleep
                asleep-IsSynced wdata k ww wcallers room no_wrap)
            ∙ split,
      )
    where
      asked' : awaited ≢ 0
      asked' e = omega (arith, ap (λ x. bit x i) e, bit-zero i, bit_set)
