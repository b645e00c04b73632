-- ===== src/Queue/Blocking/Woken.antt =====
-- A reader that sleeps in `readBlocking` without a timeout, and is woken.
use platform_system_libfmq.Base.{
  ℕ, suc, ◌*◌, ◌≤◌, ◌<◌, ◌≡◌, ◌≢◌, refl, ◌∙◌, ap, ap₂, sym, Bool, true, false, ◌||◌, ◌++◌, Option,
  none, some, ltb, ◌==◌, ◌!=◌, bit_and, bit, bit-zero, bit-bit_and, bit_and-le_right,
  eq-zero_of_bits, if◌then◌else◌, pos, u64_mod, arith,
}
use platform_system_libfmq.Store.{Store, store32}
use platform_system_libfmq.EventFlag.{
  Os, EventFlag, no_error, error, eintr, not32, Waited, after_futex, deadline, wait_helper,
  wait_loop, wait,
}
use platform_system_libfmq.EventFlag.Wake.{u32_mod}
use platform_system_libfmq.Queue.{MessageQueue, get_quantum_count, read}
use platform_system_libfmq.Queue.Invariant.{
  size, stored_bytes, IsConfigured, IsSynced, IsCallers, contents, array,
}
use platform_system_libfmq.Queue.Read.{read_refused, read_takes}
use native.Mathlib.Nat.{le-div_iff_mul-le}
use platform_system_libfmq.Queue.Admit.{quantum_count}
use platform_system_libfmq.Queue.Blocking.Notify.{notify_keeps, contents-notify}
use platform_system_libfmq.Queue.Blocking.{
  chosen_flag, notify, notified, blocking_loop, blocking, read_blocking,
}

-- A futex wait without a time limit that returns by a wake-up, in a store with a flag of the mask set.
module _ (os : Os) (word awaited : ℕ) (s t : Store) (w v : os.World) (asked : awaited ≢ 0)
    (clear : bit_and (s.u32 word) awaited ≡ 0)
    (woken : os.futex_wait word
        (bit_and (s.u32 word) (not32 awaited))
        none
        awaited
        (store32 s word (bit_and (s.u32 word) (not32 awaited)))
        w
      ≡ (none, t, v))
    (flag_set : bit_and (t.u32 word) awaited ≢ 0) (fits : awaited < u32_mod) where
  -- What the wait leaves: the flags of the mask are taken.
  abbrev pub taken_store : Store
  taken_store = store32 t word (bit_and (t.u32 word) (not32 awaited))

  abbrev answer : Waited os.World
  answer = record {
    status = no_error;
    ef_state = some (bit_and (t.u32 word) awaited);
    store = taken_store;
    world = v;
  }

  helper_woken : wait_helper os word awaited (some 0) (pos 0) s w ≡ answer
  unfolding wait_helper deadline after_futex
  helper_woken =
      rw (wait_helper, not_zero, none_set, woken) (ap (λ st. record answer { status = st }) took)
    where
      not_zero : awaited == 0 ≡ false
      not_zero = ground (arith, asked)

      none_set : bit_and (s.u32 word) awaited != 0 ≡ false
      none_set = ground (arith, clear)

      took : (if bit_and (t.u32 word) awaited == 0 then error eintr else no_error) ≡ no_error
      took = ground (arith, flag_set)

  wait_woken : (fuel : ℕ) → wait os (suc fuel) word awaited (some 0) (pos 0) true s w ≡ some answer
  unfolding wait wait_loop
  wait_woken fuel = rw helper_woken refl

  -- The loop of a blocking call tries once more, and ends.
  loop_woken :
      (attempt : Store → Bool × Store) (fuel : ℕ)
      → (attempt taken_store).0 ≡ true
      → blocking_loop os attempt (suc (suc fuel)) word awaited false (pos 0) 0 s w
        ≡ some (true, (attempt taken_store).1, v)
  unfolding blocking_loop
  loop_woken attempt fuel done = rw (blocking_loop, wait_woken fuel, flagged, done) refl
    where
      still : bit_and (bit_and (t.u32 word) awaited) awaited ≢ 0
      still e = flag_set (
          eq-zero_of_bits 32 (bit_and (t.u32 word) awaited)
            (omega (arith, bit_and-le_right (t.u32 word) awaited, fits))
            λ i lt. omega (
              arith,
              bit-bit_and (t.u32 word) awaited i,
              bit-bit_and (bit_and (t.u32 word) awaited) awaited i,
              ap (λ x. bit x i) e,
              bit-zero i,
            ))

      flagged : bit_and (bit_and (t.u32 word) awaited) awaited != 0 ≡ true
      flagged = ground (arith, still)

-- What fits in the ring is not more than its elements.
in_count :
    {q : MessageQueue} (count : ℕ)
    → IsConfigured q
    → count * q.sizeof_t ≤ size q
    → count ≤ get_quantum_count q
in_count count c in_size = rw (quantum_count c) ((le-div_iff_mul-le c.element).1 in_size)

module _ (os : Os) {q : MessageQueue} (c : IsConfigured q) (ev_flag : Option EventFlag)
    (flag : EventFlag) (chosen : chosen_flag q ev_flag ≡ some flag)
    (data_ count read_notification awaited : ℕ) (asked : awaited ≢ 0)
    (callers : IsCallers q data_ (count * q.sizeof_t)) (in_size : count * q.sizeof_t ≤ size q)
    (s t : Store) (w v : os.World) where
  -- A read that cannot be served at once goes to sleep.
  sleeps :
      (fuel : ℕ)
      → IsSynced q s
      → stored_bytes q s < count * q.sizeof_t
      → {x : Store}
      → blocking_loop os (read q data_ count) fuel flag.ef_word_ptr awaited false (pos 0) 0 s w
        ≡ some (true, x, v)
      → read_blocking os q fuel data_ count read_notification awaited (pos 0) ev_flag s w
        ≡ some (notified os flag.ef_word_ptr read_notification (true, x, v))
  unfolding read_blocking blocking
  sleeps fuel synced short ends =
      rw (read_blocking, chosen, checks, read_refused c synced data_ count short small, ends) refl
    where
      small : count * q.sizeof_t < u64_mod
      small = omega (arith, in_size, c.addressable)

      checks : awaited == 0 || ltb (get_quantum_count q) count ≡ false
      checks = ground (arith, asked, in_count count c in_size)

  -- A sleeping reader is served. `readBlocking` without a timeout finds less than it asks for and no
  -- pending flag, and sleeps. If its futex call returns by a wake-up, when others have set a flag that
  -- it waits for and have written enough, then the call ends, after two rounds of fuel: it returns
  -- true, the oldest bytes are in the caller's array, and the rest stays in the queue.
  pub woken_reader_ends :
      (fuel : ℕ)
      → IsSynced q s
      → stored_bytes q s < count * q.sizeof_t
      → bit_and (s.u32 flag.ef_word_ptr) awaited ≡ 0
      → os.futex_wait flag.ef_word_ptr
          (bit_and (s.u32 flag.ef_word_ptr) (not32 awaited))
          none
          awaited
          (store32 s flag.ef_word_ptr (bit_and (s.u32 flag.ef_word_ptr) (not32 awaited)))
          w
        ≡ (none, t, v)
      → bit_and (t.u32 flag.ef_word_ptr) awaited ≢ 0
      → awaited < u32_mod
      → IsSynced q t
      → count * q.sizeof_t ≤ stored_bytes q t
      → (after : Store) × (w' : os.World) × (read_blocking os q
            (suc (suc fuel))
            data_
            count
            read_notification
            awaited
            (pos 0)
            ev_flag
            s
            w
          ≡ some (true, after, w'))
        × (contents q t ≡ array after.bytes data_ (count * q.sizeof_t) ++ contents q after)
  unfolding notified
  woken_reader_ends fuel synced short clear woken flag_set fits synced' enough =
      let taken = taken_store os flag.ef_word_ptr awaited s t w v asked clear woken flag_set fits in
      let (done, split, synced'', frame) = read_takes c taken_synced data_ count callers enough in
      let x = (read q data_ count taken).1 in
      (
        (notify os flag.ef_word_ptr read_notification x v).0,
        (notify os flag.ef_word_ptr read_notification x v).1,
        sleeps (suc (suc fuel)) synced short (
            loop_woken os flag.ef_word_ptr awaited s t w v asked clear woken flag_set fits
              (read q data_ count) fuel done),
        split
            ∙ ap₂ ◌++◌
                (ap (λ bytes. array bytes data_ (count * q.sizeof_t))
                  (sym (notify_keeps os flag.ef_word_ptr read_notification x v).0))
                (sym (contents-notify os flag.ef_word_ptr read_notification x v q)),
      )
    where
      taken_synced :
          IsSynced q
            (taken_store os flag.ef_word_ptr awaited s t w v asked clear woken flag_set fits)
      taken_synced = record {
        aligned = record {
          read_aligned = synced'.read_aligned;
          write_aligned = synced'.write_aligned;
          read_fits = synced'.read_fits;
          write_fits = synced'.write_fits;
        };
        behind = synced'.behind;
        no_overrun = synced'.no_overrun;
      }
