-- ===== src/Queue/Fifo/Refine.antt =====
-- The ring buffer refines the bounded queue: one call at a time, then whole runs.
use native.Mathlib.Nat.{mod-lt}
use platform_system_libfmq.Base.{
  ℕ, ◌+◌, ◌*◌, ◌≤◌, ◌<◌, ◌≡◌, refl, ◌∙◌, ap, ap₂, sym, List, Bool, [], ◌∷◌, ◌++◌, true, false,
  u64_mod, if◌then◌else◌, length, get_or, dec_le, collect_ext, collect-get_or, length-append,
  length-collect, take-append_length, drop-append_length, arith,
}
use platform_system_libfmq.Store.{Store}
use platform_system_libfmq.Descriptor.{synchronized_read_write}
use platform_system_libfmq.Queue.{MessageQueue, write, read}
use platform_system_libfmq.Queue.Invariant.{
  size, ring_byte, read_counter, write_counter, stored_bytes, free_bytes, IsConfigured, IsSynced,
  IsCallers, contents, array,
}
use platform_system_libfmq.Queue.Write.{write_refused, write_appends}
use platform_system_libfmq.Queue.Read.{read_refused, read_takes}
use platform_system_libfmq.Queue.Fifo.{
  Call, put, get, push, pop, run_fifo, fill, run_queue, AreCallers, total_put,
}

array-fill :
    (s : Store) (data_ : ℕ) (xs : List ℕ) → array (fill data_ xs s).bytes data_ (length xs) ≡ xs
array-fill s data_ xs =
    collect_ext _ (λ i. get_or xs i 0) data_ 0 (length xs) (λ i lt. inside i lt)
    ∙ collect-get_or xs 0
  where
    inside : (i : ℕ) → i < length xs → (fill data_ xs s).bytes (data_ + i) ≡ get_or xs (0 + i) 0
    inside i lt = ground arith

push-fits : (cap : ℕ) (xs q : List ℕ) → length q + length xs ≤ cap → push cap xs q ≡ (true, q ++ xs)
unfolding push
push-fits cap xs q h = ground arith

push-full : (cap : ℕ) (xs q : List ℕ) → cap < length q + length xs → push cap xs q ≡ (false, q)
unfolding push
push-full cap xs q h = ground arith

pop-append : (n : ℕ) (xs ys : List ℕ) → length xs ≡ n → pop n (xs ++ ys) ≡ (true, xs, ys)
pop-append n xs ys e = rw (← e) (whole xs ys)
  where
    whole : (xs ys : List ℕ) → pop (length xs) (xs ++ ys) ≡ (true, xs, ys)
    whole xs ys =
        unfold pop in
        ground (arith, length-append xs ys, take-append_length xs ys, drop-append_length xs ys)

pop-short : (n : ℕ) (q : List ℕ) → length q < n → pop n q ≡ (false, [], q)
unfolding pop
pop-short n q h = ground arith

module _ {q : MessageQueue} (c : IsConfigured q) (sync : q.flavor ≡ synchronized_read_write) where
  -- Filling the caller's array does not touch the queue.
  contents-fill :
      (s : Store) (data_ : ℕ) (xs : List ℕ)
      → IsCallers q data_ (length xs)
      → contents q (fill data_ xs s) ≡ contents q s
  contents-fill s data_ xs callers = collect_ext _ _ _ _ _ λ i lt. elsewhere (read_counter q s + i)
    where
      elsewhere : (p : ℕ) → ring_byte q (fill data_ xs s).bytes p ≡ ring_byte q s.bytes p
      elsewhere p = ground (arith, callers.apart, mod-lt p c.some_room)

  fill-IsSynced :
      {s : Store} (data_ : ℕ) (xs : List ℕ) → IsSynced q s → IsSynced q (fill data_ xs s)
  fill-IsSynced data_ xs v = record {
    aligned = record {
      read_aligned = v.read_aligned;
      write_aligned = v.write_aligned;
      read_fits = v.read_fits;
      write_fits = v.write_fits;
    };
    behind = v.behind;
    no_overrun = v.no_overrun;
  }

  -- `write` answers and changes the contents as `push` does.
  pub write_refines :
      {s : Store} (data_ n : ℕ)
      → IsSynced q s
      → IsCallers q data_ (n * q.sizeof_t)
      → write_counter q s + n * q.sizeof_t < u64_mod
      → let (ok, s') = write q data_ n s in
        ((ok, contents q s') ≡ push (size q) (array s.bytes data_ (n * q.sizeof_t)) (contents q s))
        × IsSynced q s'
        × (write_counter q s' ≤ write_counter q s + n * q.sizeof_t)
  write_refines {s} data_ n v callers no_wrap = elim (dec_le (n * q.sizeof_t) (free_bytes q s)) [
    | yes fits ↦
        let (done, appended, counter, synced, frame) =
          write_appends c v data_ n callers fits no_wrap in
        (
          ap₂ (λ ok xs. (ok, xs)) done appended
              ∙ sym (push-fits (size q) _ _ (omega (arith, lengths, v.behind, v.no_overrun))),
          synced,
          omega (arith, counter),
        )
    | no over ↦
        let over' : free_bytes q s < n * q.sizeof_t = omega arith in
        rw (write_refused c v data_ n sync over')
          (sym (push-full (size q) _ _ (omega (arith, lengths, v.no_overrun))), v, omega arith)
  ]
    where
      lengths :
          (length (contents q s) ≡ stored_bytes q s)
          × (length (array s.bytes data_ (n * q.sizeof_t)) ≡ n * q.sizeof_t)
      lengths = (length-collect _ _ _, length-collect _ _ _)

  -- `read` answers, delivers and changes the contents as `pop` does.
  pub read_refines :
      {s : Store} (data_ n : ℕ)
      → IsSynced q s
      → IsCallers q data_ (n * q.sizeof_t)
      → n * q.sizeof_t < u64_mod
      → let (ok, s') = read q data_ n s in
        ((ok, (if ok then array s'.bytes data_ (n * q.sizeof_t) else []), contents q s')
          ≡ pop (n * q.sizeof_t) (contents q s))
        × IsSynced q s'
        × (write_counter q s' ≡ write_counter q s)
  read_refines {s} data_ n v callers fits = elim (dec_le (n * q.sizeof_t) (stored_bytes q s)) [
    | yes enough ↦
        let (done, split, synced, frame) = read_takes c v data_ n callers enough in
        (
          answer (read q data_ n s) done
              ∙ sym (ap (pop (n * q.sizeof_t)) split ∙ pop-append _ _ _ (length-collect _ _ _)),
          synced,
          frame.counters_kept q.write_ptr (λ e. c.counters (sym e)),
        )
    | no short ↦
        let short' : stored_bytes q s < n * q.sizeof_t = omega arith in
        rw (read_refused c v data_ n short' fits) (
          sym (
              pop-short _ _ (
                omega (
                  arith,
                  length-collect (ring_byte q s.bytes) (read_counter q s) (stored_bytes q s),
                ))),
          v,
          refl,
        )
  ]
    where
      answer :
          (r : Bool × Store)
          → r.0 ≡ true
          → ◌≡◌ {A = Bool × List ℕ × List ℕ}
              (r.0, (if r.0 then array r.1.bytes data_ (n * q.sizeof_t) else []), contents q r.1)
              (true, array r.1.bytes data_ (n * q.sizeof_t), contents q r.1)
      answer r e = rw e

  -- `put` fills the array first, which the queue does not notice.
  put_refines :
      {s : Store} (data_ n : ℕ) (xs : List ℕ)
      → IsSynced q s
      → IsCallers q data_ (n * q.sizeof_t)
      → length xs ≡ n * q.sizeof_t
      → write_counter q s + length xs < u64_mod
      → let (ok, s') = write q data_ n (fill data_ xs s) in
        ((ok, contents q s') ≡ push (size q) xs (contents q s))
        × IsSynced q s'
        × (write_counter q s' ≤ write_counter q s + length xs)
  put_refines {s} data_ n xs v callers len budget =
      let (eq, synced, counter) =
        write_refines {s = fill data_ xs s} data_ n (fill-IsSynced data_ xs v) callers
          (omega arith) in
      (
        eq
            ∙ ap₂ (push (size q)) (rw len at (array-fill s data_ xs))
                (contents-fill s data_ xs (rw (← len) at callers)),
        synced,
        omega (arith, counter),
      )

  -- No sequence of a client's calls tells a synchronized queue that is set up and has consistent
  -- counters from the bounded queue of its contents, as long as the client's arrays are apart from the
  -- ring and the write counter does not reach 2 ^ 64.
  pub run_refines :
      (calls : List Call) {s : Store}
      → IsSynced q s
      → AreCallers q calls
      → write_counter q s + total_put calls < u64_mod
      → run_queue q s calls ≡ run_fifo (size q) q.sizeof_t (contents q s) calls
  unfolding run_queue run_fifo
  run_refines [] v callers budget = refl
  run_refines (put data_ n xs ∷ calls) {s} v callers budget =
      let (eq, synced, counter) = put_refines data_ n xs v callers.0 callers.1 (omega arith) in
      rw (run_refines calls synced callers.2 (omega (arith, counter)), ← eq)
  run_refines (get data_ n ∷ calls) {s} v callers budget =
      let (eq, synced, counter) = read_refines data_ n v callers.0 callers.1 in
      rw (run_refines calls synced callers.2 (omega (arith, counter)), ← eq)
