-- ===== src/Fuzzer/Blocking/Finish.antt =====
-- The fuzzer's blocking reader and writer end, whatever the other threads do.
use platform_system_libfmq.Base.{
  ℕ, zero, suc, ◌+◌, ◌*◌, ◌<◌, ◌≤◌, ◌≡◌, inl, inr, refl, ◌∙◌, List, Bool, true, false, ◌&&◌,
  Bool-cases, Option, none, some, ltb, ◌==◌, if◌then◌else◌, ℕ_discrete, arith,
}
use platform_system_libfmq.Store.{Store}
use platform_system_libfmq.EventFlag.{Os}
use platform_system_libfmq.EventFlag.Retry.{Clock}
use platform_system_libfmq.Queue.{MessageQueue, get_quantum_count}
use platform_system_libfmq.Queue.Blocking.{
  fmq_not_full, fmq_not_empty, write_blocking_default, read_blocking_default,
}
use platform_system_libfmq.Queue.Blocking.Calls.{write_blocking_ends, read_blocking_ends}
use platform_system_libfmq.Fuzzer.{Provider, payload_size}
use platform_system_libfmq.Fuzzer.Loops.{IsProvider}
use platform_system_libfmq.Fuzzer.Blocking.{
  blocking_timeout_ns, sizeof_size_t, Peers, zeroed, store_payloads, consume_payloads,
  reader_blocking_loop, writer_blocking_loop,
}

module _ (provider : Provider) (p : IsProvider provider) (os : Os) (peers : Peers os.World)
    (clock : Clock os)
    (ticks : (w : os.World) → clock.now w < clock.now (os.elapsed_realtime_nano w).1)
    (q : MessageQueue) where
  open provider use {Data, remaining_bytes, consume_integral_in_range}
  open peers use {not_finished, new_vector}

  -- A call ends.
  abbrev Returns : Option (Bool × Store × os.World) → Type 0
  Returns x = (b : Bool) × (s' : Store) × (w' : os.World) × (x ≡ some (b, s', w'))

  -- Fuel for one call.
  abbrev call_fuel : ℕ
  call_fuel = 100_002

  read_blocking-Returns :
      (fuel data_ count : ℕ) (s : Store) (w : os.World)
      → call_fuel ≤ fuel
      → Returns (read_blocking_default os q fuel data_ count blocking_timeout_ns s w)
  unfolding read_blocking_default
  read_blocking-Returns fuel data_ count s w enough =
      let (b, s', w', e, good) =
        read_blocking_ends os q fuel data_ count fmq_not_full fmq_not_empty blocking_timeout_ns none
          s w clock ticks refl (omega arith) (omega arith) in
      (b, s', w', e)

  write_blocking-Returns :
      (fuel data_ count : ℕ) (s : Store) (w : os.World)
      → call_fuel ≤ fuel
      → Returns (write_blocking_default os q fuel data_ count blocking_timeout_ns s w)
  unfolding write_blocking_default
  write_blocking-Returns fuel data_ count s w enough =
      let (b, s', w', e, good) =
        write_blocking_ends os q fuel data_ count fmq_not_full fmq_not_empty blocking_timeout_ns
          none s w clock ticks refl (omega arith) (omega arith) in
      (b, s', w', e)

  abbrev Ended : Option (Data × Store × os.World) → Type 0
  Ended x = (d' : Data) × (s' : Store) × (w' : os.World) × (x ≡ some (d', s', w'))

  abbrev goes_on : Data → os.World → Bool
  goes_on d w = ltb sizeof_size_t (remaining_bytes d) && ltb 0 (not_finished w)

  module _ (fuel : ℕ) (d : Data) (s : Store) (w : os.World) where
    abbrev taken : ℕ × Data
    taken =
        if remaining_bytes d == 0
        then (1, d)
        else consume_integral_in_range 0 (get_quantum_count q + 1) d

    abbrev vector : ℕ × os.World
    vector = new_vector (taken.0 * payload_size) w

    abbrev call : Option (Bool × Store × os.World)
    call =
        read_blocking_default os q fuel vector.0 taken.0 blocking_timeout_ns
          (zeroed s vector.0 (taken.0 * payload_size)) vector.1

    reader_stops :
        (b : Bool) (s2 : Store) (w2 : os.World)
        → call ≡ some (b, s2, w2)
        → goes_on taken.1 w2 ≡ false
        → reader_blocking_loop provider os peers (suc fuel) q d s w ≡ some (taken.1, s2, w2)
    unfolding reader_blocking_loop
    reader_stops b s2 w2 e e' = rw (e, e') refl

    reader_repeats :
        (b : Bool) (s2 : Store) (w2 : os.World)
        → call ≡ some (b, s2, w2)
        → goes_on taken.1 w2 ≡ true
        → reader_blocking_loop provider os peers (suc fuel) q d s w
          ≡ reader_blocking_loop provider os peers fuel q taken.1 s2 w2
    unfolding reader_blocking_loop
    reader_repeats b s2 w2 e e' = rw (e, e') refl

    -- A turn that is followed by another consumes data.
    taken-less :
        (w2 : os.World) → goes_on taken.1 w2 ≡ true → remaining_bytes taken.1 < remaining_bytes d
    taken-less w2 e = elim (ℕ_discrete (remaining_bytes d) 0) [
      | yes none_left ↦ ground (arith, e, none_left)
      | no ne ↦ ground (arith, ne, p.range_consumes 0 (get_quantum_count q + 1) d (omega arith) ne)
    ]

  -- With fuel for one call and for every byte of data, the loop of `readerBlocking` ends, whatever the
  -- kernel and the other threads do, if each reading of the clock takes at least a nanosecond.
  reader_blocking_loop_ends :
      (fuel : ℕ) (d : Data) (s : Store) (w : os.World)
      → call_fuel + remaining_bytes d < fuel
      → Ended (reader_blocking_loop provider os peers fuel q d s w)
  reader_blocking_loop_ends zero d s w lt = absurd (omega arith)
  reader_blocking_loop_ends (suc fuel) d s w lt =
      let (b, s2, w2, e) =
        read_blocking-Returns fuel (vector fuel d s w).0 (taken fuel d s w).0
          (zeroed s (vector fuel d s w).0 ((taken fuel d s w).0 * payload_size))
          (vector fuel d s w).1 (omega arith) in
      elim (Bool-cases (goes_on (taken fuel d s w).1 w2)) [
        | inr last ↦ ((taken fuel d s w).1, s2, w2, reader_stops fuel d s w b s2 w2 e last)
        | inl more ↦
            let (d', s', w', e') =
              reader_blocking_loop_ends fuel (taken fuel d s w).1 s2 w2
                (omega (arith, taken-less fuel d s w w2 more)) in
            (d', s', w', reader_repeats fuel d s w b s2 w2 e more ∙ e')
      ]

  consume_payloads-le :
      (count : ℕ) (d : Data)
      → remaining_bytes (consume_payloads provider count d).1 ≤ remaining_bytes d
  unfolding consume_payloads
  consume_payloads-le zero d = omega arith
  consume_payloads-le (suc count) d =
      let (v, d1) = provider.consume_integral payload_size d in
      omega (arith, p.integral_adds_none payload_size d, consume_payloads-le count d1)

  module _ (fuel : ℕ) (d : Data) (s : Store) (w : os.World) where
    abbrev asked : ℕ × Data
    asked = consume_integral_in_range 0 (get_quantum_count q + 1) d

    abbrev payloads : List ℕ × Data
    payloads = consume_payloads provider asked.0 asked.1

    abbrev buffer : ℕ × os.World
    buffer = new_vector (asked.0 * payload_size) w

    writer_stops :
        goes_on d w ≡ false
        → writer_blocking_loop provider os peers (suc fuel) q d s w ≡ some (d, s, w)
    unfolding writer_blocking_loop
    writer_stops e = rw e refl

    writer_repeats :
        (b : Bool) (s2 : Store) (w2 : os.World)
        → goes_on d w ≡ true
        → write_blocking_default os q fuel buffer.0 asked.0 blocking_timeout_ns
            (store_payloads s buffer.0 payloads.0)
            buffer.1
          ≡ some (b, s2, w2)
        → writer_blocking_loop provider os peers (suc fuel) q d s w
          ≡ writer_blocking_loop provider os peers fuel q payloads.1 s2 w2
    unfolding writer_blocking_loop
    writer_repeats b s2 w2 e e' = rw (e, e') refl

    payloads-less : goes_on d w ≡ true → remaining_bytes payloads.1 < remaining_bytes d
    payloads-less e = omega (
      arith,
      consume_payloads-le asked.0 asked.1,
      p.range_consumes 0 (get_quantum_count q + 1) d (omega arith) (ground (arith, e)),
    )

  -- The loop of `writerBlocking` ends in the same way.
  writer_blocking_loop_ends :
      (fuel : ℕ) (d : Data) (s : Store) (w : os.World)
      → call_fuel + remaining_bytes d < fuel
      → Ended (writer_blocking_loop provider os peers fuel q d s w)
  writer_blocking_loop_ends zero d s w lt = absurd (omega arith)
  writer_blocking_loop_ends (suc fuel) d s w lt = elim (Bool-cases (goes_on d w)) [
    | inr last ↦ (d, s, w, writer_stops fuel d s w last)
    | inl more ↦
        let (b, s2, w2, e) =
          write_blocking-Returns fuel (buffer fuel d s w).0 (asked fuel d s w).0
            (store_payloads s (buffer fuel d s w).0 (payloads fuel d s w).0) (buffer fuel d s w).1
            (omega arith) in
        let (d', s', w', e') =
          writer_blocking_loop_ends fuel (payloads fuel d s w).1 s2 w2
            (omega (arith, payloads-less fuel d s w more)) in
        (d', s', w', writer_repeats fuel d s w b s2 w2 more e ∙ e')
  ]
