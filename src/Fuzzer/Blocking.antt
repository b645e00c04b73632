-- ===== src/Fuzzer/Blocking.antt =====
-- The blocking reader and writer of fuzzer/fmq_fuzzer.cpp (`readerBlocking`, `writerBlocking`): each
-- repeats a blocking call with a timeout while it has data and the other side has not finished.
pub mod Finish
use platform_system_libfmq.Base.{
  ℕ, zero, suc, ◌+◌, ◌*◌, List, [], ◌∷◌, length, Bool, true, false, ◌&&◌, not, Option, none, some,
  ◌>>=◌, ltb, ◌==◌, if◌then◌else◌, ℤ, pos,
}
use platform_system_libfmq.Store.{Store, within}
use platform_system_libfmq.EventFlag.{Os}
use platform_system_libfmq.Queue.{MessageQueue, is_valid, get_quantum_count}
use platform_system_libfmq.Queue.Blocking.{write_blocking_default, read_blocking_default}
use platform_system_libfmq.Fuzzer.{Provider, payload_size, store_payload}

-- `kBlockingTimeoutNs`, and `sizeof(size_t)`.
abbrev pub blocking_timeout_ns : ℤ
blocking_timeout_ns = pos 100_000

abbrev pub sizeof_size_t : ℕ
sizeof_size_t = 8

-- What the other threads and the allocator do: the number of threads of the other side that have not
-- finished, the end of this thread, and the place of a new vector of so many bytes.
pub record Peers (World : Type 0) : Type 0 where
  pub not_finished : World → ℕ
  pub finish : World → World
  pub new_vector : ℕ → World → ℕ × World

-- `resize` of an empty vector fills it with zeros.
abbrev pub zeroed : Store → ℕ → ℕ → Store
zeroed s p n = record s { bytes = λ a. if within p n a then 0 else s.bytes a }

-- The elements of a vector.
unfoldable pub store_payloads : Store → ℕ → List ℕ → Store
unfolding store_payload
store_payloads s p [] = s
store_payloads s p (v ∷ vs) = store_payloads (store_payload s p v) (p + payload_size) vs

module _ (provider : Provider) where
  open provider use {Data, consume_integral}

  -- The values of the vector that `writerBlocking` fills.
  unfoldable pub consume_payloads : ℕ → Data → List ℕ × Data
  consume_payloads zero d = ([], d)
  consume_payloads (suc count) d =
      let (v, d1) = consume_integral payload_size d in
      let (vs, d2) = consume_payloads count d1 in (v ∷ vs, d2)

module _ (provider : Provider) (os : Os) (peers : Peers os.World) where
  open provider use {Data, remaining_bytes, consume_integral_in_range}
  open peers use {not_finished, finish, new_vector}

  -- The loop of `readerBlocking`: `none` is that the fuel ran out, here or in a blocking call.
  unfoldable pub reader_blocking_loop :
      ℕ → MessageQueue → Data → Store → os.World → Option (Data × Store × os.World)
  reader_blocking_loop zero q d s w = none
  reader_blocking_loop (suc fuel) q d s w =
      let (count, d') =
        if remaining_bytes d == 0
        then (1, d)
        else consume_integral_in_range 0 (get_quantum_count q + 1) d in
      let (data_, w1) = new_vector (count * payload_size) w in
      read_blocking_default os q fuel data_ count blocking_timeout_ns
        (zeroed s data_ (count * payload_size)) w1
      >>= λ (done, s2, w2).
          let again = reader_blocking_loop fuel q d' s2 w2 in
          if ltb sizeof_size_t (remaining_bytes d') && ltb 0 (not_finished w2)
          then again
          else some (d', s2, w2)

  -- `readerBlocking`, by the queue object that its constructor has made.
  unfoldable pub reader_blocking :
      ℕ → MessageQueue → List ℕ → Store → os.World → Option (Store × os.World)
  unfolding reader_blocking_loop
  reader_blocking fuel read_mq reader_data s w =
      if not (is_valid read_mq)
      then some (s, finish w)
      else reader_blocking_loop fuel read_mq (provider.of_bytes reader_data) s w >>= λ (d, s', w').
          some (s', finish w')

  unfoldable pub writer_blocking_loop :
      ℕ → MessageQueue → Data → Store → os.World → Option (Data × Store × os.World)
  unfolding consume_payloads store_payloads
  writer_blocking_loop zero q d s w = none
  writer_blocking_loop (suc fuel) q d s w =
      let (count, d1) = consume_integral_in_range 0 (get_quantum_count q + 1) d in
      let (values, d2) = consume_payloads provider count d1 in
      let (data_, w1) = new_vector (count * payload_size) w in
      let rest =
        write_blocking_default os q fuel data_ count blocking_timeout_ns
          (store_payloads s data_ values) w1
        >>= λ (done, s2, w2). writer_blocking_loop fuel q d2 s2 w2 in
      if ltb sizeof_size_t (remaining_bytes d) && ltb 0 (not_finished w)
      then rest
      else some (d, s, w)

  unfoldable pub writer_blocking :
      ℕ → MessageQueue → Data → Store → os.World → Option (Data × Store × os.World)
  unfolding writer_blocking_loop
  writer_blocking fuel write_mq d s w =
      writer_blocking_loop fuel write_mq d s w >>= λ (d', s', w'). some (d', s', finish w')
