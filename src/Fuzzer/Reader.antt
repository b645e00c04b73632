-- ===== src/Fuzzer/Reader.antt =====
-- One turn of the fuzzer's reader: the element that it loads is in the ring, and beside the ring it changes
-- counters only.
use platform_system_libfmq.Base.{
  ℕ, ◌+◌, ◌*◌, ◌<◌, ◌≤◌, ◌≡◌, ◌≢◌, inl, inr, refl, [], ◌∷◌, Bool, true, false, Bool-cases, Option,
  some, u64_mod, arith,
}
use platform_system_libfmq.Store.{Store}
use platform_system_libfmq.Descriptor.{write_ptr_pos}
use platform_system_libfmq.Queue.{MessageQueue, begin_read, commit_read}
use platform_system_libfmq.Queue.Invariant.{read_counter, IsConfigured}
use platform_system_libfmq.Queue.Bounds.{granted_read}
use platform_system_libfmq.Fuzzer.{Provider, max_num_elements, overwrite_counter, reader_turn}
use platform_system_libfmq.Fuzzer.Loops.{IsProvider, Turns}
use platform_system_libfmq.Fuzzer.Confined.{
  IsLaid, InRing, Confined, Confined-trans, element-InRing, begin_read-Confined,
  commit_read-Confined,
}
use platform_system_libfmq.Fuzzer.Overwrite.{overwritten}

module _ (provider : Provider) (p : IsProvider provider) where
  open provider use {Data, remaining_bytes, consume_integral_in_range, consume_integral}

  module _ {q : MessageQueue} {base : ℕ} (c : IsConfigured q) (laid : IsLaid q base)
      (user_fd : Bool) (counter_ptr : ℕ → Option ℕ)
      (finds : counter_ptr write_ptr_pos ≡ some q.write_ptr) where
    abbrev cell : ℕ
    cell = base + laid.read_grantor.offset

    module _ (page_size : ℕ) (some_page : 4 ≤ page_size) (page_fits : page_size * 10 < u64_mod)
        (d : Data) (s : Store) where
      abbrev n : ℕ
      n = (consume_integral_in_range 0 (max_num_elements page_size) d).0

      abbrev d1 : Data
      d1 = (consume_integral_in_range 0 (max_num_elements page_size) d).1

      reader_refused :
          (begin_read q s n).0 ≡ false
          → reader_turn provider q counter_ptr page_size user_fd d s
            ≡ some (record { accesses = []; left = d1; store = (begin_read q s n).2 })
      unfolding reader_turn
      reader_refused e = rw e refl

      reader_granted :
          (d2 : Data) (s2 : Store)
          → (begin_read q s n).0 ≡ true
          → overwrite_counter provider user_fd (counter_ptr write_ptr_pos) d1 ((begin_read q s n).2)
            ≡ some (d2, s2)
          → reader_turn provider q counter_ptr page_size user_fd d s
            ≡ some (record {
              accesses = (begin_read q s n).1.first.address ∷ [];
              left = d2;
              store = (commit_read q s2 n).1;
            })
      unfolding reader_turn
      reader_granted d2 s2 e e' = rw (e, e') refl

      -- The number of elements is small, so its size in bytes does not wrap.
      small : n * q.sizeof_t < u64_mod
      small =
          rw laid.payload
            (omega (arith, page_fits, p.in_range 0 (max_num_elements page_size) d (omega arith)))

      begin_read-InRing :
          (begin_read q s n).0 ≡ true → InRing q ((begin_read q s n).1.first.address)
      begin_read-InRing e =
          let (aligned, room, same) = granted_read c s n small e in
          rw same (element-InRing c laid.payload (read_counter q s) n aligned)

      less : remaining_bytes d ≢ 0 → remaining_bytes d1 < remaining_bytes d
      less = p.range_consumes 0 (max_num_elements page_size) d (omega arith)

      pub reader_turn-Turns :
          remaining_bytes d ≢ 0
          → Turns provider
              (InRing q)
              (Confined q cell)
              (reader_turn provider q counter_ptr page_size user_fd d s)
              d
              s
      reader_turn-Turns ne = elim (Bool-cases ((begin_read q s n).0)) [
        | inr e ↦ (
          record { accesses = []; left = d1; store = (begin_read q s n).2 },
          reader_refused e,
          less ne,
          tt,
          begin_read-Confined q cell s n,
        )
        | inl e ↦
            let (d2, s2, done, le, kept) =
              overwritten provider p q cell user_fd (counter_ptr write_ptr_pos) q.write_ptr d1
                ((begin_read q s n).2) finds (inr (inl refl)) in
            (
              record {
                accesses = (begin_read q s n).1.first.address ∷ [];
                left = d2;
                store = (commit_read q s2 n).1;
              },
              reader_granted d2 s2 e done,
              omega (arith, le, less ne),
              (begin_read-InRing e, tt),
              Confined-trans q cell s s2 ((commit_read q s2 n).1)
                  (Confined-trans q cell s ((begin_read q s n).2) s2
                    (begin_read-Confined q cell s n) kept)
                  (commit_read-Confined q cell s2 n),
            )
      ]
