-- ===== src/Fuzzer/Writer.antt =====
-- One turn of the fuzzer's writer: the element that it stores is in the ring, and beside the ring it changes
-- counters only.
use mathlib.Core.Path.{subst}
use platform_system_libfmq.Base.{
  ℕ, ◌+◌, ◌<◌, ◌≤◌, ◌≡◌, ◌≢◌, inl, inr, refl, sym, [], ◌∷◌, Bool, true, false, Bool-cases, Option,
  some, ℕ_discrete, arith,
}
use platform_system_libfmq.Store.{Store}
use platform_system_libfmq.Descriptor.{read_ptr_pos}
use platform_system_libfmq.Transaction.{MemTransaction, empty_transaction}
use platform_system_libfmq.Queue.{MessageQueue, begin_write, commit_write}
use platform_system_libfmq.Queue.Invariant.{write_counter, IsConfigured}
use platform_system_libfmq.Queue.Bounds.{granted_write}
use platform_system_libfmq.Fuzzer.{
  Provider, payload_size, store_payload, overwrite_counter, writer_turn,
}
use platform_system_libfmq.Fuzzer.Loops.{IsProvider, Turns}
use platform_system_libfmq.Fuzzer.Confined.{
  IsLaid, InRing, Confined, Confined-refl, Confined-trans, element-InRing, commit_write-Confined,
  store_payload-Confined,
}
use platform_system_libfmq.Fuzzer.Overwrite.{overwritten}

module _ (provider : Provider) (p : IsProvider provider) where
  open provider use {Data, remaining_bytes, consume_integral_in_range, consume_integral}

  module _ {q : MessageQueue} {base : ℕ} (c : IsConfigured q) (laid : IsLaid q base)
      (user_fd : Bool) (counter_ptr : ℕ → Option ℕ)
      (finds : counter_ptr read_ptr_pos ≡ some (base + laid.read_grantor.offset)) where
    abbrev cell : ℕ
    cell = base + laid.read_grantor.offset

    module _ (d : Data) (s : Store) where
      abbrev region : ℕ
      region = (begin_write q s 1 empty_transaction).1.first.address

      writer_refused :
          (begin_write q s 1 empty_transaction).0 ≡ false
          → writer_turn provider q counter_ptr user_fd d s
            ≡ some (record { accesses = []; left = (consume_integral 1 d).1; store = s })
      unfolding writer_turn
      writer_refused e = rw e refl

      abbrev stored : Data → Store → Store
      stored d2 s2 = store_payload s2 region ((consume_integral payload_size d2).0)

      writer_granted :
          (d2 : Data) (s2 : Store)
          → (begin_write q s 1 empty_transaction).0 ≡ true
          → overwrite_counter provider user_fd (counter_ptr read_ptr_pos) d s ≡ some (d2, s2)
          → writer_turn provider q counter_ptr user_fd d s
            ≡ some (record {
              accesses = region ∷ [];
              left = (consume_integral payload_size d2).1;
              store = (commit_write q (stored d2 s2) 1).1;
            })
      unfolding writer_turn
      writer_granted d2 s2 e e' = rw (e, e') refl

      begin_write-InRing : (begin_write q s 1 empty_transaction).0 ≡ true → InRing q region
      begin_write-InRing e =
          let (aligned, room, same) = granted_write c s 1 empty_transaction e in
          subst (λ (tx : MemTransaction). InRing q tx.first.address) (sym same)
            (element-InRing c laid.payload (write_counter q s) 1 aligned)

      less_left :
          (d2 : Data)
          → remaining_bytes d ≢ 0
          → remaining_bytes d2 ≤ remaining_bytes d
          → remaining_bytes ((consume_integral payload_size d2).1) < remaining_bytes d
      less_left d2 ne le = elim (ℕ_discrete (remaining_bytes d2) 0) [
        | yes e ↦ omega (arith, p.integral_adds_none payload_size d2)
        | no ne' ↦ omega (arith, p.integral_consumes payload_size d2 (omega arith) ne')
      ]

      pub writer_turn-Turns :
          remaining_bytes d ≢ 0
          → Turns provider
              (InRing q)
              (Confined q cell)
              (writer_turn provider q counter_ptr user_fd d s)
              d
              s
      writer_turn-Turns ne = elim (Bool-cases ((begin_write q s 1 empty_transaction).0)) [
        | inr e ↦ (
          record { accesses = []; left = (consume_integral 1 d).1; store = s },
          writer_refused e,
          p.integral_consumes 1 d (omega arith) ne,
          tt,
          Confined-refl q cell s,
        )
        | inl e ↦
            let (d2, s2, done, le, kept) =
              overwritten provider p q cell user_fd (counter_ptr read_ptr_pos) cell d s finds
                (inr (inr refl)) in
            (
              record {
                accesses = region ∷ [];
                left = (consume_integral payload_size d2).1;
                store = (commit_write q (stored d2 s2) 1).1;
              },
              writer_granted d2 s2 e done,
              less_left d2 ne le,
              (begin_write-InRing e, tt),
              Confined-trans q cell s (stored d2 s2) ((commit_write q (stored d2 s2) 1).1)
                  (Confined-trans q cell s s2 (stored d2 s2) kept (
                    store_payload-Confined q cell s2 region ((consume_integral payload_size d2).0)
                      (begin_write-InRing e)))
                  (commit_write-Confined q cell (stored d2 s2) 1),
            )
      ]
