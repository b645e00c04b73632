-- ===== src/Tests/Interleaved.antt =====
-- A run of a writer and a reader that interleave, and the theorems about such runs.
use platform_system_libfmq.Base.{◌≡◌, ◌≢◌, refl, [], ◌∷◌, ◌++◌, collect, arith}
use platform_system_libfmq.Descriptor.{synchronized_read_write, get_size, get_quantum}
use platform_system_libfmq.Transaction.Regions.{tx_byte}
use platform_system_libfmq.Queue.{
  ring_transaction, begin_write, begin_read, commit_write, commit_read, available_to_write,
  get_quantum_count,
}
use platform_system_libfmq.Queue.Invariant.{IsSynced, contents}
use platform_system_libfmq.Queue.Shared.{
  Held, Shared, begin_writing, put_byte, end_writing, begin_reading, take_byte, end_reading, Reach,
  RequestsFit, start, later, at_rest,
}
use platform_system_libfmq.Queue.Shared.Order.{received_in_order, no_shared_byte}
use platform_system_libfmq.Tests.Rings.{
  sync_ring, ring_of-IsConfigured, one_stored, one_stored-IsSynced,
}

-- Both sides have begun a transaction of one element.
abbrev both : (x : Shared) × Reach sync_ring (at_rest sync_ring one_stored) x
unfolding begin_write begin_read ring_transaction get_size get_quantum_count available_to_write
    get_quantum
both = (_, later (later start (begin_writing 1 refl refl)) (begin_reading 1 refl refl))

-- Their bytes alternate, and the reader commits first.
abbrev finished : (x : Shared) × Reach sync_ring (at_rest sync_ring one_stored) x
unfolding begin_write begin_read ring_transaction get_size get_quantum_count available_to_write
    get_quantum commit_write commit_read collect
finished = (
  _,
  later
      (later
        (later
          (later
            (later (later both.1 (put_byte 7 refl (omega arith))) (take_byte refl (omega arith)))
            (take_byte refl (omega arith)))
          (put_byte 8 refl (omega arith)))
        (end_reading refl refl))
      (end_writing refl refl),
)

finished_lists :
    (finished.0.sent ≡ 104 ∷ 105 ∷ 7 ∷ 8 ∷ [])
    × (finished.0.received ≡ 104 ∷ 105 ∷ [])
    × (contents sync_ring finished.0.store ≡ 7 ∷ 8 ∷ [])
unfolding finished
finished_lists = (refl, refl, refl)

abbrev both_fit : RequestsFit sync_ring both.1
unfolding both
both_fit = ((tt, tt), omega arith)

abbrev finished_fit : RequestsFit sync_ring finished.1
unfolding finished
finished_fit = ((((((((tt, tt), omega arith), tt), tt), tt), tt), tt), tt)

received_in_order_example :
    IsSynced sync_ring finished.0.store
    × (finished.0.sent ≡ finished.0.received ++ contents sync_ring finished.0.store)
unfolding finished
received_in_order_example =
    received_in_order (ring_of-IsConfigured synchronized_read_write) refl one_stored-IsSynced
      finished.1 finished_fit (omega arith)

abbrev both_writer : Held
both_writer = record { n = 1; tx = ring_transaction sync_ring 0 1; moved = [] }

abbrev both_reader : Held
both_reader = record { n = 1; tx = ring_transaction sync_ring 4 1; moved = [] }

no_shared_byte_example : tx_byte 2 both_writer.tx 0 ≢ tx_byte 2 both_reader.tx 1
unfolding both collect
no_shared_byte_example =
    no_shared_byte (ring_of-IsConfigured synchronized_read_write) refl one_stored-IsSynced 0 1
      both.1 both_fit (omega arith) refl refl (omega arith) (omega arith)
