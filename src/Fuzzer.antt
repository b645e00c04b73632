-- ===== src/Fuzzer.antt =====
-- The fuzzer of fuzzer/fmq_fuzzer.cpp: a reader and a writer that drive a queue of four-byte elements
-- with the input's data and overwrite its counters. `FuzzedDataProvider` is not of this repository.
pub mod Loops
pub mod Confined
pub mod Counters
pub mod Overwrite
pub mod Reader
pub mod Writer
pub mod Safety
pub mod Created
pub mod Blocking
pub mod Input
use mathlib.Core.Option
use platform_system_libfmq.Base.{
  ℕ, zero, suc, ◌+◌, ◌-◌, ◌*◌, ◌/◌, ◌%◌, ◌^◌, List, [], ◌∷◌, ◌++◌, Bool, true, false, not, Option,
  none, some, ◌>>=◌, get_elem?, ltb, ◌==◌, ◌!=◌, if◌then◌else◌, add64, sub64, mul64, ℤ,
}
use platform_system_libfmq.Store.{Store, within, store64}
use platform_system_libfmq.Descriptor.{
  GrantorDescriptor, Descriptor, read_ptr_pos, write_ptr_pos, data_ptr_pos, uint32,
}
use platform_system_libfmq.Transaction.{empty_transaction}
use platform_system_libfmq.Queue.{
  MessageQueue, is_valid, begin_write, commit_write, begin_read, commit_read,
}
use platform_system_libfmq.Aidl.{AidlGrantor, AidlDescriptor}

-- `FuzzedDataProvider`, by the data that it has left: its constructor, `remaining_bytes`,
-- `ConsumeIntegralInRange` of a range from 0 on and of one with negative numbers, `ConsumeIntegral` of a
-- type of so many bytes, whose value is given by its bits, `ConsumeBool`, `ConsumeBytes` and
-- `ConsumeRemainingBytes`.
pub record Provider : Type 1 where
  pub Data : Type 0
  pub remaining_bytes : Data → ℕ
  pub consume_integral_in_range : ℕ → ℕ → Data → ℕ × Data
  pub consume_integral : ℕ → Data → ℕ × Data
  pub of_bytes : List ℕ → Data
  pub consume_signed_in_range : ℤ → ℤ → Data → ℤ × Data
  pub consume_bool : Data → Bool × Data
  pub consume_bytes : ℕ → Data → List ℕ × Data
  pub consume_remaining_bytes : Data → List ℕ

-- `sizeof(payload_t)`
abbrev pub payload_size : ℕ
payload_size = 4

-- `kMaxNumElements`, by the page size.
abbrev pub max_num_elements : ℕ → ℕ
max_num_elements page_size = add64 (sub64 (mul64 page_size 10 / payload_size) 8) 1

-- `createCounterPtr`
abbrev pub create_counter_ptr : ℕ → ℕ → ℕ → ℕ
create_counter_ptr start offset data_offset = add64 (sub64 start data_offset) offset

-- `getCounterPtr` of a HIDL descriptor and of an AIDL descriptor. `none` is that the vector of grantors
-- is read past its end.
unfoldable pub get_counter_ptr : ℕ → Descriptor → ℕ → Option ℕ
get_counter_ptr start desc grantor_indx = do
  counter ← get_elem? desc.grantors grantor_indx
  data_ ← get_elem? desc.grantors data_ptr_pos
  some (create_counter_ptr start counter.offset data_.offset)

unfoldable pub get_aidl_counter_ptr : ℕ → AidlDescriptor → ℕ → Option ℕ
get_aidl_counter_ptr start desc grantor_indx = do
  counter ← get_elem? desc.grantors grantor_indx
  data_ ← get_elem? desc.grantors data_ptr_pos
  some (create_counter_ptr start (uint32 counter.offset) (uint32 data_.offset))

-- The store of a `payload_t`, lowest byte first.
unfoldable pub store_payload : Store → ℕ → ℕ → Store
store_payload s p v = record s {
  bytes = λ a. if within p payload_size a then v / 256 ^ (a - p) % 256 else s.bytes a;
}

-- What a loop has done: the addresses of the elements that it has loaded or stored, in order, the data
-- that is left, and the store.
pub record Ran (D : Type 0) : Type 0 where
  pub accesses : List ℕ
  pub left : D
  pub store : Store

abbrev pub after : {D : Type 0} → List ℕ → Ran D → Ran D
after earlier r = record r { accesses = earlier ++ r.accesses }

module _ (provider : Provider) where
  open provider use {Data, remaining_bytes, consume_integral_in_range, consume_integral}

  -- `while (fdp.remaining_bytes())`, with a turn as its body.
  unfoldable pub consume_loop :
      (Data → Store → Option (Ran Data)) → ℕ → Data → Store → Option (Ran Data)
  consume_loop turn zero d s = none
  consume_loop turn (suc fuel) d s =
      let rest =
        turn d s >>= λ r. Option.map (after r.accesses) (consume_loop turn fuel r.left r.store) in
      if remaining_bytes d == 0 then some (record { accesses = []; left = d; store = s }) else rest

  -- The part of both loops that may overwrite a counter.
  unfoldable pub overwrite_counter : Bool → Option ℕ → Data → Store → Option (Data × Store)
  overwrite_counter user_fd counter d s =
      let (choice, d1) = consume_integral 1 d in
      let (value, d2) = consume_integral 8 d1 in
      if user_fd
      then some (d, s)
      else if choice == 1
      then (do ptr ← counter; some (d2, store64 s ptr value))
      else some (d1, s)

  -- A turn of `reader` and a turn of `writer`, by the address of each counter.
  unfoldable pub reader_turn :
      MessageQueue → (ℕ → Option ℕ) → ℕ → Bool → Data → Store → Option (Ran Data)
  unfolding overwrite_counter
  reader_turn q counter_ptr page_size user_fd d s =
      let (num_elements, d1) = consume_integral_in_range 0 (max_num_elements page_size) d in
      let (begun, tx, s1) = begin_read q s num_elements in
      if not begun then some (record { accesses = []; left = d1; store = s1 }) else do
        (d2, s2) ← overwrite_counter user_fd (counter_ptr write_ptr_pos) d1 s1
        some (record {
          accesses = tx.first.address ∷ [];
          left = d2;
          store = (commit_read q s2 num_elements).1;
        })

  unfoldable pub writer_turn :
      MessageQueue → (ℕ → Option ℕ) → Bool → Data → Store → Option (Ran Data)
  unfolding overwrite_counter store_payload
  writer_turn q counter_ptr user_fd d s =
      let (begun, tx) = begin_write q s 1 empty_transaction in
      if not begun
      then some (record { accesses = []; left = (consume_integral 1 d).1; store = s })
      else do
        (d1, s1) ← overwrite_counter user_fd (counter_ptr read_ptr_pos) d s
        some (
            let (value, d2) = consume_integral payload_size d1 in
            let s2 = store_payload s1 tx.first.address value in
            record { accesses = tx.first.address ∷ []; left = d2; store = (commit_write q s2 1).1 })

  -- `reader`, by the queue object that its constructor has made and its data, and `writer`.
  unfoldable pub reader :
      ℕ → MessageQueue → (ℕ → Option ℕ) → ℕ → Bool → Data → Store → Option (Ran Data)
  unfolding consume_loop reader_turn
  reader fuel read_mq counter_ptr page_size user_fd d s =
      if not (is_valid read_mq)
      then some (record { accesses = []; left = d; store = s })
      else consume_loop (reader_turn read_mq counter_ptr page_size user_fd) fuel d s

  unfoldable pub writer :
      ℕ → MessageQueue → (ℕ → Option ℕ) → Bool → Data → Store → Option (Ran Data)
  unfolding consume_loop writer_turn
  writer fuel write_mq counter_ptr user_fd d s =
      consume_loop (writer_turn write_mq counter_ptr user_fd) fuel d s
