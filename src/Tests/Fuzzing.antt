-- ===== src/Tests/Fuzzing.antt =====
-- The fuzzer's reader and writer on a small ring of `payload_t`, with a provider that always sets the
-- counters to 1.
use mathlib.Core.Option
use platform_system_libfmq.Base.{
  ℕ, ◌-◌, ◌≡◌, refl, some, [], ◌∷◌, none, true, false, length, pos, arith,
}
use platform_system_libfmq.Store.{Store, nullptr}
use platform_system_libfmq.Descriptor.{
  GrantorDescriptor, synchronized_read_write, get_size, get_quantum,
}
use platform_system_libfmq.Queue.{
  MessageQueue, is_valid, begin_write, commit_write, available_to_write, available_to_write_bytes,
  available_to_read_bytes, get_quantum_count, ring_transaction,
}
use platform_system_libfmq.Queue.Invariant.{IsConfigured}
use platform_system_libfmq.Fuzzer.{
  Provider, get_counter_ptr, get_aidl_counter_ptr, consume_loop, overwrite_counter, writer_turn,
  writer,
}
use platform_system_libfmq.Fuzzer.Loops.{IsProvider}
use platform_system_libfmq.Fuzzer.Confined.{IsLaid}
use platform_system_libfmq.Fuzzer.Safety.{BothStay, fuzzers-Ends}
use platform_system_libfmq.Aidl.{AidlDescriptor}
use platform_system_libfmq.Aidl.Convert.{to_aidl_grantors}

abbrev ones : Provider
ones = record {
  Data = ℕ;
  remaining_bytes = λ d. d;
  consume_integral_in_range = λ lo hi d. (lo, d - 1);
  consume_integral = λ bytes d. (1, d - bytes);
  of_bytes = λ bytes. length bytes;
  consume_signed_in_range = λ lo hi d. (lo, d - 1);
  consume_bool = λ d. (true, d - 1);
  consume_bytes = λ n d. ([], d);
  consume_remaining_bytes = λ d. [];
}

ones-IsProvider : IsProvider ones
ones-IsProvider = record {
  in_range = λ lo hi d le. (omega arith, le);
  range_consumes = λ lo hi d lt ne. omega arith;
  integral_consumes = λ bytes d ne ne'. omega arith;
  integral_adds_none = λ bytes d. omega arith;
}

abbrev blank : Store
blank = record { bytes = λ a. 0; u64 = λ p. 0; u32 = λ p. 0 }

abbrev counter_grantor : ℕ → GrantorDescriptor
counter_grantor offset = record { flags = 0; fd_index = 0; offset = offset; extent = 8 }

abbrev payload_grantor : GrantorDescriptor
payload_grantor = record { flags = 0; fd_index = 0; offset = 16; extent = 12 }

abbrev payload_ring : MessageQueue
payload_ring = record {
  sizeof_t = 4;
  flavor = synchronized_read_write;
  desc = record {
    grantors = counter_grantor 0 ∷ counter_grantor 8 ∷ payload_grantor ∷ [];
    handle = none;
    quantum = 4;
    flags = 1;
  };
  ring = 116;
  read_ptr = 100;
  write_ptr = 108;
  ev_flag_word = nullptr;
  event_flag = none;
}

payload_ring-IsConfigured : IsConfigured payload_ring
unfolding get_size get_quantum
payload_ring-IsConfigured = record {
  element = omega arith;
  quantum = refl;
  whole = refl;
  some_room = omega arith;
  addressable = omega arith;
  mapped = λ e. omega arith;
  counters = λ e. omega arith;
}

abbrev payload_layout : IsLaid payload_ring 100
payload_layout = record {
  payload = refl;
  read_grantor = counter_grantor 0;
  write_grantor = counter_grantor 8;
  data_grantor = payload_grantor;
  has_read = refl;
  has_write = refl;
  has_data = refl;
  ring_at = refl;
  write_at = refl;
  ring_fits = omega arith;
  read_fits = omega arith;
  write_fits = omega arith;
  read_offset = omega arith;
  write_offset = omega arith;
  data_offset = omega arith;
}

abbrev payload_aidl : AidlDescriptor
payload_aidl = record {
  grantors = to_aidl_grantors payload_ring.desc.grantors;
  handle = record { fds = 3 ∷ []; ints = [] };
  quantum = pos 4;
  flags = pos 1;
}

fuzzers-Ends_example :
    BothStay ones payload_layout false (get_counter_ptr 116 payload_ring.desc) 41 4_096 40 blank
    × BothStay ones payload_layout false (get_aidl_counter_ptr 116 payload_aidl) 41 4_096 40 blank
unfolding is_valid
fuzzers-Ends_example =
    fuzzers-Ends ones ones-IsProvider payload_ring-IsConfigured payload_layout false payload_aidl
      refl 41 4_096 40 blank refl (omega arith) (omega arith) (omega arith)

-- The writer fills the ring, and then its own read counter, which is 1, leaves no room for an element.
writer_accesses :
    Option.map
      (λ r. r.accesses)
      (writer ones 41 payload_ring (get_counter_ptr 116 payload_ring.desc) false 40 blank)
    ≡ some (116 ∷ 120 ∷ 124 ∷ [])
unfolding consume_loop overwrite_counter writer_turn writer get_counter_ptr begin_write commit_write
    available_to_write available_to_write_bytes available_to_read_bytes get_quantum_count
    ring_transaction get_size get_quantum
writer_accesses = refl
