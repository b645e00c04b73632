-- ===== src/Tests/Rings.antt =====
-- A ring of three two-byte elements at address 100, its counters at 10 and 20, and stores for it; the
-- caller's arrays stand from address 1000 on.
use platform_system_libfmq.Base.{ℕ, ◌≤◌, inr, refl, [], ◌∷◌, none, ◌==◌, if◌then◌else◌, arith}
use platform_system_libfmq.Store.{Store, nullptr}
use platform_system_libfmq.Descriptor.{
  Descriptor, MqFlavor, synchronized_read_write, get_size, get_quantum,
}
use platform_system_libfmq.Queue.{MessageQueue}
use platform_system_libfmq.Queue.Invariant.{IsConfigured, IsSynced, IsCallers}

abbrev pub ring_desc : Descriptor
ring_desc = record {
  grantors =
      record { flags = 0; fd_index = 0; offset = 0; extent = 8 }
      ∷ record { flags = 0; fd_index = 0; offset = 8; extent = 8 }
      ∷ record { flags = 0; fd_index = 0; offset = 16; extent = 6 }
      ∷ [];
  handle = none;
  quantum = 2;
  flags = 1;
}

abbrev pub ring_of : MqFlavor → MessageQueue
ring_of flavor = record {
  sizeof_t = 2;
  flavor = flavor;
  desc = ring_desc;
  ring = 100;
  read_ptr = 10;
  write_ptr = 20;
  ev_flag_word = nullptr;
  event_flag = none;
}

abbrev pub sync_ring : MessageQueue
sync_ring = ring_of synchronized_read_write

-- Each byte holds its own address, and the counters are as given.
abbrev pub at_counters : ℕ → ℕ → Store
at_counters rd wr = record {
  bytes = λ a. a;
  u64 = λ p. if p == 10 then rd else if p == 20 then wr else 0;
  u32 = λ p. 0;
}

pub ring_of-IsConfigured : (flavor : MqFlavor) → IsConfigured (ring_of flavor)
unfolding get_size get_quantum
ring_of-IsConfigured flavor = record {
  element = omega arith;
  quantum = refl;
  whole = refl;
  some_room = omega arith;
  addressable = omega arith;
  mapped = omega arith;
  counters = omega arith;
}

-- One element is stored; it starts at the last place of the ring.
abbrev pub one_stored : Store
one_stored = at_counters 4 6

pub one_stored-IsSynced : IsSynced sync_ring one_stored
unfolding get_size
one_stored-IsSynced = record {
  aligned = record {
    read_aligned = refl;
    write_aligned = refl;
    read_fits = omega arith;
    write_fits = omega arith;
  };
  behind = omega arith;
  no_overrun = omega arith;
}

pub array-IsCallers : (n : ℕ) → n ≤ 6 → IsCallers sync_ring 1000 n
unfolding get_size
array-IsCallers n h = record { given = omega arith; apart = inr (omega arith) }
