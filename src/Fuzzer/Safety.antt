-- ===== src/Fuzzer/Safety.antt =====
-- The fuzzer's reader and writer end, and stay in the ring, whatever they write over the counters.
use platform_system_libfmq.Base.{ℕ, ◌+◌, ◌*◌, ◌<◌, ◌≤◌, ◌≡◌, Bool, true, Option, some, u64_mod}
use platform_system_libfmq.Store.{Store}
use platform_system_libfmq.Queue.{MessageQueue, is_valid}
use platform_system_libfmq.Queue.Invariant.{IsConfigured}
use platform_system_libfmq.Fuzzer.{
  Provider, get_counter_ptr, get_aidl_counter_ptr, Ran, reader, writer, reader_turn, writer_turn,
}
use platform_system_libfmq.Fuzzer.Loops.{IsProvider, Ends, consume_loop-Ends}
use platform_system_libfmq.Fuzzer.Confined.{
  read_ptr_of, write_ptr_of, IsLaid, InRing, Confined, Confined-refl, Confined-trans,
}
use platform_system_libfmq.Fuzzer.Counters.{aidl_read_ptr_of, aidl_write_ptr_of}
use platform_system_libfmq.Descriptor.{read_ptr_pos, write_ptr_pos}
use platform_system_libfmq.Aidl.{AidlDescriptor}
use platform_system_libfmq.Aidl.Convert.{to_aidl_grantors}
use platform_system_libfmq.Fuzzer.Reader.{reader_turn-Turns}
use platform_system_libfmq.Fuzzer.Writer.{writer_turn-Turns}

module _ (provider : Provider) {q : MessageQueue} {base : ℕ} (laid : IsLaid q base)
    (user_fd : Bool) where
  -- What is promised of a loop, and of both for one overload of `getCounterPtr`.
  abbrev pub Stays : Option (Ran provider.Data) → Store → Type 0
  Stays = Ends provider (InRing q) (Confined q (base + laid.read_grantor.offset))

  abbrev pub BothStay : (ℕ → Option ℕ) → ℕ → ℕ → provider.Data → Store → Type 0
  BothStay counter_ptr fuel page_size d s =
      Stays (reader provider fuel q counter_ptr page_size user_fd d s) s
      × Stays (writer provider fuel q counter_ptr user_fd d s) s

module _ (provider : Provider) (p : IsProvider provider) {q : MessageQueue} {base : ℕ}
    (c : IsConfigured q) (laid : IsLaid q base) (user_fd : Bool) where
  abbrev cell : ℕ
  cell = base + laid.read_grantor.offset

  module _ (counter_ptr : ℕ → Option ℕ) (finds_read : counter_ptr read_ptr_pos ≡ some cell)
      (finds_write : counter_ptr write_ptr_pos ≡ some q.write_ptr) where
    both-BothStay :
        (fuel page_size : ℕ) (d : provider.Data) (s : Store)
        → is_valid q ≡ true
        → 4 ≤ page_size
        → page_size * 10 < u64_mod
        → provider.remaining_bytes d < fuel
        → BothStay provider laid user_fd counter_ptr fuel page_size d s
    unfolding reader writer
    both-BothStay fuel page_size d s valid some_page page_fits lt = (
      rw valid (
          consume_loop-Ends provider (InRing q) (Confined q cell) (Confined-refl q cell)
            (Confined-trans q cell) (reader_turn provider q counter_ptr page_size user_fd)
            (reader_turn-Turns provider p c laid user_fd counter_ptr finds_write page_size some_page
              page_fits)
            fuel d s lt),
      consume_loop-Ends provider (InRing q) (Confined q cell) (Confined-refl q cell)
          (Confined-trans q cell) (writer_turn provider q counter_ptr user_fd)
          (writer_turn-Turns provider p c laid user_fd counter_ptr finds_read) fuel d s lt,
    )

  -- Let a valid queue be set up and its elements have four bytes, and let its region be mapped from
  -- an address on, with the ring and the write counter at the offsets of their grantors; let ten
  -- pages of at least four bytes be less than 2 ^ 64, and the data provider keep to its
  -- documentation. With more fuel than there are bytes of data, the loop of `reader` and that of
  -- `writer` consume all data and end, whatever the counters are at the start and whatever the two
  -- write over them. Each element that they load or store is in the ring. They change no memory but
  -- the ring, the two counters of the queue object, and the place of the read counter in the
  -- region. This holds for `getCounterPtr` of the queue's own descriptor, and for that of an AIDL
  -- descriptor with the same grantors.
  pub fuzzers-Ends :
      (a : AidlDescriptor)
      → a.grantors ≡ to_aidl_grantors q.desc.grantors
      → (fuel page_size : ℕ) (d : provider.Data) (s : Store) → is_valid q ≡ true
      → 4 ≤ page_size
      → page_size * 10 < u64_mod
      → provider.remaining_bytes d < fuel
      → BothStay provider laid user_fd (get_counter_ptr q.ring q.desc) fuel page_size d s
        × BothStay provider laid user_fd (get_aidl_counter_ptr q.ring a) fuel page_size d s
  fuzzers-Ends a converted fuel page_size d s valid some_page page_fits lt = (
    both-BothStay (get_counter_ptr q.ring q.desc) (read_ptr_of laid) (write_ptr_of laid) fuel
        page_size d s valid some_page page_fits lt,
    both-BothStay (get_aidl_counter_ptr q.ring a) (aidl_read_ptr_of laid a converted)
        (aidl_write_ptr_of laid a converted) fuel page_size d s valid some_page page_fits lt,
  )
