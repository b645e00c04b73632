-- ===== src/Setup/Lifecycle/Usable.antt =====
-- A synchronized queue that the constructor made can be used at once.
use platform_system_libfmq.Base.{
  ℕ, ◌+◌, ◌*◌, ◌%◌, ◌^◌, ◌≤◌, ◌<◌, ◌≡◌, ◌≢◌, ◌∙◌, ap, sym, inl, inr, refl, Bool, true, List, [],
  Option, none, some, Bool-cases, u64_mod, arith, collect-eq-nil,
}
use mathlib.Core.Path.{subst}
use native.Mathlib.Nat.{mul-mod_left, mul-le-mul_left, zero-mod}
use platform_system_libfmq.Store.{Store, nullptr}
use platform_system_libfmq.Descriptor.{synchronized_read_write, Descriptor, get_size, get_quantum}
use platform_system_libfmq.Queue.{MessageQueue, is_valid}
use platform_system_libfmq.Queue.Invariant.{size, write_counter, IsConfigured, IsSynced, contents}
use platform_system_libfmq.Queue.Fifo.{Call, run_queue, run_fifo, AreCallers, total_put}
use platform_system_libfmq.Queue.Fifo.Refine.{run_refines}
use platform_system_libfmq.Setup.{Vm}
use platform_system_libfmq.Setup.Located.{Locates, map_grantor_descr-located}
use platform_system_libfmq.Setup.Lifecycle.{create_queue}
use platform_system_libfmq.Setup.Lifecycle.Opened.{IsFresh, init_memory-Good}
use platform_system_libfmq.Setup.Lifecycle.Create.{
  region, described, made_object, created_made, created_nothing,
}
use platform_system_libfmq.Setup.Lifecycle.Valid.{
  IsMapped, init_memory_valid, IsPlaced, IsMapped-IsPlaced, is_valid-pointers,
}

-- A queue that is set up, and empty.
pub record IsEmptyQueue (capacity sizeof_t : ℕ) (q : MessageQueue) (s : Store) : Type 0 where
  pub configured : IsConfigured q
  pub synchronized : q.flavor ≡ synchronized_read_write
  pub capacity_bytes : size q ≡ capacity
  pub element_bytes : q.sizeof_t ≡ sizeof_t
  pub synced : IsSynced q s
  pub empty : contents q s ≡ []
  pub at_start : write_counter q s ≡ 0

fresh-IsEmptyQueue :
    {q : MessageQueue} {s : Store} (capacity sizeof_t : ℕ)
    → 0 < sizeof_t
    → 0 < capacity
    → capacity < u64_mod
    → capacity % sizeof_t ≡ 0
    → q.sizeof_t ≡ sizeof_t
    → get_quantum q.desc ≡ sizeof_t
    → size q ≡ capacity
    → q.flavor ≡ synchronized_read_write
    → q.ring ≢ nullptr
    → q.read_ptr ≢ q.write_ptr
    → IsFresh q s
    → IsEmptyQueue capacity sizeof_t q s
fresh-IsEmptyQueue {q} {s} capacity sizeof_t some_size some_room small whole e_size e_quantum e_cap
      sync ring_set apart fresh =
    record {
      configured = record {
        element = omega arith;
        quantum = e_quantum ∙ sym e_size;
        whole = rw (e_cap, e_size) whole;
        some_room = omega arith;
        addressable = omega arith;
        mapped = ring_set;
        counters = apart;
      };
      synchronized = sync;
      capacity_bytes = e_cap;
      element_bytes = e_size;
      synced = record {
        aligned = record {
          read_aligned = rw fresh.readable (zero-mod q.sizeof_t);
          write_aligned = rw fresh.writable (zero-mod q.sizeof_t);
          read_fits = omega (arith, fresh.readable);
          write_fits = omega (arith, fresh.writable);
        };
        behind = omega (arith, fresh.readable);
        no_overrun = omega (arith, fresh.writable);
      };
      empty = collect-eq-nil _ _ _ (omega (arith, fresh.writable));
      at_start = fresh.writable;
    }

-- A result of the constructor is that which it is.
pub result_is :
    (vm : Vm) (P : MessageQueue → Store → Type 0) {q q' : MessageQueue} {s s' : Store}
    {w w' : vm.World}
    → ◌≡◌ {A = Option (Option MessageQueue × Store × vm.World)}
        (some (some q, s, w))
        (some (some q', s', w'))
    → P q s
    → P q' s'
result_is vm P {q' = q'} {s = s} e p = subst (λ t. P q' t) (cc e) (subst (λ r. P r s) (cc e) p)

pub no_result :
    (vm : Vm) {q : MessageQueue} {s s' : Store} {w w' : vm.World}
    → ◌≡◌ {A = Option (Option MessageQueue × Store × vm.World)}
        (some (none, s, w))
        (some (some q, s', w'))
    → ⊥
no_result vm e = cc e

module _ (vm : Vm) (locates : Locates vm) (sizeof_t num_elements : ℕ)
    (configure_event_flag_word : Bool) (s : Store) (w : vm.World) where
  open locates use {base}

  abbrev d : Descriptor
  d = described vm synchronized_read_write sizeof_t num_elements configure_event_flag_word s w

  abbrev fd : ℕ
  fd = (region vm synchronized_read_write sizeof_t num_elements configure_event_flag_word s w).0

  abbrev x : MessageQueue × Store × vm.World
  x = made_object vm synchronized_read_write sizeof_t num_elements configure_event_flag_word s w

  abbrev w0 : vm.World
  w0 = (region vm synchronized_read_write sizeof_t num_elements configure_event_flag_word s w).1

  module _ (valid : is_valid x.0 ≡ true) where
    set_up : IsMapped vm true synchronized_read_write sizeof_t d s w0 x
    set_up = init_memory_valid vm true synchronized_read_write sizeof_t d s w0 valid

    pub placed : IsPlaced vm true synchronized_read_write sizeof_t d s w0 x.0
    placed = IsMapped-IsPlaced vm true synchronized_read_write sizeof_t d s w0 set_up

    pub read_at : x.0.read_ptr ≡ base fd + 0
    read_at =
        placed.reader_at
        ∙ map_grantor_descr-located vm locates synchronized_read_write d 0 w0 _ _ fd refl refl refl
            (omega arith) (λ e. (is_valid-pointers x.0 valid).1 (placed.reader_at ∙ e))

    pub write_at : x.0.write_ptr ≡ base fd + 8
    write_at =
        placed.writer_at
        ∙ map_grantor_descr-located vm locates synchronized_read_write d 1 _ _ _ fd refl refl refl
            (omega arith) (λ e. (is_valid-pointers x.0 valid).2 (placed.writer_at ∙ e))

    made-IsEmptyQueue :
        0 < sizeof_t
        → 0 < num_elements
        → num_elements * sizeof_t + 24 ≤ 2 ^ 31
        → IsEmptyQueue (num_elements * sizeof_t) sizeof_t x.0 x.1
    unfolding get_size get_quantum
    made-IsEmptyQueue some_size some_elements room =
        fresh-IsEmptyQueue (num_elements * sizeof_t) sizeof_t some_size
          (omega (arith, mul-le-mul_left num_elements some_size)) (omega (arith, room))
          (mul-mod_left num_elements sizeof_t) placed.same_size (ap get_quantum placed.same_desc)
          (ap get_size placed.same_desc) placed.same_flavor (is_valid-pointers x.0 valid).0
          (λ e. omega (arith, read_at, write_at, e))
          ((init_memory-Good vm synchronized_read_write sizeof_t d s w0).fresh valid).1

  pub created-IsEmptyQueue :
      0 < sizeof_t
      → sizeof_t < 2 ^ 31
      → 0 < num_elements
      → num_elements * sizeof_t + 24 ≤ 2 ^ 31
      → {q : MessageQueue} {s' : Store} {w' : vm.World}
      → create_queue vm synchronized_read_write sizeof_t num_elements configure_event_flag_word none
          0 s w
        ≡ some (some q, s', w')
      → is_valid q ≡ true
      → IsEmptyQueue (num_elements * sizeof_t) sizeof_t q s'
  created-IsEmptyQueue some_size small some_elements room made =
      elim (Bool-cases (vm.native_handle_create 1 0)) [
        | inl handle ↦
            result_is vm
              (λ q s. is_valid q ≡ true → IsEmptyQueue (num_elements * sizeof_t) sizeof_t q s)
              (sym (
                  created_made vm synchronized_read_write sizeof_t num_elements
                    configure_event_flag_word s w some_size small some_elements room handle)
                ∙ made)
              (λ valid. made-IsEmptyQueue valid some_size some_elements room)
        | inr no_handle ↦ absurd (
            no_result vm (
              sym (
                created_nothing vm synchronized_read_write sizeof_t num_elements
                  configure_event_flag_word s w some_size small some_elements room no_handle)
              ∙ made))
      ]

  -- A synchronized queue that the constructor made from a number of elements, within the limits of the
  -- descriptor and with every mapping successful (`isValid`), can be used at once: from there on no
  -- sequence of a client's calls tells it from an empty bounded queue of exactly the size asked for,
  -- as long as fewer than 2 ^ 64 bytes are put, from arrays apart from the ring. `mmap` maps the
  -- locations of the file it is given.
  pub fresh_queue_refines :
      0 < sizeof_t
      → sizeof_t < 2 ^ 31
      → 0 < num_elements
      → num_elements * sizeof_t + 24 ≤ 2 ^ 31
      → {q : MessageQueue} {s' : Store} {w' : vm.World}
      → create_queue vm synchronized_read_write sizeof_t num_elements configure_event_flag_word none
          0 s w
        ≡ some (some q, s', w')
      → is_valid q ≡ true
      → (calls : List Call) → AreCallers q calls
      → total_put calls < u64_mod
      → run_queue q s' calls ≡ run_fifo (num_elements * sizeof_t) sizeof_t [] calls
  fresh_queue_refines some_size small some_elements room {q} {s'} made valid calls callers budget =
      rw (← empty.capacity_bytes, ← empty.element_bytes, ← empty.empty)
        (run_refines empty.configured empty.synchronized calls empty.synced callers
          (omega (arith, empty.at_start)))
    where
      empty : IsEmptyQueue (num_elements * sizeof_t) sizeof_t q s'
      empty = created-IsEmptyQueue some_size small some_elements room made valid
