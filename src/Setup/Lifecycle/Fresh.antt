-- ===== src/Setup/Lifecycle/Fresh.antt =====
-- The queue that a constructor hands back: it is empty and as large as asked, or not valid.
use platform_system_libfmq.Base.{
  ℕ, ◌+◌, ◌*◌, ◌^◌, ◌≤◌, ◌<◌, ◌≡◌, ◌↔◌, inl, inr, refl, sym, Bool, true, false, Option, none, some,
  Bool-cases,
}
use native.Mathlib.Nat.{mul-div_cancel}
use platform_system_libfmq.Store.{Store}
use platform_system_libfmq.Descriptor.{MqFlavor, Descriptor, get_size, get_quantum}
use platform_system_libfmq.Queue.{MessageQueue, is_valid, get_quantum_count}
use platform_system_libfmq.Setup.{Vm}
use platform_system_libfmq.Setup.Lifecycle.Create.{
  created, described, made_object, created_made, created_nothing,
}
use platform_system_libfmq.Setup.Lifecycle.Opened.{IsFresh, Good, init_memory-Good}

module _ (vm : Vm) where
  module _ (flavor : MqFlavor) (sizeof_t num_elements : ℕ) (configure_event_flag_word : Bool)
      (s : Store) (w : vm.World) where
    as_asked :
        0 < sizeof_t
        → (d : Descriptor) → get_size d ≡ num_elements * sizeof_t
        → get_quantum d ≡ sizeof_t
        → {x : MessageQueue × Store × vm.World} → Good vm flavor sizeof_t d x
        → (q : MessageQueue) → some x.0 ≡ some q
        → (get_quantum_count q ≡ num_elements)
          × (get_size q.desc ≡ num_elements * sizeof_t)
          × (is_valid q ≡ true → IsFresh q x.1)
    unfolding get_quantum_count
    as_asked some_size d size_d quantum_d {x} good q e = rw (sym (same_queue e)) (
      rw (good.same.same_desc, size_d, quantum_d) (mul-div_cancel num_elements some_size),
      rw good.same.same_desc size_d,
      λ ok. (good.fresh ok).1,
    )
      where
        same_queue : some x.0 ≡ some q → x.0 ≡ q
        same_queue h = cc

    -- For sizes within the limits of the descriptor, and no file of the caller's, the constructor
    -- does not abort. It hands back no queue exactly if there is no memory for the handle, and then
    -- changes nothing. Otherwise the queue has room for exactly the number of elements asked for, and
    -- if it is valid, then both counters are at zero.
    pub create_queue-IsFresh :
        0 < sizeof_t
        → sizeof_t < 2 ^ 31
        → 0 < num_elements
        → num_elements * sizeof_t + 24 ≤ 2 ^ 31
        → (made_queue : Option MessageQueue) × (s' : Store) × (w' : vm.World) × (created vm flavor
              sizeof_t num_elements configure_event_flag_word s w
            ≡ some (made_queue, s', w'))
          × ((made_queue ≡ none) ↔ (vm.native_handle_create 1 0 ≡ false))
          × (made_queue ≡ none → (s' ≡ s) × (w' ≡ w))
          × ((q : MessageQueue)
              → made_queue ≡ some q
              → (get_quantum_count q ≡ num_elements)
                × (get_size q.desc ≡ num_elements * sizeof_t)
                × (is_valid q ≡ true → IsFresh q s'))
    unfolding get_size get_quantum
    create_queue-IsFresh some_size small some_elements room =
        elim (Bool-cases (vm.native_handle_create 1 0)) [
          | inl handle ↦ (
            some object.0,
            object.1,
            object.2,
            created_made vm flavor sizeof_t num_elements configure_event_flag_word s w some_size
                small some_elements room handle,
            (λ e. cc e, λ e. cc (e, handle)),
            λ e. cc e,
            as_asked some_size
                (described vm flavor sizeof_t num_elements configure_event_flag_word s w) refl refl
                (init_memory-Good vm flavor sizeof_t _ s _),
          )
          | inr no_handle ↦ (
            none,
            s,
            w,
            created_nothing vm flavor sizeof_t num_elements configure_event_flag_word s w some_size
                small some_elements room no_handle,
            (λ e. no_handle, λ e. refl),
            λ e. (refl, refl),
            λ q e. cc,
          )
        ]
      where
        object : MessageQueue × Store × vm.World
        object = made_object vm flavor sizeof_t num_elements configure_event_flag_word s w
