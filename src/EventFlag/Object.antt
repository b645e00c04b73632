-- ===== src/EventFlag/Object.antt =====
-- The life of an `EventFlag`: its constructor, `createEventFlag`, `unmapEventFlagWord` and
-- `deleteEventFlag` of EventFlag.cpp.
use platform_system_libfmq.Base.{ℕ, Bool, false, not, Option, none, some, ◌==◌, if◌then◌else◌}
use platform_system_libfmq.Store.{nullptr}
use platform_system_libfmq.EventFlag.{Status, no_error, error, bad_value, no_memory, EventFlag, Os}

-- The constructor, and `createEventFlag`: whether the caller gave a place for the object, and whether
-- `new` found memory. The second result is what is stored there.
unfoldable pub init_event_flag : ℕ → Status × EventFlag
init_event_flag fw_addr =
    if fw_addr == nullptr
    then (bad_value, record { ef_word_ptr = nullptr; ef_word_needs_unmapping = false })
    else (no_error, record { ef_word_ptr = fw_addr; ef_word_needs_unmapping = false })

unfoldable pub create_event_flag : Bool → Bool → ℕ → Status × Option EventFlag
unfolding init_event_flag
create_event_flag flag_given allocated fw_addr =
    if not flag_given
    then (bad_value, none)
    else if not allocated
    then (no_memory, none)
    else let (status, ev_flag) = init_event_flag fw_addr in
      (status, elim status [ no_error ↦ some ev_flag | error e ↦ none ])

module _ (os : Os) where
  open os use {World, munmap}

  -- `unmapEventFlagWord`, and `deleteEventFlag` with the object that its argument leads to, if any.
  unfoldable pub unmap_event_flag_word : EventFlag → World → Status × EventFlag × World
  unmap_event_flag_word f w =
      let (ret, w') = munmap f.ef_word_ptr w in
      if f.ef_word_needs_unmapping
      then (
        elim ret [ none ↦ no_error | some errno ↦ error errno ],
        record f { ef_word_needs_unmapping = false },
        w',
      )
      else (no_error, f, w)

  unfoldable pub delete_event_flag : Option EventFlag → World → Status × Option EventFlag × World
  unfolding unmap_event_flag_word
  delete_event_flag none w = (bad_value, none, w)
  delete_event_flag (some f) w =
      let (status, f', w') = unmap_event_flag_word f w in (status, none, w')
