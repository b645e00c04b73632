-- ===== src/Setup/Classes.antt =====
-- The constructors of the two queue classes that users see: `AidlMessageQueue` from sizes
-- (include/fmq/AidlMessageQueue.h) and the HIDL `MessageQueue` (include/fmq/MessageQueue.h). Each passes
-- its arguments on to `MessageQueueBase`. A HIDL descriptor is copied by libhidl, an argument here.
use platform_system_libfmq.Base.{ℕ, Bool, Option, none}
use platform_system_libfmq.Store.{Store}
use platform_system_libfmq.Descriptor.{MqFlavor, Descriptor}
use platform_system_libfmq.Queue.{MessageQueue}
use platform_system_libfmq.Setup.{Vm}
use platform_system_libfmq.Setup.Lifecycle.{open_queue, create_queue}

module _ (vm : Vm) where
  -- `AidlMessageQueue(numElementsInQueue, configureEventFlagWord, bufferFd, bufferSize)`, and the one
  -- that leaves out the last two.
  unfoldable pub create_aidl_queue :
      MqFlavor
      → ℕ
      → ℕ
      → Bool
      → Option ℕ
      → ℕ
      → Store
      → vm.World
      → Option (Option MessageQueue × Store × vm.World)
  create_aidl_queue flavor sizeof_t num_elements configure_event_flag_word buffer_fd buffer_size s
        v =
      create_queue vm flavor sizeof_t num_elements configure_event_flag_word buffer_fd buffer_size s
        v

  unfoldable pub create_aidl_queue_in_ashmem :
      MqFlavor → ℕ → ℕ → Bool → Store → vm.World → Option (Option MessageQueue × Store × vm.World)
  unfolding create_aidl_queue
  create_aidl_queue_in_ashmem flavor sizeof_t num_elements configure_event_flag_word s v =
      create_aidl_queue flavor sizeof_t num_elements configure_event_flag_word none 0 s v

  -- The three constructors of `MessageQueue`.
  unfoldable pub open_hidl_queue :
      (Descriptor → vm.World → Descriptor × vm.World)
      → MqFlavor
      → ℕ
      → Descriptor
      → Bool
      → Store
      → vm.World
      → MessageQueue × Store × vm.World
  unfolding open_queue
  open_hidl_queue copy flavor sizeof_t desc reset_pointers s v =
      let (copied, v') = copy desc v in open_queue vm flavor sizeof_t copied reset_pointers s v'

  unfoldable pub create_hidl_queue :
      MqFlavor
      → ℕ
      → ℕ
      → Bool
      → Option ℕ
      → ℕ
      → Store
      → vm.World
      → Option (Option MessageQueue × Store × vm.World)
  create_hidl_queue flavor sizeof_t num_elements configure_event_flag_word buffer_fd buffer_size s
        v =
      create_queue vm flavor sizeof_t num_elements configure_event_flag_word buffer_fd buffer_size s
        v

  unfoldable pub create_hidl_queue_in_ashmem :
      MqFlavor → ℕ → ℕ → Bool → Store → vm.World → Option (Option MessageQueue × Store × vm.World)
  unfolding create_hidl_queue
  create_hidl_queue_in_ashmem flavor sizeof_t num_elements configure_event_flag_word s v =
      create_hidl_queue flavor sizeof_t num_elements configure_event_flag_word none 0 s v
