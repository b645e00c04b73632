-- ===== src/Queue/Blocking/Notify.antt =====
-- The notification at the end of a blocking call leaves the queue as it is.
use platform_system_libfmq.Base.{ℕ, ◌≡◌, refl, arith}
use platform_system_libfmq.Store.{Store}
use platform_system_libfmq.EventFlag.{Os, wake}
use platform_system_libfmq.Queue.{MessageQueue}
use platform_system_libfmq.Queue.Invariant.{IsSynced, contents}
use platform_system_libfmq.Queue.Blocking.{notify}

pub same_contents :
    (q : MessageQueue) (t t' : Store)
    → t.bytes ≡ t'.bytes
    → t.u64 ≡ t'.u64
    → contents q t ≡ contents q t'
same_contents q t t' e e' = rw (e, e') refl

pub same_counters-IsSynced :
    (q : MessageQueue) (t t' : Store) → t.u64 ≡ t'.u64 → IsSynced q t' → IsSynced q t
same_counters-IsSynced q t t' e v = record {
  aligned = record {
    read_aligned = rw e v.read_aligned;
    write_aligned = rw e v.write_aligned;
    read_fits = rw e v.read_fits;
    write_fits = rw e v.write_fits;
  };
  behind = rw e v.behind;
  no_overrun = rw e v.no_overrun;
}

module _ (os : Os) (word notification : ℕ) (t : Store) (v : os.World) where
  abbrev after : Store
  after = (notify os word notification t v).0

  pub notify_keeps : (after.bytes ≡ t.bytes) × (after.u64 ≡ t.u64)
  unfolding notify wake
  notify_keeps = (ground arith, ground arith)

  pub contents-notify : (q : MessageQueue) → contents q after ≡ contents q t
  contents-notify q = same_contents q after t notify_keeps.0 notify_keeps.1
