-- ===== src/Queue/Shared.antt =====
-- One writer and one reader over one ring (the use that include/fmq/MessageQueueBase.h describes for
-- `beginWrite`, `commitWrite`, `beginRead` and `commitRead`): their calls and the single bytes that
-- they move interleave in any order. A call is one step: each reads the other side's counter once and
-- stores at most once, to its own counter. Steps are taken in one order that both sides see.
pub mod Bytes
pub mod Moves
pub mod Commits
pub mod Steps
pub mod Order
pub mod Torn
use platform_system_libfmq.Base.{
  ℕ, ◌*◌, ◌<◌, ◌≡◌, List, [], ◌∷◌, ◌++◌, Bool, true, false, Option, none, some, u64_mod,
  if◌then◌else◌, length,
}
use platform_system_libfmq.Store.{Store, update}
use platform_system_libfmq.Transaction.{MemTransaction, empty_transaction}
use platform_system_libfmq.Transaction.Regions.{tx_byte}
use platform_system_libfmq.Queue.{MessageQueue, begin_write, commit_write, begin_read, commit_read}
use platform_system_libfmq.Queue.Invariant.{contents}

-- A transaction that a side has begun: its elements, its regions, and the bytes moved so far.
pub record Held : Type 0 where
  pub n : ℕ
  pub tx : MemTransaction
  pub moved : List ℕ

-- The store, the two sides, and what they have committed: all bytes sent, and all bytes received.
pub record Shared : Type 0 where
  pub store : Store
  pub writer : Option Held
  pub reader : Option Held
  pub sent : List ℕ
  pub received : List ℕ

abbrev pub add_byte : Held → ℕ → Held
add_byte h v = record h { moved = h.moved ++ v ∷ [] }

module _ (q : MessageQueue) where
  -- The address of the next byte that the holder of a transaction moves.
  abbrev pub next_byte : Held → ℕ
  next_byte h = tx_byte q.sizeof_t h.tx (length h.moved)

  pub data Step (x : Shared) : Shared → Type 0 where
    begin_writing :
        (n : ℕ) {tx : MemTransaction}
        → x.writer ≡ none
        → begin_write q x.store n empty_transaction ≡ (true, tx)
        → Step x (record x { writer = some (record { n = n; tx = tx; moved = [] }) })
    put_byte :
        {h : Held} (v : ℕ)
        → x.writer ≡ some h
        → length h.moved < h.n * q.sizeof_t
        → Step x (record x {
          store = record x.store { bytes = update x.store.bytes (next_byte h) v };
          writer = some (add_byte h v);
        })
    end_writing :
        {h : Held}
        → x.writer ≡ some h
        → length h.moved ≡ h.n * q.sizeof_t
        → Step x (record x {
          store = (commit_write q x.store h.n).1;
          writer = none;
          sent = x.sent ++ h.moved;
        })
    drop_writing : Step x (record x { writer = none })
    begin_reading :
        (n : ℕ) {tx : MemTransaction} {s : Store}
        → x.reader ≡ none
        → begin_read q x.store n ≡ (true, tx, s)
        → Step x (record x { store = s; reader = some (record { n = n; tx = tx; moved = [] }) })
    fail_reading :
        (n : ℕ) {tx : MemTransaction} {s : Store}
        → x.reader ≡ none
        → begin_read q x.store n ≡ (false, tx, s)
        → Step x (record x { store = s })
    take_byte :
        {h : Held}
        → x.reader ≡ some h
        → length h.moved < h.n * q.sizeof_t
        → Step x (record x { reader = some (add_byte h (x.store.bytes (next_byte h))) })
    end_reading :
        {h : Held}
        → x.reader ≡ some h
        → length h.moved ≡ h.n * q.sizeof_t
        → Step x (record x {
          store = (commit_read q x.store h.n).1;
          reader = none;
          received = if (commit_read q x.store h.n).0 then x.received ++ h.moved else x.received;
        })
    drop_reading : Step x (record x { reader = none })

  pub data Reach (x : Shared) : Shared → Type 0 where
    start : Reach x x
    later : {y z : Shared} → Reach x y → Step y z → Reach x z

  -- In a step, and in a run, the reader asks for no transaction whose size in bytes is 2 ^ 64 or more.
  abbrev pub FitsStep : {x y : Shared} → Step x y → Type 0
  FitsStep (begin_reading n idle e) = n * q.sizeof_t < u64_mod
  FitsStep (begin_writing n idle e) = Unit
  FitsStep (put_byte v held lt) = Unit
  FitsStep (end_writing held all) = Unit
  FitsStep drop_writing = Unit
  FitsStep (fail_reading n idle e) = Unit
  FitsStep (take_byte held lt) = Unit
  FitsStep (end_reading held all) = Unit
  FitsStep drop_reading = Unit

  abbrev pub RequestsFit : {x y : Shared} → Reach x y → Type 0
  RequestsFit start = Unit
  RequestsFit (later run step) = RequestsFit run × FitsStep step

  -- Both sides idle: what the ring holds counts as sent.
  abbrev pub at_rest : Store → Shared
  at_rest s = record { store = s; writer = none; reader = none; sent = contents q s; received = [] }
