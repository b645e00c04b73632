-- ===== src/Queue/Fifo.antt =====
-- The contract of a synchronized queue: a bounded first-in first-out queue of bytes. A client's calls
-- on the ring buffer answer as they do on the abstract queue.
pub mod Refine
use platform_system_libfmq.Base.{
  ℕ, ◌+◌, ◌-◌, ◌*◌, ◌<◌, ◌≡◌, List, [], ◌∷◌, ◌++◌, Bool, true, false, u64_mod, leb, if◌then◌else◌,
  length, take, drop, get_or,
}
use platform_system_libfmq.Store.{Store, within}
use platform_system_libfmq.Queue.{MessageQueue, write, read}
use platform_system_libfmq.Queue.Invariant.{IsCallers, array}

-- A client's call: `put` fills the array at `data_` with the bytes and writes `n` elements from it;
-- `get` reads `n` elements into the array at `data_`.
pub data Call : Type 0 where
  put : (data_ n : ℕ) → List ℕ → Call
  get : (data_ n : ℕ) → Call

-- What the client sees: the result, and the bytes that it got.
abbrev pub Reply : Type 0
Reply = Bool × List ℕ

-- The abstract queue of at most `cap` bytes, oldest first.
unfoldable pub push : ℕ → List ℕ → List ℕ → Bool × List ℕ
push cap xs q = if leb (length q + length xs) cap then (true, q ++ xs) else (false, q)

unfoldable pub pop : ℕ → List ℕ → Bool × List ℕ × List ℕ
pop n q = if leb n (length q) then (true, take n q, drop n q) else (false, [], q)

unfoldable pub run_fifo : ℕ → ℕ → List ℕ → List Call → List Reply
run_fifo cap sz q [] = []
run_fifo cap sz q (put data_ n xs ∷ calls) =
    let (ok, q') = push cap xs q in (ok, []) ∷ run_fifo cap sz q' calls
run_fifo cap sz q (get data_ n ∷ calls) =
    let (ok, xs, q') = pop (n * sz) q in (ok, xs) ∷ run_fifo cap sz q' calls

-- The client's array at `data_` filled with `xs`.
abbrev pub fill : ℕ → List ℕ → Store → Store
fill data_ xs s = record s {
  bytes = λ a. if within data_ (length xs) a then get_or xs (a - data_) 0 else s.bytes a;
}

module _ (q : MessageQueue) where
  unfoldable pub run_queue : Store → List Call → List Reply
  run_queue s [] = []
  run_queue s (put data_ n xs ∷ calls) =
      let (ok, s') = write q data_ n (fill data_ xs s) in (ok, []) ∷ run_queue s' calls
  run_queue s (get data_ n ∷ calls) =
      let (ok, s') = read q data_ n s in
      (ok, if ok then array s'.bytes data_ (n * q.sizeof_t) else []) ∷ run_queue s' calls

  -- Arrays apart from the ring, of the length that the call says.
  abbrev pub AreCallers : List Call → Type 0
  AreCallers [] = Unit
  AreCallers (put data_ n xs ∷ calls) =
      IsCallers q data_ (n * q.sizeof_t) × (length xs ≡ n * q.sizeof_t) × AreCallers calls
  AreCallers (get data_ n ∷ calls) =
      IsCallers q data_ (n * q.sizeof_t) × (n * q.sizeof_t < u64_mod) × AreCallers calls

-- All bytes that the calls put.
abbrev pub total_put : List Call → ℕ
total_put [] = 0
total_put (put data_ n xs ∷ calls) = length xs + total_put calls
total_put (get data_ n ∷ calls) = total_put calls
