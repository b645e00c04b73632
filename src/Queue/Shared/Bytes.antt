-- ===== src/Queue/Shared/Bytes.antt =====
-- A transaction in flight: its regions are positions of the ring that the other side does not touch,
-- and one byte more of it leaves all other bytes as they are.
use platform_system_libfmq.Base.{
  ℕ, ◌+◌, ◌*◌, ◌%◌, ◌≤◌, ◌<◌, ◌≡◌, ◌∙◌, ap, ap₂, [], ◌∷◌, ◌++◌, arith, length, ring_distinct,
  collect, collect_ext, collect-add, length-append,
}
use platform_system_libfmq.Store.{Memory, update}
use platform_system_libfmq.Queue.{MessageQueue, ring_transaction}
use platform_system_libfmq.Queue.Invariant.{size, IsConfigured, ring_byte}
use platform_system_libfmq.Queue.Regions.{ring_transaction_byte}
use platform_system_libfmq.Queue.Shared.{Held, add_byte, next_byte}

-- A transaction of the side whose counter is `counter`, which may go up to position `limit`: the bytes
-- moved are those of the ring.
pub record InFlight (q : MessageQueue) (m : Memory) (counter limit : ℕ) (h : Held) : Type 0 where
  pub region : h.tx ≡ ring_transaction q (counter % size q) h.n
  pub inside : counter + h.n * q.sizeof_t ≤ limit
  pub progress : length h.moved ≤ h.n * q.sizeof_t
  pub same : collect (ring_byte q m) counter (length h.moved) ≡ h.moved

-- Positions less than a turn apart are different bytes of the ring.
pub put_kept :
    {q : MessageQueue} (c : IsConfigured q) (m : Memory) (p r v : ℕ)
    → p < r
    → r < p + size q
    → ring_byte q (update m (q.ring + r % size q) v) p ≡ ring_byte q m p
put_kept {q} c m p r v before near =
    ground (arith, ring_distinct p r (size q) c.some_room before near)

module _ {q : MessageQueue} (c : IsConfigured q) {m : Memory} {counter limit : ℕ} {h : Held}
    (aligned : counter % q.sizeof_t ≡ 0) (f : InFlight q m counter limit h) where
  -- The other side's work keeps a transaction, if it keeps the bytes moved.
  pub InFlight-kept :
      {m' : Memory} {limit' : ℕ}
      → limit ≤ limit'
      → ((i : ℕ) → i < length h.moved → ring_byte q m' (counter + i) ≡ ring_byte q m (counter + i))
      → InFlight q m' counter limit' h
  InFlight-kept more kept = record {
    region = f.region;
    inside = omega (arith, f.inside, more);
    progress = f.progress;
    same = collect_ext _ _ counter counter (length h.moved) kept ∙ f.same;
  }

  pub next_byte-position :
      length h.moved < h.n * q.sizeof_t
      → h.n * q.sizeof_t ≤ size q
      → next_byte q h ≡ q.ring + (counter + length h.moved) % size q
  next_byte-position lt room =
      rw f.region (ring_transaction_byte c counter h.n aligned room (length h.moved) lt)

  -- The next byte, which the ring holds after the step.
  pub InFlight-add_byte :
      {m' : Memory} (v : ℕ)
      → length h.moved < h.n * q.sizeof_t
      → ((i : ℕ) → i < length h.moved → ring_byte q m' (counter + i) ≡ ring_byte q m (counter + i))
      → ring_byte q m' (counter + length h.moved) ≡ v
      → InFlight q m' counter limit (add_byte h v)
  unfolding collect
  InFlight-add_byte {m'} v lt kept new = record {
    region = f.region;
    inside = f.inside;
    progress = omega (arith, length-append h.moved (v ∷ []));
    same =
        ap (collect (ring_byte q m') counter) (length-append h.moved (v ∷ []))
        ∙ collect-add (ring_byte q m') counter (length h.moved) 1
        ∙ ap₂ ◌++◌ (collect_ext _ _ counter counter (length h.moved) kept ∙ f.same)
            (ap (λ b. b ∷ []) new);
  }
