-- ===== src/Fuzzer/Confined.antt =====
-- What the queue's calls and the fuzzer's own stores leave alone: all memory but the ring, the counters
-- and the place of the read counter in the region. The counters may hold anything.
use mathlib.Core.Path.{subst}
use native.Mathlib.Nat.{mod-lt}
use platform_system_libfmq.Base.{
  ℕ, ◌+◌, ◌%◌, ◌^◌, ◌<◌, ◌≤◌, ◌≡◌, ◌≢◌, ◌⊎◌, inl, inr, refl, sym, ◌∙◌, ap, some, get_elem?, u64_mod,
  mod-mod-eq-zero, arith,
}
use platform_system_libfmq.Store.{Store, update, store64}
use platform_system_libfmq.Descriptor.{GrantorDescriptor, read_ptr_pos, write_ptr_pos, data_ptr_pos}
use platform_system_libfmq.Queue.{
  MessageQueue, ring_transaction, commit_write, begin_read, commit_read,
}
use platform_system_libfmq.Queue.Invariant.{size, IsConfigured}
use platform_system_libfmq.Fuzzer.{payload_size, create_counter_ptr, get_counter_ptr, store_payload}

-- A queue of `payload_t` over a region that is mapped at `base`.
pub record IsLaid (q : MessageQueue) (base : ℕ) : Type 0 where
  pub payload : q.sizeof_t ≡ payload_size
  pub read_grantor : GrantorDescriptor
  pub write_grantor : GrantorDescriptor
  pub data_grantor : GrantorDescriptor
  pub has_read : get_elem? q.desc.grantors read_ptr_pos ≡ some read_grantor
  pub has_write : get_elem? q.desc.grantors write_ptr_pos ≡ some write_grantor
  pub has_data : get_elem? q.desc.grantors data_ptr_pos ≡ some data_grantor
  pub ring_at : q.ring ≡ base + data_grantor.offset
  pub write_at : q.write_ptr ≡ base + write_grantor.offset
  pub ring_fits : base + data_grantor.offset < u64_mod
  pub read_fits : base + read_grantor.offset < u64_mod
  pub write_fits : base + write_grantor.offset < u64_mod
  pub read_offset : read_grantor.offset < 2 ^ 32
  pub write_offset : write_grantor.offset < 2 ^ 32
  pub data_offset : data_grantor.offset < 2 ^ 32

-- The four bytes from `a` on are in the ring.
abbrev pub InRing : MessageQueue → ℕ → Type 0
InRing q a = (q.ring ≤ a) × (a + payload_size ≤ q.ring + size q)

-- No memory but the ring, the two counters of the object and one more cell has changed.
pub record Confined (q : MessageQueue) (cell : ℕ) (s t : Store) : Type 0 where
  pub bytes_kept : (a : ℕ) → (a < q.ring) ⊎ (q.ring + size q ≤ a) → t.bytes a ≡ s.bytes a
  pub cells_kept : (p : ℕ) → p ≢ q.read_ptr → p ≢ q.write_ptr → p ≢ cell → t.u64 p ≡ s.u64 p
  pub words_kept : t.u32 ≡ s.u32

pub Confined-refl : (q : MessageQueue) (cell : ℕ) (s : Store) → Confined q cell s s
Confined-refl q cell s = record {
  bytes_kept = λ a out. refl;
  cells_kept = λ p ne ne' ne''. refl;
  words_kept = refl;
}

pub Confined-trans :
    (q : MessageQueue) (cell : ℕ) (s t u : Store)
    → Confined q cell s t
    → Confined q cell t u
    → Confined q cell s u
Confined-trans q cell s t u c d = record {
  bytes_kept = λ a out. d.bytes_kept a out ∙ c.bytes_kept a out;
  cells_kept = λ p ne ne' ne''. d.cells_kept p ne ne' ne'' ∙ c.cells_kept p ne ne' ne'';
  words_kept = d.words_kept ∙ c.words_kept;
}

-- A store to one of the three cells.
abbrev pub OneOf : MessageQueue → ℕ → ℕ → Type 0
OneOf q cell p = (p ≡ q.read_ptr) ⊎ (p ≡ q.write_ptr) ⊎ (p ≡ cell)

pub store64-Confined :
    (q : MessageQueue) (cell : ℕ) (s : Store) (p v : ℕ)
    → OneOf q cell p
    → Confined q cell s (store64 s p v)
store64-Confined q cell s p v one = record {
  bytes_kept = λ a out. refl;
  cells_kept = λ p' ne ne' ne''. other p' ne ne' ne'' one;
  words_kept = refl;
}
  where
    other :
        (p' : ℕ)
        → p' ≢ q.read_ptr
        → p' ≢ q.write_ptr
        → p' ≢ cell
        → OneOf q cell p
        → update s.u64 p v p' ≡ s.u64 p'
    other p' ne ne' ne'' (inl e) = ground (arith, e, ne)
    other p' ne ne' ne'' (inr (inl e)) = ground (arith, e, ne')
    other p' ne ne' ne'' (inr (inr e)) = ground (arith, e, ne'')

-- The counter's place is found from the ring's.
pub counter_ptr_eq :
    (base start offset data_offset : ℕ)
    → start ≡ base + data_offset
    → base + data_offset < u64_mod
    → base + offset < u64_mod
    → create_counter_ptr start offset data_offset ≡ base + offset
counter_ptr_eq base start offset data_offset e fits fits' = omega (arith, e, fits, fits')

module _ {q : MessageQueue} {base : ℕ} (laid : IsLaid q base) where
  pub read_ptr_of :
      get_counter_ptr q.ring q.desc read_ptr_pos ≡ some (base + laid.read_grantor.offset)
  unfolding get_counter_ptr
  read_ptr_of =
      rw (laid.has_read, laid.has_data)
        (ap some (
          counter_ptr_eq base q.ring laid.read_grantor.offset laid.data_grantor.offset laid.ring_at
            laid.ring_fits laid.read_fits))

  pub write_ptr_of : get_counter_ptr q.ring q.desc write_ptr_pos ≡ some q.write_ptr
  unfolding get_counter_ptr
  write_ptr_of =
      rw (laid.has_write, laid.has_data)
        (ap some (
          counter_ptr_eq base q.ring laid.write_grantor.offset laid.data_grantor.offset laid.ring_at
            laid.ring_fits laid.write_fits
          ∙ sym laid.write_at))

-- A whole element at an aligned position of the ring.
pub element-InRing :
    {q : MessageQueue} (c : IsConfigured q)
    → q.sizeof_t ≡ payload_size
    → (p n : ℕ) → p % q.sizeof_t ≡ 0
    → InRing q ((ring_transaction q (p % size q) n).first.address)
unfolding ring_transaction
element-InRing {q} c four p n aligned = ground (arith, whole, at, mod-lt p c.some_room)
  where
    whole : size q % 4 ≡ 0
    whole = subst (λ (k : ℕ). size q % k ≡ 0) four c.whole

    at : p % size q % 4 ≡ 0
    at =
        subst (λ (k : ℕ). p % size q % k ≡ 0) four
          (mod-mod-eq-zero p (size q) q.sizeof_t c.whole aligned)

-- What `beginRead`, `commitRead` and `commitWrite` do to the store.
pub begin_read-Confined :
    (q : MessageQueue) (cell : ℕ) (s : Store) (n : ℕ) → Confined q cell s ((begin_read q s n).2)
unfolding begin_read
begin_read-Confined q cell s n = record {
  bytes_kept = λ a out. ground arith;
  cells_kept = λ p ne ne' ne''. ground (arith, ne);
  words_kept = ground arith;
}

pub commit_read-Confined :
    (q : MessageQueue) (cell : ℕ) (s : Store) (n : ℕ) → Confined q cell s ((commit_read q s n).1)
unfolding commit_read
commit_read-Confined q cell s n = record {
  bytes_kept = λ a out. ground arith;
  cells_kept = λ p ne ne' ne''. ground (arith, ne);
  words_kept = ground arith;
}

pub commit_write-Confined :
    (q : MessageQueue) (cell : ℕ) (s : Store) (n : ℕ) → Confined q cell s ((commit_write q s n).1)
unfolding commit_write
commit_write-Confined q cell s n = store64-Confined q cell s q.write_ptr _ (inr (inl refl))

pub store_payload-Confined :
    (q : MessageQueue) (cell : ℕ) (s : Store) (p v : ℕ)
    → InRing q p
    → Confined q cell s (store_payload s p v)
unfolding store_payload
store_payload-Confined q cell s p v inside = record {
  bytes_kept = λ a out. ground (arith, inside, out);
  cells_kept = λ p' ne ne' ne''. refl;
  words_kept = refl;
}
