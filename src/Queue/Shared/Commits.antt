-- ===== src/Queue/Shared/Commits.antt =====
-- The steps that store: a byte that the writer puts, and the two commits.
use native.Mathlib.Nat.{mul-mod_left}
use mathlib.Core.List.{append_assoc}
use mathlib.Core.Path.{subst}
use platform_system_libfmq.Base.{
  ℕ, ◌+◌, ◌-◌, ◌*◌, ◌<◌, ◌≡◌, ◌∙◌, ap, ap₂, sym, refl, ◌++◌, none, some, if◌then◌else◌, u64_mod,
  arith, length, add-mod-eq-zero, collect, collect_ext, collect-add, length-append,
}
use platform_system_libfmq.Store.{Store, store64, update}
use platform_system_libfmq.Descriptor.{synchronized_read_write}
use platform_system_libfmq.Queue.{MessageQueue, commit_write, commit_read}
use platform_system_libfmq.Queue.Invariant.{
  size, read_counter, write_counter, stored_bytes, IsConfigured, ring_byte, contents,
}
use platform_system_libfmq.Queue.Shared.{Held, Shared, add_byte, next_byte}
use platform_system_libfmq.Queue.Shared.Bytes.{InFlight, InFlight-kept, InFlight-add_byte}
use platform_system_libfmq.Queue.Shared.Moves.{
  IsConsistent, put, old_byte, new_byte, committed_write, committed_read,
}

-- What holds of the transaction held holds of any name for it.
pub held_is : (P : Held → Type 0) {h h' : Held} → P h → some h ≡ some h' → P h'
held_is P p e = subst P (cc e) p

module _ {q : MessageQueue} (c : IsConfigured q) (sync : q.flavor ≡ synchronized_read_write)
    {origin : ℕ} {x : Shared} (v : IsConsistent q origin x) where
  open v use {synced, account, stream, writing, reading}

  abbrev r : ℕ
  r = read_counter q x.store

  abbrev w : ℕ
  w = write_counter q x.store

  pub put-IsConsistent :
      {h : Held} (b : ℕ) (held : x.writer ≡ some h) (lt : length h.moved < h.n * q.sizeof_t)
      → IsConsistent q origin (record x {
        store = record x.store { bytes = update x.store.bytes (next_byte q h) b };
        writer = some (add_byte h b);
      })
  put-IsConsistent {h} b held lt = record {
    synced = record {
      aligned = record {
        read_aligned = synced.read_aligned;
        write_aligned = synced.write_aligned;
        read_fits = synced.read_fits;
        write_fits = synced.write_fits;
      };
      behind = synced.behind;
      no_overrun = synced.no_overrun;
    };
    account = account;
    stream =
        stream
        ∙ ap (λ bs. x.received ++ bs)
            (collect_ext _ _ r r (stored_bytes q x.store) λ i lt'.
              sym (old_byte c sync v held lt b (r + i) (omega arith) (omega (arith, lt'))));
    writing = λ h' e.
        held_is (InFlight q (put c sync v held lt b) w (r + size q))
          (InFlight-add_byte c synced.write_aligned (writing h held) b lt
            (λ i lt'.
              old_byte c sync v held lt b (w + i) (omega (arith, synced.behind)) (omega arith))
            (new_byte c sync v held lt b))
          e;
    reading = λ h' e. InFlight-kept c synced.read_aligned (reading h' e) (omega arith) (λ i lt'.
        old_byte c sync v held lt b (r + i) (omega arith)
          (omega (arith, (reading h' e).inside, (reading h' e).progress)));
  }

  -- The counters after a commit of the writer, or of the reader.
  after_write :
      (k : ℕ)
      → (read_counter q (store64 x.store q.write_ptr k) ≡ r)
        × (write_counter q (store64 x.store q.write_ptr k) ≡ k)
  after_write k = (ground (arith, c.counters), ground arith)

  after_read :
      (k : ℕ)
      → (read_counter q (store64 x.store q.read_ptr k) ≡ k)
        × (write_counter q (store64 x.store q.read_ptr k) ≡ w)
  after_read k = (ground arith, ground (arith, c.counters))

  module _ {h : Held} (held : x.writer ≡ some h) (all : length h.moved ≡ h.n * q.sizeof_t) where
    open (writing h held) use {inside, same}

    abbrev w' : ℕ
    w' = w + h.n * q.sizeof_t

    abbrev sent_store : Store
    sent_store = store64 x.store q.write_ptr w'

    sent_appended : contents q sent_store ≡ contents q x.store ++ h.moved
    sent_appended =
        ap₂ (collect (ring_byte q x.store.bytes)) (after_write w').0
          (omega (arith, after_write w', synced.behind))
        ∙ collect-add _ r (stored_bytes q x.store) (h.n * q.sizeof_t)
        ∙ ap (λ bs. contents q x.store ++ bs)
            (ap₂ (collect (ring_byte q x.store.bytes)) (omega (arith, synced.behind)) (sym all)
              ∙ same)

    pub end_writing-IsConsistent :
        origin + length (x.sent ++ h.moved) < u64_mod
        → IsConsistent q origin (record x {
          store = (commit_write q x.store h.n).1;
          writer = none;
          sent = x.sent ++ h.moved;
        })
    end_writing-IsConsistent budget =
        rw (committed_write c sync v h (omega (arith, no_wrap))) (record {
          synced = record {
            aligned = record {
              read_aligned = rw (after_write w').0 synced.read_aligned;
              write_aligned =
                  rw (after_write w').1
                    (add-mod-eq-zero _ _ _ synced.write_aligned (mul-mod_left h.n q.sizeof_t));
              read_fits = rw (after_write w').0 synced.read_fits;
              write_fits = rw (after_write w').1 no_wrap;
            };
            behind = omega (arith, after_write w', synced.behind);
            no_overrun = omega (arith, after_write w', inside);
          };
          account = omega (arith, after_write w', account, all, length-append x.sent h.moved);
          stream =
              ap (λ bs. bs ++ h.moved) stream
              ∙ append_assoc x.received (contents q x.store) h.moved
              ∙ ap (λ bs. x.received ++ bs) (sym sent_appended);
          writing = λ h' e. absurd (cc e);
          reading = λ h' e. rw (after_write w').0 (
              InFlight-kept c synced.read_aligned (reading h' e) (omega (arith, after_write w'))
                (λ i lt. refl));
        })
      where
        no_wrap : w' < u64_mod
        no_wrap = omega (arith, account, all, length-append x.sent h.moved)

  module _ {h : Held} (held : x.reader ≡ some h) (all : length h.moved ≡ h.n * q.sizeof_t) where
    open (reading h held) use {inside, same}

    abbrev r' : ℕ
    r' = r + h.n * q.sizeof_t

    abbrev received_store : Store
    received_store = store64 x.store q.read_ptr r'

    received_split : contents q x.store ≡ h.moved ++ contents q received_store
    received_split =
        ap (collect (ring_byte q x.store.bytes) r) (omega (arith, inside))
        ∙ collect-add _ r (h.n * q.sizeof_t) (stored_bytes q x.store - h.n * q.sizeof_t)
        ∙ ap₂ ◌++◌ (ap (collect (ring_byte q x.store.bytes) r) (sym all) ∙ same) (
            ap₂ (collect (ring_byte q x.store.bytes)) (sym (after_read r').0)
              (omega (arith, after_read r')))

    pub end_reading-IsConsistent : IsConsistent q origin (record x {
      store = (commit_read q x.store h.n).1;
      reader = none;
      received = if (commit_read q x.store h.n).0 then x.received ++ h.moved else x.received;
    })
    end_reading-IsConsistent = rw (committed_read c sync v h inside) (record {
      synced = record {
        aligned = record {
          read_aligned =
              rw (after_read r').0
                (add-mod-eq-zero _ _ _ synced.read_aligned (mul-mod_left h.n q.sizeof_t));
          write_aligned = rw (after_read r').1 synced.write_aligned;
          read_fits = omega (arith, after_read r', inside, synced.write_fits);
          write_fits = rw (after_read r').1 synced.write_fits;
        };
        behind = omega (arith, after_read r', inside);
        no_overrun = omega (arith, after_read r', synced.no_overrun);
      };
      account = (after_read r').1 ∙ account;
      stream =
          stream
          ∙ ap (λ bs. x.received ++ bs) received_split
          ∙ sym (append_assoc x.received h.moved _);
      writing = λ h' e. rw (after_read r').1 (
          InFlight-kept c synced.write_aligned (writing h' e) (omega (arith, after_read r'))
            (λ i lt. refl));
      reading = λ h' e. absurd (cc e);
    })
