-- ===== src/Queue/Shared/Steps.antt =====
-- Every step of the two sides keeps the queue consistent.
use platform_system_libfmq.Base.{
  ℕ, ◌+◌, ◌*◌, ◌≤◌, ◌<◌, ◌≡◌, ap, sym, refl, Option, none, some, u64_mod, arith, length,
}
use platform_system_libfmq.Descriptor.{synchronized_read_write}
use platform_system_libfmq.Queue.{MessageQueue}
use platform_system_libfmq.Queue.Invariant.{size, read_counter, write_counter, IsConfigured}
use platform_system_libfmq.Queue.Shared.{
  Held, Shared, Step, FitsStep, begin_writing, put_byte, end_writing, drop_writing, begin_reading,
  fail_reading, take_byte, end_reading, drop_reading, add_byte, next_byte,
}
use platform_system_libfmq.Queue.Shared.Bytes.{InFlight, next_byte-position, InFlight-add_byte}
use platform_system_libfmq.Queue.Shared.Moves.{IsConsistent, begun_write, begun_read, failed_read}
use platform_system_libfmq.Queue.Shared.Commits.{
  held_is, put-IsConsistent, end_writing-IsConsistent, end_reading-IsConsistent,
}

module _ {q : MessageQueue} (c : IsConfigured q) (sync : q.flavor ≡ synchronized_read_write)
    {origin : ℕ} {x : Shared} (v : IsConsistent q origin x) where
  open v use {synced, account, stream, writing, reading}

  abbrev r : ℕ
  r = read_counter q x.store

  abbrev w : ℕ
  w = write_counter q x.store

  -- The other steps leave the store as it is.
  with_writer :
      (o : Option Held)
      → ((h : Held) → o ≡ some h → InFlight q x.store.bytes w (r + size q) h)
      → IsConsistent q origin (record x { writer = o })
  with_writer o f = record {
    synced = synced;
    account = account;
    stream = stream;
    writing = f;
    reading = reading;
  }

  with_reader :
      (o : Option Held)
      → ((h : Held) → o ≡ some h → InFlight q x.store.bytes r w h)
      → IsConsistent q origin (record x { reader = o })
  with_reader o f = record {
    synced = synced;
    account = account;
    stream = stream;
    writing = writing;
    reading = f;
  }

  take-InFlight :
      {h : Held}
      → x.reader ≡ some h
      → length h.moved < h.n * q.sizeof_t
      → InFlight q x.store.bytes r w (add_byte h (x.store.bytes (next_byte q h)))
  take-InFlight {h} held lt =
      InFlight-add_byte c synced.read_aligned (reading h held) _ lt (λ i lt'. refl)
        (ap x.store.bytes (sym (next_byte-position c synced.read_aligned (reading h held) lt room)))
    where
      room : h.n * q.sizeof_t ≤ size q
      room = omega (arith, (reading h held).inside, synced.no_overrun)

  -- Each step, as long as the write counter does not wrap.
  pub Step-IsConsistent :
      {y : Shared} (st : Step q x y)
      → FitsStep q st
      → origin + length y.sent < u64_mod
      → IsConsistent q origin y
  Step-IsConsistent (begin_writing n idle e) fit budget =
      with_writer _
        (λ h'. held_is (InFlight q x.store.bytes w (r + size q)) (begun_write c sync v n e))
  Step-IsConsistent (put_byte b held lt) fit budget = put-IsConsistent c sync v b held lt
  Step-IsConsistent (end_writing held all) fit budget =
      end_writing-IsConsistent c sync v held all budget
  Step-IsConsistent drop_writing fit budget = with_writer none λ h' e. absurd (cc e)
  Step-IsConsistent (begin_reading n idle e) fits budget =
      rw (begun_read c sync v n fits e).0 (
        with_reader _ λ h'. held_is (InFlight q x.store.bytes r w) (begun_read c sync v n fits e).1)
  Step-IsConsistent (fail_reading n idle e) fit budget =
      rw (failed_read c sync v n e) (with_reader x.reader reading)
  Step-IsConsistent (take_byte held lt) fit budget =
      with_reader _ λ h'. held_is (InFlight q x.store.bytes r w) (take-InFlight held lt)
  Step-IsConsistent (end_reading held all) fit budget = end_reading-IsConsistent c sync v held all
  Step-IsConsistent drop_reading fit budget = with_reader none λ h' e. absurd (cc e)
