-- ===== src/Aidl/Shares.antt =====
-- Objects over one ring: what two queue objects have in common whose descriptors stand for the same
-- open files.
use mathlib.Core.Path.{subst}
use platform_system_libfmq.Base.{
  ℕ, zero, suc, ◌+◌, ◌-◌, ◌^◌, ◌<◌, ◌≡◌, ◌≢◌, ◌∙◌, ap, ap₂, sym, inl, inr, refl, List, [], ◌∷◌,
  Bool, true, false, Option, none, some, get_elem?, Bool-cases, ◌==◌, collect, collect_ext, ◌%◌,
}
use platform_system_libfmq.Store.{Store, nullptr}
use platform_system_libfmq.Descriptor.{
  synchronized_read_write, NativeHandle, GrantorDescriptor, Descriptor, get_size, get_quantum,
}
use platform_system_libfmq.Queue.{MessageQueue, is_valid}
use platform_system_libfmq.Queue.Invariant.{size, contents, ring_byte, read_counter}
use platform_system_libfmq.Setup.{Vm, map_grantor_descr}
use platform_system_libfmq.Setup.Located.{
  Locates, map_grantor_descr-located, map_grantor_descr-found,
}
use platform_system_libfmq.Setup.Lifecycle.{unset, init_memory, open_queue, reset_counters}
use platform_system_libfmq.Setup.Lifecycle.Valid.{
  IsMapped-IsPlaced, init_memory_valid, is_valid-pointers,
}
use platform_system_libfmq.Aidl.{Files}
use platform_system_libfmq.Aidl.Duplicates.{Dups, Open}
use platform_system_libfmq.Aidl.RoundTrip.{IsSigned, AreSigned, without_flags}

-- Two objects over one ring and one pair of counters.
pub record Shares (q q' : MessageQueue) : Type 0 where
  pub same_reader : q.read_ptr ≡ q'.read_ptr
  pub same_writer : q.write_ptr ≡ q'.write_ptr
  pub same_ring : q.ring ≡ q'.ring
  pub same_size : size q ≡ size q'
  pub same_element : q.sizeof_t ≡ q'.sizeof_t

get_elem-AreSigned :
    (gs : List GrantorDescriptor) (i : ℕ) (g : GrantorDescriptor)
    → AreSigned gs
    → get_elem? gs i ≡ some g
    → IsSigned g
get_elem-AreSigned [] i g h e = absurd (cc e)
get_elem-AreSigned (g' ∷ gs) zero g h e = subst IsSigned (cc e) h.0
get_elem-AreSigned (g' ∷ gs) (suc i) g h e = get_elem-AreSigned gs i g h.1 e

get_elem-without_flags :
    (gs : List GrantorDescriptor) (i : ℕ) (g : GrantorDescriptor)
    → get_elem? gs i ≡ some g
    → get_elem? (without_flags gs) i ≡ some (record g { flags = 0 })
get_elem-without_flags [] i g e = absurd (cc e)
get_elem-without_flags (g' ∷ gs) zero g e =
    ap (λ o. elim o [ none ↦ none | some x ↦ some (record x { flags = 0 }) ]) e
get_elem-without_flags (g' ∷ gs) (suc i) g e = get_elem-without_flags gs i g e

get_size-without_flags :
    (d : Descriptor) (h : Option NativeHandle)
    → get_size (record d { grantors = without_flags d.grantors; handle = h }) ≡ get_size d
unfolding get_size
get_size-without_flags d h = extent_at d.grantors
  where
    extent_at :
        (gs : List GrantorDescriptor)
        → get_size (record d { grantors = without_flags gs; handle = h })
          ≡ get_size (record d { grantors = gs })
    extent_at [] = refl
    extent_at (a ∷ []) = refl
    extent_at (a ∷ b ∷ []) = refl
    extent_at (a ∷ b ∷ g ∷ gs) = refl

-- Two objects that share a ring hold the same bytes.
Shares-contents : {q q' : MessageQueue} (s : Store) → Shares q q' → contents q s ≡ contents q' s
Shares-contents {q} {q'} s e =
    ap₂ (collect (ring_byte q s.bytes)) (ap s.u64 e.same_reader)
      (ap₂ ◌-◌ (ap s.u64 e.same_writer) (ap s.u64 e.same_reader))
    ∙ collect_ext _ _ _ _ _
        λ i lt. ap₂ (λ r n. s.bytes (r + (read_counter q' s + i) % n)) e.same_ring e.same_size

module _ (files : Files) (dups : Dups files) (vm : Vm) (locates : Locates vm)
    (by_file : (fd fd' file : ℕ) (w w' : files.World)
      → dups.refers fd w ≡ some file
      → dups.refers fd' w' ≡ some file
      → locates.base fd ≡ locates.base fd') where
  -- Descriptors for the same open files, place by place, give the same memory.
  Open-base :
      (fds fds' fs : List ℕ) (w w' : files.World) (i fd fd' : ℕ)
      → Open files dups fds fs w
      → Open files dups fds' fs w'
      → get_elem? fds i ≡ some fd
      → get_elem? fds' i ≡ some fd'
      → locates.base fd ≡ locates.base fd'
  Open-base [] fds' fs w w' i fd fd' o o' e e' = absurd (cc e)
  Open-base (x ∷ fds) [] fs w w' i fd fd' o o' e e' = absurd (cc e')
  Open-base (x ∷ fds) (y ∷ fds') [] w w' i fd fd' o o' e e' = absurd o
  Open-base (x ∷ fds) (y ∷ fds') (f ∷ fs) w w' zero fd fd' o o' e e' =
      by_file fd fd' f w w' (subst (λ z. dups.refers z w ≡ some f) (cc e) o.0)
        (subst (λ z. dups.refers z w' ≡ some f) (cc e') o'.0)
  Open-base (x ∷ fds) (y ∷ fds') (f ∷ fs) w w' (suc i) fd fd' o o' e e' =
      Open-base fds fds' fs w w' i fd fd' o.1 o'.1 e e'

  module _ (d : Descriptor) (h h' : NativeHandle) (fs : List ℕ) (w w' : files.World)
      (handle : d.handle ≡ some h) (signed : AreSigned d.grantors) (o : Open files dups h.fds fs w)
      (o' : Open files dups h'.fds fs w') where
    abbrev d' : Descriptor
    d' = record d { grantors = without_flags d.grantors; handle = some h' }

    -- Where both objects map a grantor, they map the same location.
    same_place :
        (i : ℕ) (v v' : vm.World)
        → (map_grantor_descr vm synchronized_read_write d i v).0 ≢ nullptr
        → (map_grantor_descr vm synchronized_read_write d' i v').0 ≢ nullptr
        → (map_grantor_descr vm synchronized_read_write d' i v').0
          ≡ (map_grantor_descr vm synchronized_read_write d i v).0
    same_place i v v' ne ne' =
        let (k, g, fd, has, grantor, file) = map_grantor_descr-found vm locates _ d i v ne in
        let (k', g', fd', has', grantor', file') =
          map_grantor_descr-found vm locates _ d' i v' ne' in
        let same_g : g' ≡ record g { flags = 0 } =
          cc (get_elem-without_flags d.grantors i g grantor, grantor') in
        let same_index : g.fd_index ≡ g'.fd_index =
          ap (λ (x : GrantorDescriptor). x.fd_index) (sym same_g) in
        let same_h' : h' ≡ k' = cc has' in
        let same_h : h ≡ k = cc (handle, has) in
        let fits : g.offset < 2 ^ 31 =
          (get_elem-AreSigned d.grantors i g signed grantor).offset_fits in
        map_grantor_descr-located vm locates _ d' i v' k' g' fd' has' grantor' file'
          (subst (λ (x : GrantorDescriptor). x.offset < 2 ^ 31) (sym same_g) fits) ne'
        ∙ ap₂ ◌+◌
            (Open-base h'.fds h.fds fs w' w g.fd_index fd' fd o' o
              (ap₂ (λ (l : NativeHandle) (j : ℕ). get_elem? l.fds j) same_h' same_index ∙ file')
              (ap (λ (l : NativeHandle). get_elem? l.fds g.fd_index) same_h ∙ file))
            (ap (λ (x : GrantorDescriptor). x.offset) same_g)
        ∙ sym (map_grantor_descr-located vm locates _ d i v k g fd has grantor file fits ne)

    -- Two valid objects, of any two calls of `initMemory`.
    made-Shares :
        (reset reset' : Bool) (sizeof_t sizeof_t' : ℕ) (s s' : Store) (v v' : vm.World)
        → is_valid (init_memory vm reset (unset synchronized_read_write sizeof_t d) s v).0 ≡ true
        → is_valid (init_memory vm reset' (unset synchronized_read_write sizeof_t' d') s' v').0
          ≡ true
        → Shares
            (init_memory vm reset' (unset synchronized_read_write sizeof_t' d') s' v').0
            (init_memory vm reset (unset synchronized_read_write sizeof_t d) s v).0
    unfolding get_quantum
    made-Shares reset reset' sizeof_t sizeof_t' s s' v v' valid valid' =
        let m = init_memory_valid vm reset synchronized_read_write sizeof_t d s v valid in
        let m' = init_memory_valid vm reset' synchronized_read_write sizeof_t' d' s' v' valid' in
        let p = IsMapped-IsPlaced vm reset synchronized_read_write sizeof_t d s v m in
        let p' = IsMapped-IsPlaced vm reset' synchronized_read_write sizeof_t' d' s' v' m' in
        let set = is_valid-pointers _ valid in
        let set' = is_valid-pointers _ valid' in
        record {
          same_reader =
              p'.reader_at
              ∙ same_place 0 _ _ (λ e. set.1 (p.reader_at ∙ e)) (λ e. set'.1 (p'.reader_at ∙ e))
              ∙ sym p.reader_at;
          same_writer =
              p'.writer_at
              ∙ same_place 1 _ _ (λ e. set.2 (p.writer_at ∙ e)) (λ e. set'.2 (p'.writer_at ∙ e))
              ∙ sym p.writer_at;
          same_ring =
              p'.ring_at
              ∙ same_place 2 _ _ (λ e. set.0 (p.ring_at ∙ e)) (λ e. set'.0 (p'.ring_at ∙ e))
              ∙ sym p.ring_at;
          same_size =
              ap get_size p'.same_desc
              ∙ get_size-without_flags d (some h')
              ∙ ap get_size (sym p.same_desc);
          same_element = p'.same_size ∙ sym m'.quantum ∙ m.quantum ∙ sym p.same_size;
        }

    -- `MessageQueueBase`'s constructor from the descriptor `d'`, without a reset of the pointers.
    pub opened-Shares :
        (reset : Bool) (sizeof_t : ℕ) (s s' : Store) (v v' : vm.World)
        → let q = (init_memory vm reset (unset synchronized_read_write sizeof_t d) s v).0 in
          let opened = open_queue vm synchronized_read_write sizeof_t d' false s' v' in
          is_valid q ≡ true
          → is_valid opened.0 ≡ true
          → Shares opened.0 q × (opened.1 ≡ s') × (contents opened.0 opened.1 ≡ contents q s')
    unfolding open_queue is_valid reset_counters
    opened-Shares reset sizeof_t s s' v v' valid = elim (Bool-cases (get_size d' == 0)) [
      | inl empty ↦ rw (open_queue, empty) λ no. cc
      | inr full ↦
          rw (open_queue, full)
            λ valid'.
              let shares = made-Shares reset false sizeof_t sizeof_t s s' v v' valid valid' in
              let kept =
                (init_memory_valid vm false synchronized_read_write sizeof_t d' s' v'
                  valid').store in
              (shares, kept, rw kept (Shares-contents s' shares))
    ]
