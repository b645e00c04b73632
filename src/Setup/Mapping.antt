-- ===== src/Setup/Mapping.antt =====
-- `unmapGrantorDescr` undoes `mapGrantorDescr`.
use platform_system_libfmq.Base.{
  ℕ, ◌+◌, ◌-◌, ◌≡◌, ◌≢◌, ◌⊎◌, inl, inr, refl, ap, ◌∙◌, Bool, true, false, ◌&&◌, ◌||◌, not, List,
  Option, none, some, get_elem?, Bool-cases, ltb, ◌==◌, arith,
}
use platform_system_libfmq.Store.{nullptr}
use platform_system_libfmq.Descriptor.{
  MqFlavor, GrantorDescriptor, Descriptor, is_aligned_to_word_boundary, int32_max, int32,
}
use platform_system_libfmq.Queue.{is_synchronized}
use platform_system_libfmq.Setup.{
  Vm, Mapped, mapped, map_failed, eperm, extents_suffice, in_page, map_offset, map_length, map_area,
  map_grantor, map_grantor_descr, unmap_grantor_descr,
}

pub option-cases {ℓ} : {A : Type ℓ} (x : Option A) → (x ≡ none) ⊎ ((a : A) × (x ≡ some a))
option-cases none = inl refl
option-cases (some a) = inr (a, refl)

Mapped-cases : (x : Mapped) → ((a : ℕ) × (x ≡ mapped a)) ⊎ ((e : ℕ) × (x ≡ map_failed e))
Mapped-cases (mapped a) = inl (a, refl)
Mapped-cases (map_failed e) = inr (e, refl)

module _ (vm : Vm) where
  -- A call of `mmap` for the area of a grantor that handed back the address `base`.
  abbrev pub Mmaps : GrantorDescriptor → ℕ → ℕ → vm.World → Type 0
  Mmaps g fd base w' =
      (writable : Bool) × (v : vm.World) × (vm.mmap writable (map_length vm g) fd
          (int32 (map_offset vm g)) v
        ≡ (mapped base, w'))

  module _ (flavor : MqFlavor) (g : GrantorDescriptor) (fd : ℕ) (w : vm.World) where
    abbrev first : Mapped × vm.World
    first = vm.mmap true (map_length vm g) fd (int32 (map_offset vm g)) w

    abbrev area : Mapped × vm.World
    area = map_area vm flavor (map_length vm g) fd (int32 (map_offset vm g)) w

    area_first : (base : ℕ) → first.0 ≡ mapped base → area ≡ (mapped base, first.1)
    unfolding map_area
    area_first base e = rw (map_area, e) refl

    area_second :
        (errno : ℕ)
        → first.0 ≡ map_failed errno
        → errno == eperm && not (is_synchronized flavor) ≡ true
        → area ≡ vm.mmap false (map_length vm g) fd (int32 (map_offset vm g)) first.1
    unfolding map_area
    area_second errno e retry = rw (map_area, e, retry) refl

    area_failed :
        (errno : ℕ)
        → first.0 ≡ map_failed errno
        → errno == eperm && not (is_synchronized flavor) ≡ false
        → area ≡ (map_failed errno, first.1)
    unfolding map_area
    area_failed errno e final = rw (map_area, e, final) refl

    area-Mmaps : (base : ℕ) → area.0 ≡ mapped base → Mmaps g fd base area.1
    area-Mmaps base = elim (Mapped-cases first.0) [
      | inl (b, e) ↦ rw (area_first b e) λ ok. (true, w, ap (λ m. (m, first.1)) (e ∙ ok))
      | inr (errno, e) ↦ elim (Bool-cases (errno == eperm && not (is_synchronized flavor))) [
        | inl retry ↦ rw (area_second errno e retry) λ ok. (
          false,
          first.1,
          ap (λ m. (m, (vm.mmap false (map_length vm g) fd (int32 (map_offset vm g)) first.1).1))
              ok,
        )
        | inr final ↦ rw (area_failed errno e final) λ ok. cc
      ]
    ]

    module _ (grantors : List GrantorDescriptor) where
      abbrev bad : Bool
      bad =
          not (is_aligned_to_word_boundary g.offset)
          || not (extents_suffice 0 grantors)
          || ltb (int32_max - vm.page_size) g.extent

      abbrev placed : ℕ × vm.World
      placed = map_grantor vm flavor grantors g fd w

      placed-bad : bad ≡ true → placed ≡ (nullptr, w)
      unfolding map_grantor
      placed-bad e = rw (map_grantor, e) refl

      placed_failed :
          (errno : ℕ) → bad ≡ false → area.0 ≡ map_failed errno → placed ≡ (nullptr, area.1)
      unfolding map_grantor
      placed_failed errno e failed = rw (map_grantor, e, failed) refl

      placed_mapped :
          (base : ℕ) → bad ≡ false → area.0 ≡ mapped base → placed ≡ (base + in_page vm g, area.1)
      unfolding map_grantor
      placed_mapped base e ok = rw (map_grantor, e, ok) refl

      pub placed-Mmaps :
          placed.0 ≢ nullptr
          → (base : ℕ) × (placed.0 ≡ base + in_page vm g) × Mmaps g fd base placed.1
      placed-Mmaps = elim (Bool-cases bad) [
        | inl e ↦ rw (placed-bad e) λ ne. absurd (ne refl)
        | inr e ↦ elim (Mapped-cases area.0) [
          | inr (errno, failed) ↦ rw (placed_failed errno e failed) λ ne. absurd (ne refl)
          | inl (base, ok) ↦ rw (placed_mapped base e ok) λ ne. (base, refl, area-Mmaps base ok)
        ]
      ]

  module _ (flavor : MqFlavor) (d : Descriptor) (i : ℕ) (w : vm.World) where
    abbrev result : ℕ × vm.World
    result = map_grantor_descr vm flavor d i w

    -- The grantor and its file are there, or nothing is mapped.
    descr-cases :
        (result ≡ (nullptr, w))
        ⊎ ((g : GrantorDescriptor) × (fd : ℕ) × (get_elem? d.grantors i ≡ some g)
            × (result ≡ map_grantor vm flavor d.grantors g fd w))
    unfolding map_grantor_descr
    descr-cases = elim (option-cases d.handle) [
      | inl no_handle ↦ inl (rw (map_grantor_descr, no_handle) refl)
      | inr (h, handle) ↦ elim (option-cases (get_elem? d.grantors i)) [
        | inl no_grantor ↦ inl (rw (map_grantor_descr, handle, no_grantor) refl)
        | inr (g, grantor) ↦ elim (option-cases (get_elem? h.fds g.fd_index)) [
          | inl no_fd ↦ inl (rw (map_grantor_descr, handle, grantor, no_fd) refl)
          | inr (fd, found) ↦
              inr (g, fd, grantor, rw (map_grantor_descr, handle, grantor, found) refl)
        ]
      ]
    ]

    unmapped :
        (g : GrantorDescriptor) (base : ℕ)
        → get_elem? d.grantors i ≡ some g
        → base ≢ nullptr
        → (v : vm.World)
        → unmap_grantor_descr vm d (base + in_page vm g) i v ≡ vm.munmap base (map_length vm g) v
    unfolding unmap_grantor_descr
    unmapped g base e ne v =
        rw (unmap_grantor_descr, e, not_null)
          (ap (λ a. vm.munmap a (map_length vm g) v) (omega arith))
      where
        not_null : base + in_page vm g == nullptr || base + in_page vm g == in_page vm g ≡ false
        not_null = ground arith

    -- A grantor that is mapped is mapped by one call of `mmap` for its page and length, and its
    -- address is as far from the beginning of that area as the grantor is from the beginning of its
    -- page. Unmapping that address gives back exactly that area, its beginning and its length,
    -- unless the area begins at the null address.
    pub map_then_unmap :
        result.0 ≢ nullptr
        → (g : GrantorDescriptor) × (fd : ℕ) × (base : ℕ) × (get_elem? d.grantors i ≡ some g)
          × (result.0 ≡ base + in_page vm g)
          × Mmaps g fd base result.1
          × (base ≢ nullptr
              → (v : vm.World)
              → unmap_grantor_descr vm d result.0 i v ≡ vm.munmap base (map_length vm g) v)
    map_then_unmap = elim descr-cases [
      | inl e ↦ rw e λ ne. absurd (ne refl)
      | inr (g, fd, found, e) ↦ rw e λ ne.
          let (base, at, call) = placed-Mmaps flavor g fd w d.grantors ne in
          (g, fd, base, found, at, call, λ some_base v. rw at (unmapped g base found some_base v))
    ]
