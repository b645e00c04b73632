-- ===== src/Fuzzer/Input/Grantors.antt =====
-- The grantors that the fuzzer makes up (`getAidlDesc`) fit the region of one page that it maps.
use platform_system_libfmq.Base.{
  ℕ, zero, suc, ◌+◌, ◌≤◌, ◌≡◌, inl, inr, refl, ap, List, [], ◌∷◌, length, Bool-cases, Option, none,
  some, ◌>>=◌, ltb, ℤ, pos, negsuc, arith,
}
use platform_system_libfmq.Aidl.{AidlGrantor}
use platform_system_libfmq.Fuzzer.{Provider}
use platform_system_libfmq.Fuzzer.Input.{custom_aidl_grantors}

-- The offset and the extent of each grantor are not negative, and together not above the page size.
abbrev FitPage : ℕ → List AidlGrantor → Type 0
FitPage page_size [] = Unit
FitPage page_size (g ∷ gs) =
    ((offset : ℕ) × (extent : ℕ) × (g.offset ≡ pos offset)
      × (g.extent ≡ pos extent)
      × (offset + extent ≤ page_size))
    × FitPage page_size gs

abbrev Fitting : ℕ → ℕ → Option (List AidlGrantor) → Type 0
Fitting page_size n none = Unit
Fitting page_size n (some gs) = (length gs ≡ n) × FitPage page_size gs

one_more :
    (page_size n offset extent : ℕ) (fd_index : ℤ) (rest : Option (List AidlGrantor))
    → offset + extent ≤ page_size
    → Fitting page_size n rest
    → Fitting page_size (suc n) (
        rest >>= λ gs.
        some (record { fd_index = fd_index; offset = pos offset; extent = pos extent } ∷ gs))
one_more page_size n offset extent fd_index none fits rest = tt
one_more page_size n offset extent fd_index (some gs) fits (e, fit) =
    (ap suc e, ((offset, extent, refl, refl, fits), fit))

module _ (provider : Provider) (page_size : ℕ) where
  open provider use {Data, consume_signed_in_range, consume_integral_in_range}

  -- Whatever the input is: if the loop over the grantors ends, then there are as many as asked for, and
  -- each fits the page.
  custom_aidl_grantors_fit :
      (n : ℕ) (d : Data) → Fitting page_size n ((custom_aidl_grantors provider page_size n d).0)
  unfolding custom_aidl_grantors
  custom_aidl_grantors_fit zero d = (refl, tt)
  custom_aidl_grantors_fit (suc n) d =
      let (fd_index, d1) = consume_signed_in_range (negsuc 1) (pos 2) d in
      let (offset, d2) = consume_integral_in_range 0 page_size d1 in
      let (extent, d3) = consume_integral_in_range 0 page_size d2 in
      elim (Bool-cases (ltb page_size (offset + extent))) [
        | inl e ↦ rw e tt
        | inr e ↦ rw e (
            one_more page_size n offset extent fd_index
              ((custom_aidl_grantors provider page_size n d3).0) (ground (arith, e))
              (custom_aidl_grantors_fit n d3))
      ]
