-- ===== src/Fuzzer/Counters.antt =====
-- Where the fuzzer finds the counters from an AIDL descriptor: at the same places as from the descriptor
-- that it was made of.
use mathlib.Core.Option
use platform_system_libfmq.Base.{
  ℕ, zero, suc, ◌+◌, ◌^◌, ◌<◌, ◌≡◌, sym, ◌∙◌, ap, List, [], ◌∷◌, some, get_elem?, arith,
}
use platform_system_libfmq.Descriptor.{
  GrantorDescriptor, read_ptr_pos, write_ptr_pos, data_ptr_pos, int32, uint32,
}
use platform_system_libfmq.Queue.{MessageQueue}
use platform_system_libfmq.Aidl.{AidlDescriptor}
use platform_system_libfmq.Aidl.Convert.{to_aidl_grantor, to_aidl_grantors}
use platform_system_libfmq.Fuzzer.{get_aidl_counter_ptr}
use platform_system_libfmq.Fuzzer.Confined.{IsLaid, counter_ptr_eq}

uint32-int32 : (n : ℕ) → n < 2 ^ 32 → uint32 (int32 n) ≡ n
uint32-int32 n fits = ground arith

get_elem?-to_aidl_grantors :
    (gs : List GrantorDescriptor) (i : ℕ) (g : GrantorDescriptor)
    → get_elem? gs i ≡ some g
    → get_elem? (to_aidl_grantors gs) i ≡ some (to_aidl_grantor g)
get_elem?-to_aidl_grantors [] i g e = cc e
get_elem?-to_aidl_grantors (h ∷ gs) zero g e = ap (Option.map to_aidl_grantor) e
get_elem?-to_aidl_grantors (h ∷ gs) (suc i) g e = get_elem?-to_aidl_grantors gs i g e

module _ {q : MessageQueue} {base : ℕ} (laid : IsLaid q base) (a : AidlDescriptor)
    (converted : a.grantors ≡ to_aidl_grantors q.desc.grantors) where
  found :
      (i : ℕ) (g : GrantorDescriptor)
      → get_elem? q.desc.grantors i ≡ some g
      → get_elem? a.grantors i ≡ some (to_aidl_grantor g)
  found i g e =
      ap (λ gs. get_elem? gs i) converted ∙ get_elem?-to_aidl_grantors q.desc.grantors i g e

  counter_at :
      (i : ℕ) (g : GrantorDescriptor)
      → get_elem? q.desc.grantors i ≡ some g
      → g.offset < 2 ^ 32
      → base + g.offset < 2 ^ 64
      → get_aidl_counter_ptr q.ring a i ≡ some (base + g.offset)
  unfolding get_aidl_counter_ptr
  counter_at i g e fits fits' =
      rw (found i g e, found data_ptr_pos laid.data_grantor laid.has_data)
        (ap some (
          rw (uint32-int32 g.offset fits, uint32-int32 laid.data_grantor.offset laid.data_offset)
            (counter_ptr_eq base q.ring g.offset laid.data_grantor.offset laid.ring_at
              laid.ring_fits fits')))

  pub aidl_read_ptr_of :
      get_aidl_counter_ptr q.ring a read_ptr_pos ≡ some (base + laid.read_grantor.offset)
  aidl_read_ptr_of =
      counter_at read_ptr_pos laid.read_grantor laid.has_read laid.read_offset laid.read_fits

  pub aidl_write_ptr_of : get_aidl_counter_ptr q.ring a write_ptr_pos ≡ some q.write_ptr
  aidl_write_ptr_of =
      counter_at write_ptr_pos laid.write_grantor laid.has_write laid.write_offset laid.write_fits
      ∙ ap some (sym laid.write_at)
