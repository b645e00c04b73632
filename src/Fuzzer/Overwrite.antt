-- ===== src/Fuzzer/Overwrite.antt =====
-- What the fuzzer's overwriting of a counter changes: one cell, and the data that is left.
use platform_system_libfmq.Base.{
  ℕ, ◌≤◌, ◌≡◌, inl, inr, refl, Bool, true, false, Bool-cases, Option, some, ◌==◌, arith,
}
use platform_system_libfmq.Store.{Store, store64}
use platform_system_libfmq.Queue.{MessageQueue}
use platform_system_libfmq.Fuzzer.{Provider, overwrite_counter}
use platform_system_libfmq.Fuzzer.Loops.{IsProvider}
use platform_system_libfmq.Fuzzer.Confined.{OneOf, Confined, Confined-refl, store64-Confined}

module _ (provider : Provider) (p : IsProvider provider) where
  open provider use {Data, remaining_bytes, consume_integral_in_range, consume_integral}

  pub overwritten :
      (q : MessageQueue) (cell : ℕ) (user_fd : Bool) (counter : Option ℕ) (ptr : ℕ) (d : Data)
      (s : Store)
      → counter ≡ some ptr
      → OneOf q cell ptr
      → (d' : Data) × (s' : Store) × (overwrite_counter provider user_fd counter d s
          ≡ some (d', s'))
        × (remaining_bytes d' ≤ remaining_bytes d)
        × Confined q cell s s'
  unfolding overwrite_counter
  overwritten q cell true counter ptr d s e one = (d, s, refl, omega arith, Confined-refl q cell s)
  overwritten q cell false counter ptr d s e one =
      elim (Bool-cases ((consume_integral 1 d).0 == 1)) [
        | inl chosen ↦ (
          (consume_integral 8 ((consume_integral 1 d).1)).1,
          store64 s ptr ((consume_integral 8 ((consume_integral 1 d).1)).0),
          rw (chosen, e) refl,
          omega
              (arith, p.integral_adds_none 1 d, p.integral_adds_none 8 ((consume_integral 1 d).1)),
          store64-Confined q cell s ptr ((consume_integral 8 ((consume_integral 1 d).1)).0) one,
        )
        | inr other ↦ (
          (consume_integral 1 d).1,
          s,
          rw other refl,
          p.integral_adds_none 1 d,
          Confined-refl q cell s,
        )
      ]
