-- ===== src/Examples/Waits.antt =====
-- A test of the waits between attempts, with numbers for floats.
use sundial.Base.{ℕ, zero, suc, pos_part, ◌+ℤ◌, ◌+◌, ◌*◌, ◌/◌, ◌≤◌, ◌≡◌, refl, pos, ◌≤ℤ◌, arith}
use sundial.Dispatcher.Execute.{compute_backoff}
use sundial.Dispatcher.Backoff.{FloatLaws, compute_backoff_bounds}
use sundial.Examples.{floats, good}

times_le : (a c m : ℕ) → a ≤ m → c ≤ 1 → a * c ≤ m * 1
times_le a zero m h k = omega arith
times_le a (suc zero) m h k = omega arith
times_le a (suc (suc c)) m h k = absurd (omega arith)

floats_lawful : FloatLaws floats
floats_lawful = record {
  le = λ a b. a ≤ b;
  gt_le = λ a b h k e. ground arith;
  of_int_le = λ m n h. ground arith;
  zero_int = refl;
  le_self = λ a h. omega arith;
  grow = λ m n b h k. omega arith;
  jitter_low = λ r h. omega arith;
  jitter_high = λ r h. omega arith;
  times_low = λ a c m h k l o. omega arith;
  times_high = λ a c m h k l o. times_le a c (pos_part m) k o;
  duration_bounds = λ a m few h k. (omega arith, omega arith);
}

-- The waits after the first attempt and after the ninth, at the middle of the range.
first_wait : compute_backoff floats good.options.retry (pos 1) 1 ≡ pos 5
unfolding compute_backoff ◌+ℤ◌
first_wait = refl

ninth_wait : compute_backoff floats good.options.retry (pos 9) 1 ≡ pos 9
unfolding compute_backoff ◌+ℤ◌
ninth_wait = refl

compute_backoff_bounds_example :
    (pos 0 ≤ℤ compute_backoff floats good.options.retry (pos 9) 1)
    × (compute_backoff floats good.options.retry (pos 9) 1 ≤ℤ pos (9 + 9 / 2 + 1))
unfolding floats_lawful
compute_backoff_bounds_example =
    compute_backoff_bounds floats floats_lawful good.options.retry (pos 9) 1 9 refl (omega arith)
      (omega arith) (omega arith) (omega arith) (omega arith)
