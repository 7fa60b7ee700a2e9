-- ===== src/Dispatcher/Backoff.antt =====
-- The bounds of `computeBackoff` (dispatcher.go), by the order of the float64 numbers.
use sundial.Base.{
  ℕ, ◌+◌, ◌/◌, ◌≤◌, ◌^◌, ◌≡◌, subst, inl, inr, ℤ, pos, negsuc, ◌≤ℤ◌, ◌+ℤ◌, ltb_ℤ, false,
  if◌then◌else◌, arith, Bool-cases,
}
use sundial.Job.{Float, RetryPolicy}
use sundial.Dispatcher.Execute.{compute_backoff}

-- What IEEE 754 and Go's conversions say of float64, as far as `computeBackoff` relies on it.
pub record FloatLaws {F : Type 0} (fl : Float F) : Type 1 where
  -- `a <= b`, which is false of a NaN.
  pub le : F → F → Type 0
  pub gt_le : (a b : F) → le a a → le b b → fl.gt_float a b ≡ false → le a b
  pub of_int_le : (m n : ℤ) → m ≤ℤ n → le (fl.of_int m) (fl.of_int n)
  pub zero_int : fl.of_int (pos 0) ≡ fl.zero_float
  pub le_self : (a : F) → le fl.zero_float a → le a a
  -- A positive int64 times a power of a number that is not negative.
  pub grow :
      (m n : ℤ) (b : F)
      → pos 1 ≤ℤ m
      → le fl.zero_float b
      → le fl.zero_float (fl.mul_float (fl.of_int m) (fl.pow_float b (fl.of_int n)))
  pub jitter_low : (r : F) → le fl.zero_float r → le fl.zero_float (fl.add_float fl.half r)
  pub jitter_high :
      (r : F)
      → le r (fl.of_int (pos 1))
      → le (fl.add_float fl.half r) (fl.add_float fl.half (fl.of_int (pos 1)))
  pub times_low :
      (a c : F) (m : ℤ)
      → le fl.zero_float a
      → le a (fl.of_int m)
      → le fl.zero_float c
      → le c (fl.add_float fl.half (fl.of_int (pos 1)))
      → le fl.zero_float (fl.mul_float a c)
  pub times_high :
      (a c : F) (m : ℤ)
      → le fl.zero_float a
      → le a (fl.of_int m)
      → le fl.zero_float c
      → le c (fl.add_float fl.half (fl.of_int (pos 1)))
      → le
          (fl.mul_float a c)
          (fl.mul_float (fl.of_int m) (fl.add_float fl.half (fl.of_int (pos 1))))
  -- Up to 2 ^ 53 integers are exact, and one and a half of one is off by at most one.
  pub duration_bounds :
      (a : F) (m : ℕ)
      → m ≤ 2 ^ 53
      → le fl.zero_float a
      → le a (fl.mul_float (fl.of_int (pos m)) (fl.add_float fl.half (fl.of_int (pos 1))))
      → (pos 0 ≤ℤ fl.to_duration a) × (fl.to_duration a ≤ℤ pos (m + m / 2 + 1))

module _ {F : Type 0} (fl : Float F) (laws : FloatLaws fl) where
  open fl use {zero_float, half, gt_float, add_float, mul_float, pow_float, of_int}
  open laws use {le}

  -- The clamp.
  clamped :
      (m : ℤ) (grown : F)
      → pos 0 ≤ℤ m
      → le zero_float grown
      → let base = (if gt_float grown (of_int m) then of_int m else grown) in
        le zero_float base × le base (of_int m)
  clamped m grown h g =
      let low = subst (λ z. le z (of_int m)) laws.zero_int (laws.of_int_le (pos 0) m h) in
      elim (Bool-cases (gt_float grown (of_int m))) [
        | inl e ↦ rw (e, if◌then◌else◌) (low, laws.le_self (of_int m) low)
        | inr e ↦
            rw (e, if◌then◌else◌)
              (
                g,
                laws.gt_le grown (of_int m) (laws.le_self grown g) (laws.le_self (of_int m) low) e,
              )
      ]

  -- By the laws of float64, for a policy whose initial backoff is positive, whose multiplier is not
  -- negative, and whose longest backoff is `m` nanoseconds, at most 2 ^ 53: whatever the attempt and
  -- the random number in [0, 1], the wait is not negative, and is at most one and a half times `m`,
  -- and one nanosecond.
  pub compute_backoff_bounds :
      (p : RetryPolicy F) (attempt : ℤ) (random : F) (m : ℕ)
      → p.max_backoff ≡ pos m
      → m ≤ 2 ^ 53
      → pos 1 ≤ℤ p.initial_backoff
      → le zero_float p.multiplier
      → le zero_float random
      → le random (of_int (pos 1))
      → (pos 0 ≤ℤ compute_backoff fl p attempt random)
        × (compute_backoff fl p attempt random ≤ℤ pos (m + m / 2 + 1))
  unfolding compute_backoff
  compute_backoff_bounds p attempt random m e few first mult low high =
      let n = (if ltb_ℤ attempt (pos 1) then pos 1 else attempt) +ℤ negsuc 0 in
      let jitter = add_float half random in
      let (a, b) =
        clamped (pos m) _ (omega arith) (laws.grow p.initial_backoff n p.multiplier first mult) in
      let c = laws.jitter_low random low in
      let d = laws.jitter_high random high in
      rw e (
        laws.duration_bounds _ m few (laws.times_low _ jitter (pos m) a b c d)
          (laws.times_high _ jitter (pos m) a b c d))
