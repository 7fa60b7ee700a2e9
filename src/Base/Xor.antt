-- ===== src/Base/Xor.antt =====
-- Exclusive or on numbers, digit by digit: what Go's `^` on an unsigned integer relies on.
use Prim.Native.Nat.{
  ℕ, zero, suc, ◌+◌, ◌*◌, ◌/◌, ◌%◌, ◌^◌, ◌≤◌, ◌<◌, bit_xor, digits, differ, bit_xor-bitwise,
}
use mathlib.Core.Path.{◌≡◌, refl}
use native.Mathlib.Omega.{arith}

abbrev xor_on : ℕ → ℕ → ℕ → ℕ
xor_on n a b = digits (λ c. c) differ n a b

-- Digits to go beyond those of the first number change nothing.
spare_digits : (n m a b : ℕ) → a ≤ n → a ≤ m → xor_on n a b ≡ xor_on m a b
spare_digits zero zero a b p q = refl
spare_digits zero (suc m) zero b p q = refl
spare_digits zero (suc m) (suc a) b p q = absurd (omega arith)
spare_digits (suc n) zero zero b p q = refl
spare_digits (suc n) zero (suc a) b p q = absurd (omega arith)
spare_digits (suc n) (suc m) zero b p q = refl
spare_digits (suc n) (suc m) (suc a) b p q =
    omega (arith, spare_digits n m (suc a / 2) (b / 2) (omega arith) (omega arith))

differ-mod : (x y : ℕ) → x < 2 → y < 2 → differ x y ≡ (x + y) % 2
differ-mod zero zero p q = refl
differ-mod zero (suc zero) p q = refl
differ-mod (suc zero) zero p q = refl
differ-mod (suc zero) (suc zero) p q = refl
differ-mod x (suc (suc y)) p q = absurd (omega arith)
differ-mod (suc (suc x)) y p q = absurd (omega arith)

zero_xor : (b : ℕ) → bit_xor 0 b ≡ b
zero_xor b = bit_xor-bitwise 0 b

xor_step : (a b : ℕ) → bit_xor a b ≡ bit_xor (a / 2) (b / 2) * 2 + (a % 2 + b % 2) % 2
xor_step zero b = omega (arith, zero_xor b, zero_xor (b / 2))
xor_step (suc a) b = omega (
  arith,
  bit_xor-bitwise (suc a) b,
  bit_xor-bitwise (suc a / 2) (b / 2),
  spare_digits a (suc a / 2) (suc a / 2) (b / 2) (omega arith) (omega arith),
  differ-mod (suc a % 2) (b % 2) (omega arith) (omega arith),
)

left_within : (n a b c : ℕ) → a ≤ n → b ≤ n → bit_xor a c ≡ bit_xor b c → a ≡ b
left_within zero a b c p q e = omega arith
left_within (suc n) a b c p q e =
    let halves =
      left_within n (a / 2) (b / 2) (c / 2) (omega arith) (omega arith)
        (omega (arith, xor_step a c, xor_step b c)) in
    omega (arith, xor_step a c, xor_step b c)

-- A number is fixed by its exclusive or with another.
pub xor_left : (a b c : ℕ) → bit_xor a c ≡ bit_xor b c → a ≡ b
xor_left a b c e = left_within (a + b) a b c (omega arith) (omega arith) e

right_within : (n h a b : ℕ) → h ≤ n → bit_xor h a ≡ bit_xor h b → a ≡ b
right_within zero zero a b p e = omega (arith, zero_xor a, zero_xor b)
right_within zero (suc h) a b p e = absurd (omega arith)
right_within (suc n) h a b p e =
    let halves =
      right_within n (h / 2) (a / 2) (b / 2) (omega arith)
        (omega (arith, xor_step h a, xor_step h b)) in
    omega (arith, xor_step h a, xor_step h b)

pub xor_right : (h a b : ℕ) → bit_xor h a ≡ bit_xor h b → a ≡ b
xor_right h a b e = right_within h h a b (omega arith) e

pub xor_bound : (k a b : ℕ) → a < 2 ^ k → b < 2 ^ k → bit_xor a b < 2 ^ k
xor_bound zero zero zero p q = omega (arith, zero_xor 0)
xor_bound zero (suc a) b p q = absurd (omega arith)
xor_bound zero a (suc b) p q = absurd (omega arith)
xor_bound (suc k) a b p q =
    omega (arith, xor_step a b, xor_bound k (a / 2) (b / 2) (omega arith) (omega arith))
