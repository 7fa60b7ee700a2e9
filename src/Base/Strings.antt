-- ===== src/Base/Strings.antt =====
-- Go strings as lists of bytes: `==` and `<` compare byte by byte.
use Prim.Native.Nat.{ℕ}
use Prim.Native.Char.{code}
use Prim.Native.String.{String}
use mathlib.Core.Path.{◌≡◌, refl}
use mathlib.Core.Logic.{◌↔◌, inl, inr}
use mathlib.Core.Bool.{Bool, true, false}
use mathlib.Core.List.{List, [], ◌∷◌}
use native.Mathlib.Omega.{arith}
use sundial.Base.Tests.{ltb, ◌==◌, if◌then◌else◌, Bool-cases}

abbrev pub Text : Type 0
Text = List ℕ

-- The bytes of an ASCII literal.
abbrev pub text : String → Text
text String.[] = []
text (String.◌∷◌ c s) = code c ∷ text s

unfoldable pub text_eq : Text → Text → Bool
text_eq [] [] = true
text_eq [] (y ∷ ys) = false
text_eq (x ∷ xs) [] = false
text_eq (x ∷ xs) (y ∷ ys) = if x == y then text_eq xs ys else false

unfoldable pub text_lt : Text → Text → Bool
text_lt [] [] = false
text_lt [] (y ∷ ys) = true
text_lt (x ∷ xs) [] = false
text_lt (x ∷ xs) (y ∷ ys) = if ltb x y then true else if x == y then text_lt xs ys else false

pub text_eq→eq : (s t : Text) → text_eq s t ≡ true → s ≡ t
unfolding text_eq
text_eq→eq [] [] h = refl
text_eq→eq [] (y ∷ ys) h = cc
text_eq→eq (x ∷ xs) [] h = cc
text_eq→eq (x ∷ xs) (y ∷ ys) h = ground (arith, text_eq→eq xs ys)

pub text_eq_refl : (s : Text) → text_eq s s ≡ true
unfolding text_eq
text_eq_refl [] = refl
text_eq_refl (x ∷ xs) = ground (arith, text_eq_refl xs)

pub text_eq_iff : (s t : Text) → (text_eq s t ≡ true) ↔ (s ≡ t)
text_eq_iff s t = (text_eq→eq s t, λ e. rw e (text_eq_refl t))

pub text_lt_irrefl : (s : Text) → text_lt s s ≡ false
unfolding text_lt
text_lt_irrefl [] = refl
text_lt_irrefl (x ∷ xs) = ground (arith, text_lt_irrefl xs)

pub text_lt_asymm : (s t : Text) → text_lt s t ≡ true → text_lt t s ≡ false
unfolding text_lt
text_lt_asymm [] [] h = cc
text_lt_asymm [] (y ∷ ys) h = refl
text_lt_asymm (x ∷ xs) [] h = cc
text_lt_asymm (x ∷ xs) (y ∷ ys) h = ground (arith, text_lt_asymm xs ys)

pub text_lt_trans : (s t u : Text) → text_lt s t ≡ true → text_lt t u ≡ true → text_lt s u ≡ true
unfolding text_lt
text_lt_trans [] [] u h k = cc
text_lt_trans (x ∷ xs) [] u h k = cc
text_lt_trans [] (y ∷ ys) [] h k = cc
text_lt_trans [] (y ∷ ys) (z ∷ zs) h k = refl
text_lt_trans (x ∷ xs) (y ∷ ys) [] h k = cc
text_lt_trans (x ∷ xs) (y ∷ ys) (z ∷ zs) h k = ground (arith, text_lt_trans xs ys zs)

pub text_lt_total : (s t : Text) → text_lt s t ≡ false → text_lt t s ≡ false → s ≡ t
unfolding text_lt
text_lt_total [] [] h k = refl
text_lt_total [] (y ∷ ys) h k = cc
text_lt_total (x ∷ xs) [] h k = cc
text_lt_total (x ∷ xs) (y ∷ ys) h k = ground (arith, text_lt_total xs ys)

-- The order `≤` that `text_lt` gives is transitive.
pub text_le_trans : (s t u : Text) → text_lt t s ≡ false → text_lt u t ≡ false → text_lt u s ≡ false
text_le_trans s t u h k = elim (Bool-cases (text_lt u s)) [
  | inr e ↦ e
  | inl e ↦ elim (Bool-cases (text_lt t u)) [
    | inl f ↦ cc (text_lt_trans t u s f e)
    | inr f ↦ cc (text_lt_total t u f k)
  ]
]
