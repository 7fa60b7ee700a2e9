-- ===== src/Base/Decimal.antt =====
-- `fmt.Sprintf("%d", n)` of a number that is not negative: its decimal digits.
use sundial.Base.{
  ℕ, zero, suc, ◌+◌, ◌-◌, ◌*◌, ◌/◌, ◌%◌, ◌<◌, ◌≡◌, refl, ap, sym, ◌∙◌, ltb, if◌then◌else◌, [], ◌∷◌,
  ◌++◌, Text, Bool-cases, inl, inr, arith,
}

decimal_from : ℕ → ℕ → Text
decimal_from zero n = []
decimal_from (suc f) n =
    let longer = decimal_from f (n / 10) ++ (48 + n % 10) ∷ [] in
    if ltb n 10 then (48 + n) ∷ [] else longer

unfoldable pub decimal : ℕ → Text
unfolding decimal_from
decimal n = decimal_from (suc n) n

-- The number that a text of digits stands for.
value_from : ℕ → Text → ℕ
value_from acc [] = acc
value_from acc (c ∷ cs) = value_from (acc * 10 + (c - 48)) cs

value-snoc :
    (acc : ℕ) (cs : Text) (c : ℕ)
    → value_from acc (cs ++ c ∷ []) ≡ value_from acc cs * 10 + (c - 48)
unfolding value_from
value-snoc acc [] c = refl
value-snoc acc (d ∷ cs) c = value-snoc (acc * 10 + (d - 48)) cs c

value-decimal_from : (f n : ℕ) → n < f → value_from 0 (decimal_from f n) ≡ n
unfolding value_from decimal_from
value-decimal_from zero n h = absurd (omega arith)
value-decimal_from (suc f) n h = elim (Bool-cases (ltb n 10)) [
  | inl e ↦ rw (e, if◌then◌else◌) (omega arith)
  | inr e ↦
      rw
        (
          e,
          if◌then◌else◌,
          value-snoc 0 (decimal_from f (n / 10)) (48 + n % 10),
          value-decimal_from f (n / 10) (ground arith),
        )
        (omega arith)
]

-- Different numbers are printed differently.
pub decimal_inj : (m n : ℕ) → decimal m ≡ decimal n → m ≡ n
unfolding decimal
decimal_inj m n h =
    sym (value-decimal_from (suc m) m (omega arith))
    ∙ ap (value_from 0) h
    ∙ value-decimal_from (suc n) n (omega arith)
