-- ===== src/Storage/Postgres/Key.antt =====
-- The advisory key of a job (storage.go): FNV-1a over the bytes of its id, as an int64.
use sundial.Base.{
  ℕ, ◌*◌, ◌%◌, ◌^◌, ◌<◌, ◌≡◌, ◌≢◌, refl, sym, ◌∙◌, pos, ◌≤ℤ◌, [], ◌∷◌, ◌++◌, Text, All, arith,
}
use sundial.Base.Xor.{xor_left, xor_right, xor_bound}
use sundial.Clock.{wrap64, min_duration, max_duration}
use sundial.Storage.Postgres.{advisory_key, fnv_step, fnv_from}

-- Every number of the text is a byte.
abbrev pub IsBytes : Text → Type 0
IsBytes = All (λ c. c < 256)

odd_times :
    (x y : ℕ)
    → x < 2 ^ 64
    → y < 2 ^ 64
    → x * 0x100000001b3 % 2 ^ 64 ≡ y * 0x100000001b3 % 2 ^ 64
    → x ≡ y
odd_times x y p q e = omega arith

wrap64_inj : (x y : ℕ) → x < 2 ^ 64 → y < 2 ^ 64 → wrap64 (pos x) ≡ wrap64 (pos y) → x ≡ y
unfolding wrap64
wrap64_inj x y p q e = ground arith

fnv_step_bound : (h b : ℕ) → fnv_step h b < 2 ^ 64
fnv_step_bound h b = omega arith

-- A step forgets neither the hash so far nor the byte.
fnv_step_hash :
    (h k b : ℕ) → h < 2 ^ 64 → k < 2 ^ 64 → b < 256 → fnv_step h b ≡ fnv_step k b → h ≡ k
fnv_step_hash h k b p q r e =
    xor_left h k b
      (odd_times _ _ (xor_bound 64 h b p (omega arith)) (xor_bound 64 k b q (omega arith)) e)

fnv_step_byte : (h a b : ℕ) → h < 2 ^ 64 → a < 256 → b < 256 → fnv_step h a ≡ fnv_step h b → a ≡ b
fnv_step_byte h a b p q r e =
    xor_right h a b
      (odd_times _ _ (xor_bound 64 h a p (omega arith)) (xor_bound 64 h b p (omega arith)) e)

fnv_from_bound : (h : ℕ) (bs : Text) → h < 2 ^ 64 → fnv_from h bs < 2 ^ 64
unfolding fnv_from
fnv_from_bound h [] p = p
fnv_from_bound h (b ∷ bs) p = fnv_from_bound (fnv_step h b) bs (fnv_step_bound h b)

fnv_from_hash :
    (h k : ℕ) (bs : Text)
    → h < 2 ^ 64
    → k < 2 ^ 64
    → IsBytes bs
    → fnv_from h bs ≡ fnv_from k bs
    → h ≡ k
unfolding fnv_from
fnv_from_hash h k [] p q r e = e
fnv_from_hash h k (b ∷ bs) p q r e =
    fnv_step_hash h k b p q r.0 (
      fnv_from_hash (fnv_step h b) (fnv_step k b) bs (fnv_step_bound h b) (fnv_step_bound k b) r.1
        e)

fnv_from-++ : (h : ℕ) (xs ys : Text) → fnv_from h (xs ++ ys) ≡ fnv_from (fnv_from h xs) ys
unfolding fnv_from
fnv_from-++ h [] ys = refl
fnv_from-++ h (x ∷ xs) ys = fnv_from-++ (fnv_step h x) xs ys

-- Two ids that differ in one byte have different advisory keys, whatever bytes stand before and
-- after it.
pub one_byte_apart :
    (before after : Text) (a b : ℕ)
    → IsBytes after
    → a < 256
    → b < 256
    → a ≢ b
    → advisory_key (before ++ a ∷ after) ≢ advisory_key (before ++ b ∷ after)
unfolding advisory_key fnv_from
one_byte_apart before after a b p q r ne e =
    let h = fnv_from 0xcbf29ce484222325 before in
    let hb = fnv_from_bound 0xcbf29ce484222325 before (omega arith) in
    let left = fnv_step_bound h a in
    let right = fnv_step_bound h b in
    let whole : fnv_from (fnv_step h a) after ≡ fnv_from (fnv_step h b) after =
      sym (fnv_from-++ 0xcbf29ce484222325 before (a ∷ after))
      ∙ wrap64_inj _ _ (fnv_from_bound _ (before ++ a ∷ after) (omega arith))
          (fnv_from_bound _ (before ++ b ∷ after) (omega arith)) e
      ∙ fnv_from-++ 0xcbf29ce484222325 before (b ∷ after) in
    ne (fnv_step_byte h a b hb q r (fnv_from_hash _ _ after left right p whole))

-- Every advisory key is an int64.
pub advisory_key_bounds :
    (id : Text) → (min_duration ≤ℤ advisory_key id) × (advisory_key id ≤ℤ max_duration)
unfolding advisory_key wrap64
advisory_key_bounds id = (ground arith, ground arith)
