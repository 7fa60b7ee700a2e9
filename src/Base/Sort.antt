-- ===== src/Base/Sort.antt =====
-- The insertion sort that `Scheduler.Jobs` (sundial.go) and `MemoryStorage.FetchDue` (storage.go)
-- write out in place: two nested loops that swap neighbours while the left one is greater.
-- The sorted part of the slice is a list from its back to its front, as the inner loop walks it.
use mathlib.Core.List.{perm_middle, reverse-cons, append-nil, reverse_perm}
use mathlib.Core.List.Perm
use sundial.Base.{
  ◌≡◌, inl, inr, Bool, true, false, List, [], ◌∷◌, ◌++◌, reverse, Perm, if◌then◌else◌, Bool-cases,
  All,
}

module _ {ℓ} {A : Type ℓ} (P : A → Type 0) where
  All-snoc : (xs : List A) (y : A) → All P xs → P y → All P (xs ++ y ∷ [])
  All-snoc [] y h p = (p, tt)
  All-snoc (x ∷ xs) y h p = (h.0, All-snoc xs y h.1 p)

  All-reverse : (xs : List A) → All P xs → All P (reverse xs)
  All-reverse [] h = tt
  All-reverse (x ∷ xs) h = rw (reverse-cons x xs) (All-snoc (reverse xs) x (All-reverse xs h.1) h.0)

module _ {ℓ} {A : Type ℓ} (gt : A → A → Bool) where
  -- `for k := i; k > 0 && out[k-1] > out[k]; k-- { swap }`, with `x` at position k.
  unfoldable pub sink : List A → A → List A
  sink [] x = x ∷ []
  sink (p ∷ ps) x = if gt p x then p ∷ sink ps x else x ∷ p ∷ ps

  -- `for i := 1; i < len(out); i++`; the first round finds nothing to its left.
  unfoldable pub sort_from : List A → List A → List A
  unfolding sink
  sort_from done [] = reverse done
  sort_from done (x ∷ rest) = sort_from (sink done x) rest

  unfoldable pub insertion_sort : List A → List A
  unfolding sort_from
  insertion_sort xs = sort_from [] xs

  -- No element is greater than one that stands behind it.
  abbrev pub IsSorted : List A → Type ℓ
  IsSorted [] = Unit
  IsSorted (x ∷ xs) = All (λ y. gt x y ≡ false) xs × IsSorted xs

  -- The same of a list that is read from its back.
  abbrev IsFalling : List A → Type ℓ
  IsFalling [] = Unit
  IsFalling (x ∷ xs) = All (λ y. gt y x ≡ false) xs × IsFalling xs

  sink-perm : (ps : List A) (x : A) → Perm (sink ps x) (x ∷ ps)
  unfolding sink
  sink-perm [] x = Perm.refl (x ∷ [])
  sink-perm (p ∷ ps) x = elim (Bool-cases (gt p x)) [
    | inl e ↦ rw e (Perm.trans (Perm.cons p (sink-perm ps x)) (Perm.swap x p ps))
    | inr e ↦ rw e (Perm.refl (x ∷ p ∷ ps))
  ]

  sort_from-perm : (done xs : List A) → Perm (sort_from done xs) (done ++ xs)
  unfolding sort_from
  sort_from-perm done [] = rw append-nil (reverse_perm done)
  sort_from-perm done (x ∷ xs) =
      Perm.trans (sort_from-perm (sink done x) xs)
        (Perm.trans (Perm.append_right xs (sink-perm done x)) (Perm.symm (perm_middle done xs)))

  -- The sort rearranges and drops nothing.
  pub insertion_sort-perm : (xs : List A) → Perm (insertion_sort xs) xs
  unfolding insertion_sort
  insertion_sort-perm xs = sort_from-perm [] xs

  All-sink : (P : A → Type 0) (ps : List A) (x : A) → P x → All P ps → All P (sink ps x)
  unfolding sink
  All-sink P [] x h hs = (h, tt)
  All-sink P (p ∷ ps) x h hs = elim (Bool-cases (gt p x)) [
    | inl e ↦ rw e (hs.0, All-sink P ps x h hs.1)
    | inr e ↦ rw e (h, hs)
  ]

  sort_from-All :
      (P : A → Type 0) (done xs : List A) → All P done → All P xs → All P (sort_from done xs)
  unfolding sort_from
  sort_from-All P done [] h k = All-reverse P done h
  sort_from-All P done (x ∷ xs) h k = sort_from-All P (sink done x) xs (All-sink P done x k.0 h) k.1

  -- What holds of every element holds of every element of the result.
  pub insertion_sort-All : (P : A → Type 0) (xs : List A) → All P xs → All P (insertion_sort xs)
  unfolding insertion_sort
  insertion_sort-All P xs h = sort_from-All P [] xs tt h

  IsSorted-snoc :
      (xs : List A) (y : A) → All (λ x. gt x y ≡ false) xs → IsSorted xs → IsSorted (xs ++ y ∷ [])
  IsSorted-snoc [] y h s = (tt, tt)
  IsSorted-snoc (x ∷ xs) y h s =
      (All-snoc (λ z. gt x z ≡ false) xs y s.0 h.0, IsSorted-snoc xs y h.1 s.1)

  reverse-IsSorted : (xs : List A) → IsFalling xs → IsSorted (reverse xs)
  reverse-IsSorted [] h = tt
  reverse-IsSorted (x ∷ xs) h = rw (reverse-cons x xs) (
      IsSorted-snoc (reverse xs) x (All-reverse (λ y. gt y x ≡ false) xs h.0)
        (reverse-IsSorted xs h.1))

  module _ (asymm : (a b : A) → gt a b ≡ true → gt b a ≡ false)
      (trans : (a b c : A) → gt a b ≡ false → gt b c ≡ false → gt a c ≡ false) where
    All-le :
        (ps : List A) (x p : A)
        → gt p x ≡ false
        → All (λ y. gt y p ≡ false) ps
        → All (λ y. gt y x ≡ false) ps
    All-le [] x p h hs = tt
    All-le (q ∷ ps) x p h hs = (trans q p x hs.0 h, All-le ps x p h hs.1)

    sink-IsFalling : (ps : List A) (x : A) → IsFalling ps → IsFalling (sink ps x)
    unfolding sink
    sink-IsFalling [] x h = (tt, tt)
    sink-IsFalling (p ∷ ps) x h = elim (Bool-cases (gt p x)) [
      | inl e ↦
          rw e (All-sink (λ y. gt y p ≡ false) ps x (asymm p x e) h.0, sink-IsFalling ps x h.1)
      | inr e ↦ rw e ((e, All-le ps x p e h.0), h)
    ]

    sort_from-IsSorted : (done xs : List A) → IsFalling done → IsSorted (sort_from done xs)
    unfolding sort_from
    sort_from-IsSorted done [] h = reverse-IsSorted done h
    sort_from-IsSorted done (x ∷ xs) h =
        sort_from-IsSorted (sink done x) xs (sink-IsFalling done x h)

    -- With a total preorder the result is in order.
    pub insertion_sort-IsSorted : (xs : List A) → IsSorted (insertion_sort xs)
    unfolding insertion_sort
    insertion_sort-IsSorted xs = sort_from-IsSorted [] xs tt
