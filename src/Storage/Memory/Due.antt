-- ===== src/Storage/Memory/Due.antt =====
-- FetchDue of MemoryStorage (storage.go).
use sundial.Base.{
  ℕ, zero, suc, ◌≡◌, ◌≢◌, ap, inl, inr, true, false, not, List, [], ◌∷◌, Option, none, some, Text,
  text_eq_iff, text_lt_asymm, text_le_trans, if◌then◌else◌, arith, All, Bool-cases, take,
}
use sundial.Base.Sort.{IsSorted}
use sundial.Clock.{Time, after}
use sundial.Storage.Types.{DueJob}
use sundial.Storage.Laws.{IsDue}
use sundial.Storage.Memory.{MemJob, collect_due, due_gt, find_id}
use sundial.Storage.Memory.Rows.{IsDistinct, ids, names}

pub due_gt_asymm : (a b : DueJob) → due_gt a b ≡ true → due_gt b a ≡ false
unfolding due_gt
due_gt_asymm a b h = ground (arith, text_lt_asymm b.name a.name)

pub due_gt_trans : (a b c : DueJob) → due_gt a b ≡ false → due_gt b c ≡ false → due_gt a c ≡ false
unfolding due_gt
due_gt_trans a b c h k = ground (arith, text_le_trans a.name b.name c.name)

-- The row of an id that only one row has.
abbrev pub fire_of : Option MemJob → Option Time
fire_of none = none
fire_of (some j) = some j.next_fire_time

pub take-All : (P : DueJob → Type 0) (n : ℕ) (xs : List DueJob) → All P xs → All P (take n xs)
take-All P zero xs h = tt
take-All P (suc n) [] h = tt
take-All P (suc n) (x ∷ xs) h = (h.0, take-All P n xs h.1)

pub take-IsSorted : (n : ℕ) (xs : List DueJob) → IsSorted due_gt xs → IsSorted due_gt (take n xs)
take-IsSorted zero xs h = tt
take-IsSorted (suc n) [] h = tt
take-IsSorted (suc n) (x ∷ xs) h =
    (take-All (λ y. due_gt x y ≡ false) n xs h.0, take-IsSorted n xs h.1)

module _ (now : Time) where
  pub collect-IsDue :
      (v : Text → Option Time) (js : List MemJob)
      → All (λ j. v j.id ≡ some j.next_fire_time) js
      → All (IsDue now v) (collect_due now js)
  unfolding collect_due
  collect-IsDue v [] h = tt
  collect-IsDue v (j ∷ js) h = elim (Bool-cases (not (after j.next_fire_time now))) [
    | inl e ↦ rw (e, if◌then◌else◌) ((h.0, ground arith), collect-IsDue v js h.1)
    | inr e ↦ rw (e, if◌then◌else◌) (collect-IsDue v js h.1)
  ]

found_later :
    (j : MemJob) (all js : List MemJob)
    → All (λ i. j.id ≢ i) (ids js)
    → All (λ y. find_id y.id all ≡ some y) js
    → All (λ y. find_id y.id (j ∷ all) ≡ some y) js
unfolding find_id
found_later j all [] d h = tt
found_later j all (y ∷ js) d h =
    (ground (arith, text_eq_iff j.id y.id), found_later j all js d.1 h.1)

-- Where ids are distinct, an id finds its row.
pub rows_found : (js : List MemJob) → IsDistinct (ids js) → All (λ j. find_id j.id js ≡ some j) js
unfolding find_id
rows_found [] d = tt
rows_found (j ∷ js) d =
    (ground (arith, text_eq_iff j.id j.id), found_later j js js d.0 (rows_found js d.1))

pub view_rows :
    (v : Text → Option MemJob) (js : List MemJob)
    → All (λ j. v j.id ≡ some j) js
    → All (λ j. fire_of (v j.id) ≡ some j.next_fire_time) js
view_rows v [] h = tt
view_rows v (j ∷ js) h = (ap fire_of h.0, view_rows v js h.1)

-- No row has the name.
abbrev pub IsAbsent : Text → List MemJob → Type 0
IsAbsent n js = All (λ k. n ≢ k) (names js)

pub collect-named :
    (n : Text) (now : Time) (js : List MemJob)
    → IsAbsent n js
    → All (λ d. n ≢ d.name) (collect_due now js)
unfolding collect_due
collect-named n now [] h = tt
collect-named n now (j ∷ js) h = elim (Bool-cases (not (after j.next_fire_time now))) [
  | inl e ↦ rw (e, if◌then◌else◌) (h.0, collect-named n now js h.1)
  | inr e ↦ rw (e, if◌then◌else◌) (collect-named n now js h.1)
]
