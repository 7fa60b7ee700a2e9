-- ===== src/Storage/Memory/Fetch.antt =====
-- What FetchDue of MemoryStorage (storage.go) returns.
use sundial.Base.{
  zero, suc, pos, negsuc, ◌<ℤ◌, ltb_ℤ, text_lt, ◌⊎◌, [], ◌∷◌, ap, sym, ℕ, ◌≤◌, ◌≡◌, refl, inl, inr,
  false, List, Perm, if◌then◌else◌, arith, All, ◌≤ℤ◌, ℤ, Bool-cases, length, take, length-take-le,
  ltb,
}
use sundial.Base.Sort.{
  insertion_sort, insertion_sort-perm, insertion_sort-IsSorted, insertion_sort-All, IsSorted,
}
use sundial.Errors.{ok}
use sundial.Clock.{Time, after}
use sundial.Storage.Types.{DueJob}
use sundial.Storage.Laws.{IsDue, IsLimit}
use sundial.Storage.Memory.{
  MemJob, MemoryStorage, collect_due, due_gt, effective_limit, fetch_due, find_id,
}
use sundial.Storage.Memory.Rows.{IsWf}
use sundial.Storage.Memory.Claim.{view}
use sundial.Storage.Memory.Due.{
  due_gt_asymm, due_gt_trans, take-All, take-IsSorted, view_rows, rows_found, collect-IsDue,
}

-- The rows before the limit is applied.
abbrev pub sorted_due : Time → MemoryStorage → List DueJob
sorted_due now m = insertion_sort due_gt (collect_due now m.jobs)

abbrev cut : ℕ → List DueJob → List DueJob
cut n out = if ltb n (length out) then take n out else out

-- What a list of due rows must satisfy.
pub record IsFetch (now : Time) (limit : ℤ) (m : MemoryStorage) (ds : List DueJob) : Type 0 where
  pub due : All (IsDue now (view m)) ds
  pub ordered : IsSorted due_gt ds
  pub within : length ds ≤ effective_limit limit

pub cut-All : (P : DueJob → Type 0) (n : ℕ) (out : List DueJob) → All P out → All P (cut n out)
cut-All P n out h = elim (Bool-cases (ltb n (length out))) [
  | inl e ↦ rw (e, if◌then◌else◌) (take-All P n out h)
  | inr e ↦ rw (e, if◌then◌else◌) h
]

cut-IsSorted : (n : ℕ) (out : List DueJob) → IsSorted due_gt out → IsSorted due_gt (cut n out)
cut-IsSorted n out h = elim (Bool-cases (ltb n (length out))) [
  | inl e ↦ rw (e, if◌then◌else◌) (take-IsSorted n out h)
  | inr e ↦ rw (e, if◌then◌else◌) h
]

length-cut-le : (n : ℕ) (out : List DueJob) → length (cut n out) ≤ n
length-cut-le n out = ground (arith, length-take-le n out)

sorted_due-IsDue :
    (now : Time) (m : MemoryStorage) → IsWf m → All (IsDue now (view m)) (sorted_due now m)
unfolding view
sorted_due-IsDue now m w = insertion_sort-All due_gt (IsDue now (view m)) (collect_due now m.jobs) (
    collect-IsDue now (view m) m.jobs
      (view_rows (λ i. find_id i m.jobs) m.jobs (rows_found m.jobs w.ids_distinct)))

pub fetch_due-IsFetch :
    (now : Time) (limit : ℤ) (m : MemoryStorage)
    → IsWf m
    → (ds : List DueJob) × (fetch_due now limit m ≡ (ok ds, m)) × IsFetch now limit m ds
unfolding fetch_due
fetch_due-IsFetch now limit m w = (
  cut (effective_limit limit) (sorted_due now m),
  refl,
  record {
    due = cut-All _ (effective_limit limit) (sorted_due now m) (sorted_due-IsDue now m w);
    ordered =
        cut-IsSorted (effective_limit limit) (sorted_due now m)
          (insertion_sort-IsSorted due_gt due_gt_asymm due_gt_trans (collect_due now m.jobs));
    within = length-cut-le (effective_limit limit) (sorted_due now m);
  },
)

-- A due row shows the fields of a stored one.
abbrev pub Shows : MemJob → DueJob → Type 0
Shows j d =
    (d.id ≡ j.id)
    × (d.name ≡ j.name)
    × (d.next_fire_time ≡ j.next_fire_time)
    × (d.schedule_expr ≡ j.schedule)
    × (d.schedule_kind ≡ j.schedule_kind)

-- The due rows that show the stored rows whose fire time is not after `now`, and no other.
pub data Collects (now : Time) : List MemJob → List DueJob → Type 0 where
  all_seen : Collects now [] []
  due_row :
      {j : MemJob} {js : List MemJob} {d : DueJob} {ds : List DueJob}
      → j.next_fire_time ≤ℤ now
      → Shows j d
      → Collects now js ds
      → Collects now (j ∷ js) (d ∷ ds)
  later_row :
      {j : MemJob} {js : List MemJob} {ds : List DueJob}
      → now <ℤ j.next_fire_time
      → Collects now js ds
      → Collects now (j ∷ js) ds

-- An earlier row, or one of the same time whose name is not greater.
abbrev pub Precedes : DueJob → DueJob → Type 0
Precedes a b =
    (a.next_fire_time <ℤ b.next_fire_time)
    ⊎ ((a.next_fire_time ≡ b.next_fire_time) × (text_lt b.name a.name ≡ false))

abbrev pub InOrder : List DueJob → Type 0
InOrder [] = Unit
InOrder (d ∷ ds) = All (Precedes d) ds × InOrder ds

collect_due-Collects : (now : Time) (js : List MemJob) → Collects now js (collect_due now js)
unfolding collect_due
collect_due-Collects now [] = all_seen
collect_due-Collects now (j ∷ js) =
    let rest = collect_due-Collects now js in
    elim (Bool-cases (after j.next_fire_time now)) [
      | inl e ↦ rw (e, if◌then◌else◌) (later_row (ground (arith, e)) rest)
      | inr e ↦
          rw (e, if◌then◌else◌) (due_row (ground (arith, e)) (refl, refl, refl, refl, refl) rest)
    ]

due_gt-Precedes : (a b : DueJob) → due_gt a b ≡ false → Precedes a b
unfolding due_gt
due_gt-Precedes a b h = elim (Bool-cases (ltb_ℤ a.next_fire_time b.next_fire_time)) [
  | inl e ↦ inl (ground (arith, e))
  | inr e ↦ inr (ground (arith, e, h), ground (arith, e, h))
]

all_precede :
    (a : DueJob) (ds : List DueJob) → All (λ b. due_gt a b ≡ false) ds → All (Precedes a) ds
all_precede a [] h = tt
all_precede a (b ∷ ds) h = (due_gt-Precedes a b h.0, all_precede a ds h.1)

sorted-InOrder : (ds : List DueJob) → IsSorted due_gt ds → InOrder ds
sorted-InOrder [] h = tt
sorted-InOrder (d ∷ ds) h = (all_precede d ds h.0, sorted-InOrder ds h.1)

effective_limit-IsLimit : (limit : ℤ) → IsLimit limit (effective_limit limit)
unfolding effective_limit
effective_limit-IsLimit (pos zero) = inr (omega arith, refl)
effective_limit-IsLimit (pos (suc n)) = inl (omega arith, ground arith)
effective_limit-IsLimit (negsuc n) = inr (omega arith, ground arith)

take-few : (n : ℕ) (xs : List DueJob) → length xs ≤ n → take n xs ≡ xs
take-few zero [] h = refl
take-few zero (x ∷ xs) h = absurd (omega arith)
take-few (suc n) [] h = refl
take-few (suc n) (x ∷ xs) h = ap (λ ys. x ∷ ys) (take-few n xs (omega arith))

cut-take : (n : ℕ) (out : List DueJob) → cut n out ≡ take n out
cut-take n out = elim (Bool-cases (ltb n (length out))) [
  | inl e ↦ rw (e, if◌then◌else◌) refl
  | inr e ↦ rw (e, if◌then◌else◌) (sym (take-few n out (ground (arith, e))))
]

-- FetchDue does not fail and changes nothing; it returns the first `limit` (32, if that is not
-- positive) of the rows that show, each once, the stored rows whose fire time is not after `now`, in
-- the order of their fire times and, among equal ones, of their names.
pub fetch_due_lem :
    (now : Time) (limit : ℤ) (m : MemoryStorage)
    → (found ordered : List DueJob) × (n : ℕ) × Collects now m.jobs found
      × Perm ordered found
      × InOrder ordered
      × IsLimit limit n
      × (fetch_due now limit m ≡ (ok (take n ordered), m))
unfolding fetch_due
fetch_due_lem now limit m = (
  collect_due now m.jobs,
  sorted_due now m,
  effective_limit limit,
  collect_due-Collects now m.jobs,
  insertion_sort-perm due_gt (collect_due now m.jobs),
  sorted-InOrder (sorted_due now m)
      (insertion_sort-IsSorted due_gt due_gt_asymm due_gt_trans (collect_due now m.jobs)),
  effective_limit-IsLimit limit,
  ap (λ ds. (ok ds, m)) (cut-take (effective_limit limit) (sorted_due now m)),
)
