-- ===== src/Storage/Memory/Rows.antt =====
-- The rows of MemoryStorage (storage.go): what a lookup sees after a write, and the invariant.
use sundial.Base.{
  ℕ, ◌+◌, ◌≤◌, ◌≡◌, ◌≢◌, refl, subst, sym, ◌∙◌, false, List, [], ◌∷◌, map, Option, none, some, Text,
  text_eq, text_eq_iff, if◌then◌else◌, All, arith, inl, inr, Option-cases,
}
use sundial.Base.Decimal.{decimal_inj}
use sundial.Clock.{Time}
use sundial.Job.{Job}
use sundial.Storage.Memory.{
  MemJob, MemoryStorage, new_memory_storage, find_name, find_id, set_next_fire, set_schedule,
  mem_id, ensure_job,
}

abbrev pub at_time : Time → Option MemJob → Option MemJob
at_time t none = none
at_time t (some j) = some (record j { next_fire_time = t })

pub find_id-set_next_fire :
    (i k : Text) (t : Time) (js : List MemJob)
    → find_id k (set_next_fire i t js)
      ≡ (if text_eq i k then at_time t (find_id k js) else find_id k js)
unfolding find_id set_next_fire
find_id-set_next_fire i k t [] = ground arith
find_id-set_next_fire i k t (j ∷ js) =
    ground (
      arith,
      text_eq_iff i k,
      text_eq_iff j.id i,
      text_eq_iff j.id k,
      find_id-set_next_fire i k t js,
    )

abbrev pub ids : List MemJob → List Text
ids = map λ j. j.id

abbrev pub names : List MemJob → List Text
names = map λ j. j.name

abbrev pub IsDistinct : List Text → Type 0
IsDistinct [] = Unit
IsDistinct (x ∷ xs) = All (λ y. x ≢ y) xs × IsDistinct xs

pub ids-set_next_fire :
    (i : Text) (t : Time) (js : List MemJob) → ids (set_next_fire i t js) ≡ ids js
unfolding set_next_fire
ids-set_next_fire i t [] = refl
ids-set_next_fire i t (j ∷ js) = ground (arith, ids-set_next_fire i t js)

pub names-set_next_fire :
    (i : Text) (t : Time) (js : List MemJob) → names (set_next_fire i t js) ≡ names js
unfolding set_next_fire
names-set_next_fire i t [] = refl
names-set_next_fire i t (j ∷ js) = ground (arith, names-set_next_fire i t js)

ids-set_schedule :
    (n expr kind : Text) (js : List MemJob) → ids (set_schedule n expr kind js) ≡ ids js
unfolding set_schedule
ids-set_schedule n expr kind [] = refl
ids-set_schedule n expr kind (j ∷ js) = ground (arith, ids-set_schedule n expr kind js)

names-set_schedule :
    (n expr kind : Text) (js : List MemJob) → names (set_schedule n expr kind js) ≡ names js
unfolding set_schedule
names-set_schedule n expr kind [] = refl
names-set_schedule n expr kind (j ∷ js) = ground (arith, names-set_schedule n expr kind js)

abbrev pub IsUnlocked : List MemJob → Type 0
IsUnlocked = All λ j. j.locked ≡ false

IsUnlocked-set_next_fire :
    (i : Text) (t : Time) (js : List MemJob) → IsUnlocked js → IsUnlocked (set_next_fire i t js)
unfolding set_next_fire
IsUnlocked-set_next_fire i t [] h = tt
IsUnlocked-set_next_fire i t (j ∷ js) h = ground (arith, IsUnlocked-set_next_fire i t js h.1)

IsUnlocked-set_schedule :
    (n expr kind : Text) (js : List MemJob)
    → IsUnlocked js
    → IsUnlocked (set_schedule n expr kind js)
unfolding set_schedule
IsUnlocked-set_schedule n expr kind [] h = tt
IsUnlocked-set_schedule n expr kind (j ∷ js) h =
    ground (arith, IsUnlocked-set_schedule n expr kind js h.1)

-- An id that one of the first n insertions has given out.
abbrev pub IsIssued : ℕ → Text → Type 0
IsIssued n i = (k : ℕ) × (k ≤ n) × (i ≡ mem_id k)

-- Names and ids are keys of the rows, ids are not reused, and no row is ever locked.
pub record IsWf (m : MemoryStorage) : Type 0 where
  pub names_distinct : IsDistinct (names m.jobs)
  pub ids_distinct : IsDistinct (ids m.jobs)
  pub ids_issued : All (IsIssued m.next) (ids m.jobs)
  pub unlocked : IsUnlocked m.jobs

pub new-IsWf : IsWf new_memory_storage
unfolding new_memory_storage
new-IsWf = record { names_distinct = tt; ids_distinct = tt; ids_issued = tt; unlocked = tt }

pub set_next_fire-IsWf :
    (m : MemoryStorage) (i : Text) (t : Time)
    → IsWf m
    → IsWf (record m { jobs = set_next_fire i t m.jobs })
set_next_fire-IsWf m i t w = record {
  names_distinct = subst IsDistinct (sym (names-set_next_fire i t m.jobs)) w.names_distinct;
  ids_distinct = subst IsDistinct (sym (ids-set_next_fire i t m.jobs)) w.ids_distinct;
  ids_issued = subst (All (IsIssued m.next)) (sym (ids-set_next_fire i t m.jobs)) w.ids_issued;
  unlocked = IsUnlocked-set_next_fire i t m.jobs w.unlocked;
}

mem_id_inj : (m n : ℕ) → mem_id m ≡ mem_id n → m ≡ n
unfolding mem_id
mem_id_inj m n h = ground (arith, decimal_inj m n)

issued_later : (n : ℕ) (is : List Text) → All (IsIssued n) is → All (λ i. mem_id (n + 1) ≢ i) is
issued_later n [] h = tt
issued_later n (i ∷ is) ((k, b, e), h) =
    (λ c. absurd (omega (arith, mem_id_inj (n + 1) k (c ∙ e))), issued_later n is h)

IsIssued-mono : (n : ℕ) (is : List Text) → All (IsIssued n) is → All (IsIssued (n + 1)) is
IsIssued-mono n [] h = tt
IsIssued-mono n (i ∷ is) ((k, b, e), h) = ((k, omega arith, e), IsIssued-mono n is h)

pub find_name-none :
    (n : Text) (js : List MemJob) → find_name n js ≡ none → All (λ k. n ≢ k) (names js)
unfolding find_name
find_name-none n [] h = tt
find_name-none n (j ∷ js) h =
    (λ e. ground (arith, text_eq_iff j.name n), find_name-none n js (ground arith))

-- EnsureJob keeps the rows well-formed on every branch: names and ids are distinct, every id has
-- been issued, and no row is locked.
pub ensure_job-IsWf :
    {F W : Type 0} (o : Option (Job F W)) (t : Time) (m : MemoryStorage)
    → IsWf m
    → IsWf (ensure_job o t m).1
unfolding ensure_job
ensure_job-IsWf none t m w = w
ensure_job-IsWf (some j) t m w = elim (Option-cases (find_name j.name m.jobs)) [
  | inl e ↦
      rw (e, ensure_job)
        (record {
          names_distinct = (find_name-none j.name m.jobs e, w.names_distinct);
          ids_distinct = (issued_later m.next (ids m.jobs) w.ids_issued, w.ids_distinct);
          ids_issued =
              ((m.next + 1, omega arith, refl), IsIssued-mono m.next (ids m.jobs) w.ids_issued);
          unlocked = (refl, w.unlocked);
        })
  | inr (old, e) ↦
      let n = j.name in
      let expr = j.schedule.string in
      let kind = j.schedule.kind in
      rw (e, ensure_job)
        (record {
          names_distinct =
              subst IsDistinct (sym (names-set_schedule n expr kind m.jobs)) w.names_distinct;
          ids_distinct =
              subst IsDistinct (sym (ids-set_schedule n expr kind m.jobs)) w.ids_distinct;
          ids_issued =
              subst (All (IsIssued m.next)) (sym (ids-set_schedule n expr kind m.jobs))
                w.ids_issued;
          unlocked = IsUnlocked-set_schedule n expr kind m.jobs w.unlocked;
        })
]
