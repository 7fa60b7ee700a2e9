-- ===== src/Scheduler/Run/Persisted.antt =====
-- What the first part of Run (sundial.go) leaves in a MemoryStorage.
use sundial.Base.{
  ◌≡◌, ◌≢◌, refl, ap, sym, subst, ◌∙◌, inl, inr, false, List, [], ◌∷◌, Option, none, some, Text,
  text_eq, text_eq_iff, text_eq_refl, if◌then◌else◌, arith, All, Bool-cases, Option-cases, if_both,
}
use sundial.Errors.{Error, ok}
use sundial.Clock.{Time, is_zero}
use sundial.Job.{Job}
use sundial.Storage.Memory.{
  MemJob, MemoryStorage, memory_storage, ensure_job, find_name, set_schedule, insert_job,
}
use sundial.Dispatcher.State.{Env}
use sundial.Dispatcher.Budget.{on_memory}
use sundial.Scheduler.Run.{ensure_all, next_ensure}

-- A row that shows the schedule of a job.
abbrev pub Shows : Text → Text → Option MemJob → Type 0
Shows expr kind none = ⊥
Shows expr kind (some row) = (row.schedule ≡ expr) × (row.schedule_kind ≡ kind)

abbrev pub IsStored : {F W : Type 0} → MemoryStorage → Job F W → Type 0
IsStored m j = Shows j.schedule.string j.schedule.kind (find_name j.name m.jobs)

find_name-set_schedule :
    (n k expr kind : Text) (js : List MemJob)
    → text_eq n k ≡ false
    → find_name k (set_schedule n expr kind js) ≡ find_name k js
unfolding find_name set_schedule
find_name-set_schedule n k expr kind [] h = refl
find_name-set_schedule n k expr kind (x ∷ js) h = ground (
  arith,
  text_eq_iff x.name n,
  text_eq_iff x.name k,
  text_eq_iff n k,
  find_name-set_schedule n k expr kind js h,
)

find_name-own :
    (n expr kind : Text) (js : List MemJob) (row : MemJob)
    → find_name n js ≡ some row
    → Shows expr kind (find_name n (set_schedule n expr kind js))
unfolding find_name set_schedule
find_name-own n expr kind [] row h = cc
find_name-own n expr kind (x ∷ js) row h = elim (Bool-cases (text_eq x.name n)) [
  | inl e ↦ rw (e, if◌then◌else◌, find_name, e) (refl, refl)
  | inr e ↦ rw (e, if◌then◌else◌, find_name, e) (find_name-own n expr kind js row (ground arith))
]

-- EnsureJob of MemoryStorage returns an id, stores the job's schedule under its name and leaves the
-- row of every other name as it was.
pub ensure_job_lem :
    {F W : Type 0} (j : Job F W) (t : Time) (m : MemoryStorage)
    → ((i : Text) × ((ensure_job (some j) t m).0 ≡ ok i))
      × IsStored (ensure_job (some j) t m).1 j
      × ((k : Text)
          → text_eq j.name k ≡ false
          → find_name k (ensure_job (some j) t m).1.jobs ≡ find_name k m.jobs)
unfolding ensure_job insert_job find_name
ensure_job_lem j t m = elim (Option-cases (find_name j.name m.jobs)) [
  | inl e ↦
      rw (e, ensure_job)
        ((_, refl), rw (text_eq_refl j.name, if◌then◌else◌) (refl, refl), λ k h. ground arith)
  | inr (old, e) ↦
      let n = j.name in
      rw (e, ensure_job)
        (
          (_, refl),
          find_name-own n j.schedule.string j.schedule.kind m.jobs old e,
          λ k h. find_name-set_schedule n k j.schedule.string j.schedule.kind m.jobs h,
        )
]

module _ {F W L : Type 0} {S : Type 0} (any_env : Env F W S L) where
  -- The jobs that Run has to store are stored: those with a fire to come.
  abbrev pub AllStored : Time → MemoryStorage → List (Job F W) → Type 0
  AllStored now m = All (λ j. is_zero (j.schedule.next now) ≡ false → IsStored m j)

  abbrev pub AllNamed : Text → List (Job F W) → Type 0
  AllNamed n = All (λ j. n ≢ j.name)

  abbrev pub DistinctJobs : List (Job F W) → Type 0
  DistinctJobs [] = Unit
  DistinctJobs (j ∷ js) = AllNamed j.name js × DistinctJobs js

  -- The storage after the loop has met one job.
  abbrev ensured : Job F W → Time → MemoryStorage → MemoryStorage
  ensured j now m =
      let next = j.schedule.next now in if is_zero next then m else (ensure_job (some j) next m).1

  ensure_all-cons :
      (j : Job F W) (js : List (Job F W)) (now : Time) (m : MemoryStorage)
      → ensure_all (on_memory any_env) (j ∷ js) now m
        ≡ ensure_all (on_memory any_env) js now (ensured j now m)
  unfolding ensure_all memory_storage
  ensure_all-cons j js now m = elim (Bool-cases (is_zero (j.schedule.next now))) [
    | inl e ↦ rw (e, if◌then◌else◌) refl
    | inr e ↦
        let ((i, done), _, _) = ensure_job_lem j (j.schedule.next now) m in
        rw (e, if◌then◌else◌)
          (ap
            (λ r.
              next_ensure j.name (λ s. ensure_all (on_memory any_env) js now s)
                (r, (ensure_job (some j) (j.schedule.next now) m).1))
            done)
  ]

  ensured-other :
      (k : Text) (j : Job F W) (now : Time) (m : MemoryStorage)
      → k ≢ j.name
      → find_name k (ensured j now m).jobs ≡ find_name k m.jobs
  ensured-other k j now m h =
      if_both (λ (x : MemoryStorage). find_name k x.jobs ≡ find_name k m.jobs)
        (is_zero (j.schedule.next now)) refl
        ((ensure_job_lem j (j.schedule.next now) m).2 k (ground (arith, text_eq_iff j.name k)))

  -- A name that no job of the loop has keeps its row.
  ensure_all-other :
      (k : Text) (js : List (Job F W)) (now : Time) (m : MemoryStorage)
      → AllNamed k js
      → find_name k (ensure_all (on_memory any_env) js now m).1.jobs ≡ find_name k m.jobs
  unfolding ensure_all
  ensure_all-other k [] now m d = refl
  ensure_all-other k (j ∷ js) now m d =
      ap (λ r. find_name k r.1.jobs) (ensure_all-cons j js now m)
      ∙ ensure_all-other k js now (ensured j now m) d.1
      ∙ ensured-other k j now m d.0

  -- Over MemoryStorage and jobs with distinct names: before its first tick Run stores, without an
  -- error, every registered job whose schedule has a fire to come, under the job's name and with
  -- the job's schedule.
  pub ensure_all-stored :
      (js : List (Job F W)) (now : Time) (m : MemoryStorage)
      → DistinctJobs js
      → let (e, m') = ensure_all (on_memory any_env) js now m in (e ≡ none) × AllStored now m' js
  unfolding ensure_all
  ensure_all-stored [] now m d = (refl, tt)
  ensure_all-stored (j ∷ js) now m d =
      let m' = ensured j now m in
      let (done, rest) = ensure_all-stored js now m' d.1 in
      let own : is_zero (j.schedule.next now) ≡ false → IsStored m' j =
        λ z. rw (z, if◌then◌else◌) (ensure_job_lem j (j.schedule.next now) m).1 in
      subst (λ (r : Option Error × MemoryStorage). (r.0 ≡ none) × AllStored now r.1 (j ∷ js))
        (sym (ensure_all-cons j js now m))
        (
          done,
          (
            λ z.
                subst (λ o. Shows j.schedule.string j.schedule.kind o)
                  (sym (ensure_all-other j.name js now m' d.0)) (own z),
            rest,
          ),
        )
