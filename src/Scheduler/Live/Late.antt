-- ===== src/Scheduler/Live/Late.antt =====
-- A job that Schedule (sundial.go) registers after Run has stored the jobs of its registry.
use sundial.Base.{
  ◌≡◌, ◌≢◌, refl, sym, subst, inl, inr, List, [], ◌∷◌, none, Text, if◌then◌else◌, All, Bool-cases,
  Option-cases, ℤ,
}
use sundial.Base.Sort.{insertion_sort-All}
use sundial.Errors.{Result, ok, err}
use sundial.Clock.{Time, before}
use sundial.Job.{Context}
use sundial.Storage.Types.{DueJob}
use sundial.Storage.Laws.{StorageLaws}
use sundial.Storage.Memory.{
  MemoryStorage, memory_storage, claim_job, schedule_retry, record_run, fetch_due, find_id,
  find_name, collect_due, due_gt, effective_limit,
}
use sundial.Storage.Memory.Rows.{IsWf, names, names-set_next_fire, find_name-none}
use sundial.Storage.Memory.Due.{IsAbsent, collect-named}
use sundial.Storage.Memory.Fetch.{cut-All}
use sundial.Storage.Memory.Lawful.{memory_laws}
use sundial.Dispatcher.State.{Env, State}
use sundial.Dispatcher.Budget.{on_memory}
use sundial.Dispatcher.Valid.{step-Valid}
use sundial.Scheduler.{Scheduler, stop}
use sundial.Scheduler.Live.{Happening, loops, schedules, stops, happen, happen_all, seen}

claim_job-names :
    (i : Text) (t : Time) (m : MemoryStorage) → names (claim_job i t m).1.jobs ≡ names m.jobs
unfolding claim_job
claim_job-names i t m = elim (Option-cases (find_id i m.jobs)) [
  | inl e ↦ rw (e, claim_job) refl
  | inr (j, e) ↦ elim (Bool-cases j.locked) [
    | inl l ↦ rw (e, claim_job, l, if◌then◌else◌) refl
    | inr l ↦ elim (Bool-cases (before j.next_fire_time t)) [
      | inl b ↦ rw (e, claim_job, l, b, if◌then◌else◌) (names-set_next_fire i t m.jobs)
      | inr b ↦ rw (e, claim_job, l, b, if◌then◌else◌) refl
    ]
  ]
]

schedule_retry-names :
    (i : Text) (t : Time) (m : MemoryStorage) → names (schedule_retry i t m).1.jobs ≡ names m.jobs
unfolding schedule_retry
schedule_retry-names i t m = elim (Option-cases (find_id i m.jobs)) [
  | inl e ↦ rw (e, schedule_retry) refl
  | inr (j, e) ↦ elim (Bool-cases (before t j.next_fire_time)) [
    | inl b ↦ rw (e, schedule_retry, b, if◌then◌else◌) (names-set_next_fire i t m.jobs)
    | inr b ↦ rw (e, schedule_retry, b, if◌then◌else◌) refl
  ]
]

-- The contract of the storage, with the absence of a name among what is kept.
unfoldable late_laws : (F W : Type 0) → Text → StorageLaws (memory_storage F W)
unfolding memory_storage fetch_due record_run
late_laws F W n =
    let laws = memory_laws F W in
    record {
      Valid = λ m. laws.Valid m × IsAbsent n m.jobs;
      table = laws.table;
      fetch_due-Valid = λ now limit m v. (laws.fetch_due-Valid now limit m v.0, v.1);
      fetch_due-table = laws.fetch_due-table;
      fetch_due-Fetches = λ now limit m v. laws.fetch_due-Fetches now limit m v.0;
      claim_job-Valid = λ i t m v. (
        laws.claim_job-Valid i t m v.0,
        subst (All (λ k. n ≢ k)) (sym (claim_job-names i t m)) v.1,
      );
      claim_job-Claims = λ i t m v. laws.claim_job-Claims i t m v.0;
      schedule_retry-Valid = λ i t m v. (
        laws.schedule_retry-Valid i t m v.0,
        subst (All (λ k. n ≢ k)) (sym (schedule_retry-names i t m)) v.1,
      );
      schedule_retry-Retries = λ i t m v. laws.schedule_retry-Retries i t m v.0;
      record_run-Valid = λ r now m v. (laws.record_run-Valid r now m v.0, v.1);
      record_run-table = laws.record_run-table;
    }

-- The rows of a fetch do not have the name.
abbrev pub Misses : Text → Result (List DueJob) → Type 0
Misses n (ok ds) = All (λ d. n ≢ d.name) ds
Misses n (err e) = Unit

fetch_due-Misses :
    (n : Text) (now : Time) (limit : ℤ) (m : MemoryStorage)
    → IsAbsent n m.jobs
    → Misses n (fetch_due now limit m).0
unfolding fetch_due
fetch_due-Misses n now limit m h =
    cut-All (λ d. n ≢ d.name) (effective_limit limit) _
      (insertion_sort-All due_gt (λ d. n ≢ d.name) (collect_due now m.jobs)
        (collect-named n now m.jobs h))

module _ {F W S L : Type 0} (any_env : Env F W S L) where
  abbrev on_rows : Env F W MemoryStorage L
  on_rows = on_memory any_env

  abbrev LateValid : Text → State F W MemoryStorage L → Type 0
  LateValid n d = (late_laws F W n).Valid d.storage

  happen_all-absent :
      {Lg : Type 0} (ctx : Context) (n : Text) (hs : List (Happening F W))
      (sc : Scheduler F W MemoryStorage L Lg)
      → (d : State F W MemoryStorage L) → LateValid n d
      → LateValid n (happen_all on_rows ctx hs (sc, d)).1
  unfolding happen_all happen
  happen_all-absent ctx n [] sc d v = v
  happen_all-absent ctx n (loops e ∷ hs) sc d v =
      happen_all-absent ctx n hs sc _ (step-Valid (seen on_rows ctx sc) (late_laws F W n) ctx d e v)
  happen_all-absent ctx n (schedules name s fn opts ∷ hs) sc d v = happen_all-absent ctx n hs _ d v
  happen_all-absent ctx n (stops ∷ hs) sc d v = happen_all-absent ctx n hs (stop sc) d v

  -- Over a well-formed MemoryStorage that has no row for a name: whatever happens while the loop
  -- goes on, a Schedule of a job of that name included, FetchDue returns no row for the name, at any
  -- time and with any limit.
  pub late_job_lem :
      {Lg : Type 0} (ctx : Context) (n : Text) (hs : List (Happening F W))
      (sc : Scheduler F W MemoryStorage L Lg)
      → (d : State F W MemoryStorage L) (now : Time) (limit : ℤ) → IsWf d.storage
      → find_name n d.storage.jobs ≡ none
      → Misses n (fetch_due now limit (happen_all on_rows ctx hs (sc, d)).1.storage).0
  unfolding late_laws memory_laws
  late_job_lem ctx n hs sc d now limit w e =
      let (_, a) = happen_all-absent ctx n hs sc d (w, find_name-none n d.storage.jobs e) in
      fetch_due-Misses n now limit (happen_all on_rows ctx hs (sc, d)).1.storage a
