-- ===== src/Dispatcher/Expired.antt =====
-- dispatcher.go and MemoryStorage of storage.go: a job of an At schedule from EnsureJob to the dispatch of
-- its row.
use sundial.Base.{
  ◌≡◌, ◌≢◌, refl, ap, sym, subst, ◌∙◌, ◌⊎◌, inl, inr, ℤ, ◌≤ℤ◌, ◌<ℤ◌, List, [], ◌∷◌, some, none,
  Text, if◌then◌else◌, arith, All, Bool-cases,
}
use sundial.Base.Sort.{insertion_sort-All}
use sundial.Errors.{Result, ok, err}
use sundial.Clock.{Time, zero_time, after}
use sundial.Schedule.{at}
use sundial.Job.{Context, Job}
use sundial.Storage.Types.{DueJob}
use sundial.Storage.Memory.{
  MemJob, MemoryStorage, insert_job, ensure_job, fetch_due, find_name, collect_due, due_gt,
  effective_limit, to_due,
}
use sundial.Storage.Memory.Rows.{find_name-none}
use sundial.Storage.Memory.Due.{collect-named}
use sundial.Storage.Memory.Fetch.{cut-All}
use sundial.Dispatcher.State.{Env, State}
use sundial.Dispatcher.Dispatch.{maybe_dispatch}
use sundial.Dispatcher.Budget.{on_memory}
use sundial.Dispatcher.Stored.{FormatLaws, year_10000, at_too_late}

-- A fetch that succeeds, with rows that all satisfy `P`.
abbrev pub Returns : (DueJob → Type 0) → Result (List DueJob) → Type 0
Returns P (ok ds) = All P ds
Returns P (err e) = ⊥

fetch_due-Returns :
    (P : DueJob → Type 0) (now : Time) (limit : ℤ) (m : MemoryStorage)
    → All P (collect_due now m.jobs)
    → Returns P (fetch_due now limit m).0
unfolding fetch_due
fetch_due-Returns P now limit m h =
    cut-All P (effective_limit limit) _ (insertion_sort-All due_gt P (collect_due now m.jobs) h)

collect_first :
    (P : DueJob → Type 0) (now : Time) (r : MemJob) (js : List MemJob)
    → (r.next_fire_time ≤ℤ now → P (to_due r))
    → All P (collect_due now js)
    → All P (collect_due now (r ∷ js))
unfolding collect_due
collect_first P now r js h rest = elim (Bool-cases (after r.next_fire_time now)) [
  | inl e ↦ rw (e, if◌then◌else◌) rest
  | inr e ↦ rw (e, if◌then◌else◌) (h (ground (arith, e)), rest)
]

-- The rows after the first.
collect_rest :
    (P : DueJob → Type 0) (n : Text) (ds : List DueJob)
    → All (λ d. n ≢ d.name) ds
    → All (λ d. (n ≢ d.name) ⊎ P d) ds
collect_rest P n [] h = tt
collect_rest P n (d ∷ ds) h = (inl h.0, collect_rest P n ds h.1)

-- The row that EnsureJob inserts.
abbrev IsNewRow : {F W : Type 0} → Job F W → Time → MemJob → Type 0
IsNewRow j t r =
    (r.name ≡ j.name)
    × (r.next_fire_time ≡ t)
    × (r.schedule ≡ j.schedule.string)
    × (r.schedule_kind ≡ j.schedule.kind)

ensured_rows :
    {F W : Type 0} (j : Job F W) (t : Time) (m : MemoryStorage)
    → find_name j.name m.jobs ≡ none
    → (r : MemJob) × IsNewRow j t r × ((ensure_job (some j) t m).1.jobs ≡ r ∷ m.jobs)
unfolding ensure_job insert_job
ensured_rows j t m e = rw (e, ensure_job) (_, (refl, refl, refl, refl), refl)

module _ {F W S L : Type 0} (any_env : Env F W S L) where
  abbrev env : Env F W MemoryStorage L
  env = on_memory any_env

  -- If the text formats of package time read back what they print: EnsureJob stores a job with an At
  -- schedule from the zero Time to before the year 10000, whose name has no row yet, to fire at that
  -- instant. A node that fetches the due rows of what it leaves, at any reading of the clock and with
  -- any limit, gets no row of that name, or one for which the dispatcher leaves everything as it is,
  -- in whatever state: nothing is claimed, started, run or recorded.
  pub at_never_runs :
      (ctx : Context) (j : Job F W) (t now : Time) (limit : ℤ) (m : MemoryStorage)
      → (d : State F W MemoryStorage L) → FormatLaws any_env.formats
      → zero_time ≤ℤ t
      → t <ℤ year_10000
      → j.schedule ≡ at any_env.formats t
      → find_name j.name m.jobs ≡ none
      → Returns
          (λ dj. (j.name ≢ dj.name) ⊎ (maybe_dispatch env ctx dj now d ≡ d))
          (fetch_due now limit (ensure_job (some j) t m).1).0
  at_never_runs ctx j t now limit m d laws z y made free =
      let (r, (name, fire, expr, kind), rows) = ensured_rows j t m free in
      fetch_due-Returns P now limit (ensure_job (some j) t m).1 (
        subst (λ js. All P (collect_due now js)) (sym rows)
          (collect_first P now r m.jobs
            (λ due. inr (
              at_too_late env ctx (to_due r) t now d laws z y (kind ∙ ap (λ s. s.kind) made)
                (expr ∙ ap (λ s. s.string) made) (ground (arith, due, fire))))
            (collect_rest Left j.name (collect_due now m.jobs)
              (collect-named j.name now m.jobs (find_name-none j.name m.jobs free)))))
    where
      Left : DueJob → Type 0
      Left dj = maybe_dispatch env ctx dj now d ≡ d

      P : DueJob → Type 0
      P dj = (j.name ≢ dj.name) ⊎ Left dj
