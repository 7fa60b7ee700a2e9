-- ===== src/Dispatcher/Budget.antt =====
-- dispatcher.go: the retry budget over MemoryStorage. A job whose handler keeps failing is tried
-- again until the budget is used up, and is then recorded as a dead letter.
use mathlib.Core.List.{map-append, append_assoc}
use sundial.Base.{
  ℕ, zero, suc, ◌+◌, ◌≡◌, refl, ap, ◌∙◌, inl, inr, ℤ, pos, ltb_ℤ, true, false, List, [], ◌∷◌, ◌++◌,
  map, Option, none, some, Text, text_eq_refl, if◌then◌else◌, arith, Bool-cases, Option-cases,
}
use sundial.Errors.{Error}
use sundial.Clock.{Time}
use sundial.Job.{Context, Job}
use sundial.Storage.Types.{DueJob, RunOutcome, run_failed, run_dead_letter, RunRecord}
use sundial.Storage.Memory.{
  MemoryStorage, memory_storage, find_id, schedule_retry, record_run, fill_run,
}
use sundial.Dispatcher.State.{Env, State, attempts_of, forget_attempt, read_clock}
use sundial.Dispatcher.Execute.{
  Ended, begin_attempt, run_attempt, end_attempt, run_handler, retry_later, settle, record_outcome,
  execute, recovered,
}
use sundial.Dispatcher.Retry.{
  recorded, error_of, begin_attempt-count, run_attempt-count, attempts-execute,
}

-- Attempts that follow one another.
pub execute_times :
    {F W S L : Type 0}
    → Env F W S L
    → Context
    → Job F W
    → DueJob
    → ℕ
    → State F W S L
    → State F W S L
execute_times env ctx job dj zero d = d
execute_times env ctx job dj (suc n) d = execute_times env ctx job dj n (execute env ctx job dj d)

-- The number and the outcome of a run.
abbrev pub attempt_of : RunRecord → ℤ × RunOutcome
attempt_of r = (r.attempt, r.outcome)

-- `k` failures after the first `n`, and then the dead letter.
abbrev pub ladder : ℕ → ℕ → List (ℤ × RunOutcome)
ladder n zero = (pos (suc n), run_dead_letter) ∷ []
ladder n (suc k) = (pos (suc n), run_failed) ∷ ladder (suc n) k

abbrev pub on_memory : {F W S L : Type 0} → Env F W S L → Env F W MemoryStorage L
on_memory {F} {W} env = record {
  storage_ops = memory_storage F W;
  leader_ops = env.leader_ops;
  world_ops = env.world_ops;
  floats = env.floats;
  formats = env.formats;
  registry = env.registry;
  opts = env.opts;
}

runs-schedule_retry :
    (i : Text) (t : Time) (m : MemoryStorage) → (schedule_retry i t m).1.runs ≡ m.runs
unfolding schedule_retry
runs-schedule_retry i t m = elim (Option-cases (find_id i m.jobs)) [
  | inl e ↦ rw (e, schedule_retry)
  | inr (j, e) ↦ ground arith
]

last : (n : ℕ) → ltb_ℤ (pos (suc n)) (pos (suc (n + 0))) ≡ false
last n = ground arith

more : (n k : ℕ) → ltb_ℤ (pos (suc n)) (pos (suc (n + suc k))) ≡ true
more n k = ground arith

module _ {F W S L : Type 0} (any_env : Env F W S L) where
  abbrev env : Env F W MemoryStorage L
  env = on_memory any_env

  pub settle-runs :
      (job : Job F W) (dj : DueJob) (n : ℕ) (e : Option Error) (d : State F W MemoryStorage L)
      → let (outcome, d') = settle env job dj (pos n) e d in
        (outcome ≡ recorded e n job.options.retry.max_attempts) × (d'.storage.runs ≡ d.storage.runs)
  unfolding settle retry_later forget_attempt read_clock memory_storage
  settle-runs job dj n none d = (refl, refl)
  settle-runs job dj n (some e) d =
      elim (Bool-cases (ltb_ℤ (pos n) job.options.retry.max_attempts)) [
        | inl t ↦ rw (t, if◌then◌else◌) (refl, runs-schedule_retry _ _ _)
        | inr t ↦ rw (t, if◌then◌else◌) (refl, refl)
      ]

  fill_run-attempt :
      (now : Time) (r : RunRecord) (n : ℕ)
      → r.attempt ≡ pos (suc n)
      → attempt_of (fill_run now r) ≡ (pos (suc n), r.outcome)
  unfolding fill_run
  fill_run-attempt now r n h = ground arith

  record_outcome-runs :
      (r : RunRecord) (d : State F W MemoryStorage L) (n : ℕ)
      → r.attempt ≡ pos (suc n)
      → map attempt_of (record_outcome env r d).storage.runs
        ≡ map attempt_of d.storage.runs ++ (pos (suc n), r.outcome) ∷ []
  unfolding record_outcome memory_storage record_run fill_run
  record_outcome-runs r d n h =
      map-append attempt_of d.storage.runs _
      ∙ ap (λ a. map attempt_of d.storage.runs ++ a ∷ [])
          (fill_run-attempt (env.world_ops.now d.world).0 r n h)

  end_attempt-runs :
      (job : Job F W) (dj : DueJob) (started : Time) (n : ℕ) (r : Ended F W MemoryStorage L)
      → map attempt_of (end_attempt env job dj started (pos (suc n)) r).storage.runs
        ≡ map attempt_of r.state.storage.runs
          ++ (pos (suc n), recorded r.error (suc n) job.options.retry.max_attempts) ∷ []
  unfolding end_attempt
  end_attempt-runs job dj started n r =
      let (outcome, kept) = settle-runs job dj (suc n) r.error r.state in
      record_outcome-runs _ (settle env job dj (pos (suc n)) r.error r.state).1 n refl
      ∙ (rw (outcome, kept))

  -- An attempt records one run: its number and how it was settled.
  runs-execute :
      (ctx : Context) (job : Job F W) (dj : DueJob) (d : State F W MemoryStorage L)
      → let n = suc (attempts_of dj.id d.attempts) in
        map attempt_of (execute env ctx job dj d).storage.runs
        ≡ map attempt_of d.storage.runs
          ++ (pos n, recorded (error_of env ctx job dj d) n job.options.retry.max_attempts) ∷ []
  unfolding execute error_of
  runs-execute ctx job dj d =
      let b = begin_attempt env ctx job dj d in
      let r = run_attempt env job dj b in
      let n = attempts_of dj.id d.attempts in
      let (number, _, begun) = begin_attempt-count env ctx job dj d in
      let (_, ran) = run_attempt-count env job dj b in
      ap (λ a. map attempt_of (end_attempt env job dj b.started a r).storage.runs) number
      ∙ end_attempt-runs job dj b.started n r
      ∙ ap
          (λ (m : MemoryStorage).
            map attempt_of m.runs
            ++ (pos (suc n), recorded r.error (suc n) job.options.retry.max_attempts) ∷ [])
          (ran ∙ begun)

  -- A handler that never succeeds.
  abbrev pub AlwaysFails : Job F W → Type 0
  AlwaysFails job = (c : Context) (w : W) → (e : Error) × (recovered (job.handler c w).0 ≡ some e)

  error_of-fails :
      (ctx : Context) (job : Job F W) (dj : DueJob) (d : State F W MemoryStorage L)
      → AlwaysFails job
      → (e : Error) × (error_of env ctx job dj d ≡ some e)
  unfolding error_of run_attempt run_handler
  error_of-fails ctx job dj d fails = fails _ _

  -- From any place in its budget, a job that keeps failing climbs the rest of the ladder.
  climb :
      (ctx : Context) (job : Job F W) (dj : DueJob) (k n : ℕ) (d : State F W MemoryStorage L)
      → AlwaysFails job
      → job.options.retry.max_attempts ≡ pos (suc (n + k))
      → attempts_of dj.id d.attempts ≡ n
      → let d' = execute_times env ctx job dj (suc k) d in
        (map attempt_of d'.storage.runs ≡ map attempt_of d.storage.runs ++ ladder n k)
        × (attempts_of dj.id d'.attempts ≡ 0)
  unfolding execute_times
  climb ctx job dj zero n d fails b c =
      let (e, f) = error_of-fails ctx job dj d fails in
      (
        runs-execute ctx job dj d ∙ (rw (f, c, b, last n) refl),
        attempts-execute env ctx job dj d dj.id ∙ (rw (text_eq_refl dj.id, f, c, b, last n) refl),
      )
  climb ctx job dj (suc k) n d fails b c =
      let d1 = execute env ctx job dj d in
      let (e, f) = error_of-fails ctx job dj d fails in
      let (runs, count) =
        climb ctx job dj k (suc n) d1 fails (b ∙ ap (λ i. pos (suc i)) (omega arith)) (
          attempts-execute env ctx job dj d dj.id
          ∙ (rw (text_eq_refl dj.id, f, c, b, more n k) refl)) in
      let first : map attempt_of d1.storage.runs
          ≡ map attempt_of d.storage.runs ++ (pos (suc n), run_failed) ∷ [] =
        runs-execute ctx job dj d ∙ (rw (f, c, b, more n k) refl) in
      (
        runs
            ∙ ap (λ rs. rs ++ ladder (suc n) k) first
            ∙ append_assoc (map attempt_of d.storage.runs) ((pos (suc n), run_failed) ∷ [])
                (ladder (suc n) k),
        count,
      )

  -- Over MemoryStorage, a job whose handler always fails and whose budget is m + 1 attempts, from
  -- a counter at 0: its next m + 1 attempts are recorded as numbers 1 to m + 1, the first m as
  -- failed and the last as a dead letter, and the counter is then back at 0.
  pub retry_budget :
      (ctx : Context) (job : Job F W) (dj : DueJob) (m : ℕ) (d : State F W MemoryStorage L)
      → AlwaysFails job
      → job.options.retry.max_attempts ≡ pos (suc m)
      → attempts_of dj.id d.attempts ≡ 0
      → let d' = execute_times env ctx job dj (suc m) d in
        (map attempt_of d'.storage.runs ≡ map attempt_of d.storage.runs ++ ladder 0 m)
        × (attempts_of dj.id d'.attempts ≡ 0)
  retry_budget ctx job dj m d fails b c =
      climb ctx job dj m 0 d fails (b ∙ ap (λ n. pos (suc n)) (omega arith)) c
