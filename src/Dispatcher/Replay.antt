-- ===== src/Dispatcher/Replay.antt =====
-- dispatcher.go: `runAllMissed` over MemoryStorage, by the runs that it leaves.
use mathlib.Core.List.{map-append, append_assoc, append-nil}
use sundial.Base.{
  ℕ, ◌+◌, ◌≡◌, refl, ap, sym, ◌∙◌, ℤ, pos, not, List, [], ◌∷◌, ◌++◌, map, Option, none, some, Text,
  inl, inr, if_both, Option-cases, arith,
}
use sundial.Errors.{Error, ok}
use sundial.Clock.{Time, is_zero}
use sundial.Schedule.{Schedule, iterate_schedule}
use sundial.Job.{Context, Job}
use sundial.Storage.Types.{DueJob, RunRecord}
use sundial.Storage.Memory.{MemoryStorage, memory_storage, claim_job, record_run, fill_run, find_id}
use sundial.Dispatcher.Load.{load_schedule_from_due}
use sundial.Dispatcher.State.{Env, State, forget_attempt}
use sundial.Dispatcher.Execute.{
  Ended, begin_attempt, run_attempt, end_attempt, settle, record_outcome, execute, execute_at_fire,
}
use sundial.Dispatcher.Dispatch.{
  replay, run_all_missed, replay_or_once, replay_schedule, advance_past, max_catchup_instants,
}
use sundial.Dispatcher.Retry.{begin_attempt-count, run_attempt-count, error_of}
use sundial.Dispatcher.Budget.{on_memory, settle-runs}

-- Which job a run was of, and for which instant.
abbrev pub fire_of : RunRecord → Text × Time
fire_of r = (r.job_id, r.fire_time)

-- The instants that are replayed: those of the window, or the row's own if there are none.
abbrev pub replayed : Time → List Time → List Time
replayed own [] = own ∷ []
replayed own (t ∷ ts) = t ∷ ts

pub runs-claim_job : (i : Text) (t : Time) (m : MemoryStorage) → (claim_job i t m).1.runs ≡ m.runs
unfolding claim_job
runs-claim_job i t m = elim (Option-cases (find_id i m.jobs)) [
  | inl e ↦ rw (e, claim_job)
  | inr (j, e) ↦ ground arith
]

module _ {F W S L : Type 0} (any_env : Env F W S L) where
  abbrev env : Env F W MemoryStorage L
  env = on_memory any_env

  record_outcome-fire :
      (r : RunRecord) (d : State F W MemoryStorage L)
      → map fire_of (record_outcome env r d).storage.runs
        ≡ map fire_of d.storage.runs ++ fire_of r ∷ []
  unfolding record_outcome memory_storage record_run fill_run
  record_outcome-fire r d = map-append fire_of d.storage.runs _

  end_attempt-fire :
      (job : Job F W) (dj : DueJob) (t : Time) (n : ℕ) (r : Ended F W MemoryStorage L)
      → map fire_of (end_attempt env job dj t (pos n) r).storage.runs
        ≡ map fire_of r.state.storage.runs ++ (dj.id, dj.next_fire_time) ∷ []
  unfolding end_attempt
  end_attempt-fire job dj t n r =
      let (_, kept) = settle-runs any_env job dj n r.error r.state in
      record_outcome-fire _ (settle env job dj (pos n) r.error r.state).1
      ∙ ap (λ rs. map fire_of rs ++ (dj.id, dj.next_fire_time) ∷ []) kept

  fire-execute :
      (ctx : Context) (job : Job F W) (dj : DueJob) (d : State F W MemoryStorage L)
      → map fire_of (execute env ctx job dj d).storage.runs
        ≡ map fire_of d.storage.runs ++ (dj.id, dj.next_fire_time) ∷ []
  unfolding execute
  fire-execute ctx job dj d =
      let b = begin_attempt env ctx job dj d in
      let r = run_attempt env job dj b in
      let (number, _, begun) = begin_attempt-count env ctx job dj d in
      let (_, ran) = run_attempt-count env job dj b in
      ap (λ a. map fire_of (end_attempt env job dj b.started a r).storage.runs) number
      ∙ end_attempt-fire job dj b.started _ r
      ∙ ap (λ (m : MemoryStorage). map fire_of m.runs ++ (dj.id, dj.next_fire_time) ∷ [])
          (ran ∙ begun)

  fire-at :
      (ctx : Context) (job : Job F W) (dj : DueJob) (d : State F W MemoryStorage L)
      → map fire_of (execute_at_fire env ctx job dj d).storage.runs
        ≡ map fire_of d.storage.runs ++ (dj.id, dj.next_fire_time) ∷ []
  unfolding execute_at_fire
  fire-at ctx job dj d = fire-execute ctx job dj (record d { in_flight = d.in_flight + 1 })

  replay-fires :
      (ctx : Context) (job : Job F W) (dj : DueJob) (ts : List Time) (d : State F W MemoryStorage L)
      → map fire_of (replay env ctx job dj ts d).storage.runs
        ≡ map fire_of d.storage.runs ++ map (λ t. (dj.id, t)) ts
  unfolding replay
  replay-fires ctx job dj [] d = sym (append-nil (map fire_of d.storage.runs))
  replay-fires ctx job dj (t ∷ ts) d =
      let once = record dj { next_fire_time = t } in
      replay-fires ctx job dj ts (execute_at_fire env ctx job once d)
      ∙ ap (λ rs. rs ++ map (λ u. (dj.id, u)) ts) (fire-at ctx job once d)
      ∙ append_assoc (map fire_of d.storage.runs) ((dj.id, t) ∷ []) (map (λ u. (dj.id, u)) ts)

  advance_past-fires :
      (dj : DueJob) (t : Time) (d : State F W MemoryStorage L)
      → (advance_past env dj t d).storage.runs ≡ d.storage.runs
  unfolding memory_storage
  advance_past-fires dj t d =
      if_both (λ (x : State F W MemoryStorage L). x.storage.runs ≡ d.storage.runs) (not (is_zero t))
        (runs-claim_job dj.id t d.storage) refl

  -- Over MemoryStorage, with RunAll and a schedule that can be read: each fire of the missed
  -- window, up to the cap, is run once, in order of time, and leaves a run under its own fire
  -- time; if the window has none, the row's own fire is run once.
  pub run_all_missed-fires :
      (ctx : Context) (job : Job F W) (dj : DueJob) (now : Time) (d : State F W MemoryStorage L)
      → (s : Schedule) → load_schedule_from_due env.formats dj ≡ ok s
      → map fire_of (run_all_missed env ctx job dj now d).storage.runs
        ≡ map fire_of d.storage.runs
          ++ map
              (λ t. (dj.id, t))
              (replayed dj.next_fire_time
                (iterate_schedule (some s) dj.next_fire_time now max_catchup_instants))
  unfolding run_all_missed
  run_all_missed-fires ctx job dj now d s e =
      rw (e, replay_schedule)
        (by_instants (iterate_schedule (some s) dj.next_fire_time now max_catchup_instants))
    where
      by_instants :
          (ts : List Time)
          → map fire_of (replay_or_once env ctx job dj (s.next now) ts d).storage.runs
            ≡ map fire_of d.storage.runs ++ map (λ t. (dj.id, t)) (replayed dj.next_fire_time ts)
      by_instants [] = fire-at ctx job dj d
      by_instants (t ∷ ts) =
          ap (λ rs. map fire_of rs)
            (advance_past-fires dj (s.next now) (replay env ctx job dj (t ∷ ts) d))
          ∙ replay-fires ctx job dj (t ∷ ts) d

  jobs-record_outcome :
      (r : RunRecord) (d : State F W MemoryStorage L)
      → (record_outcome env r d).storage.jobs ≡ d.storage.jobs
  unfolding record_outcome memory_storage record_run
  jobs-record_outcome r d = refl

  jobs-settle :
      (job : Job F W) (dj : DueJob) (n : ℤ) (e : Option Error) (d : State F W MemoryStorage L)
      → e ≡ none
      → (settle env job dj n e d).1.storage.jobs ≡ d.storage.jobs
  unfolding settle forget_attempt
  jobs-settle job dj n none d h = refl
  jobs-settle job dj n (some e) d h = cc

  jobs-execute :
      (ctx : Context) (job : Job F W) (dj : DueJob) (d : State F W MemoryStorage L)
      → error_of env ctx job dj d ≡ none
      → (execute env ctx job dj d).storage.jobs ≡ d.storage.jobs
  unfolding execute error_of end_attempt
  jobs-execute ctx job dj d h =
      let b = begin_attempt env ctx job dj d in
      let r = run_attempt env job dj b in
      let (_, _, begun) = begin_attempt-count env ctx job dj d in
      let (_, ran) = run_attempt-count env job dj b in
      jobs-record_outcome _ (settle env job dj b.attempt r.error r.state).1
      ∙ jobs-settle job dj b.attempt r.error r.state h
      ∙ ap (λ (m : MemoryStorage). m.jobs) (ran ∙ begun)

  -- Over MemoryStorage, with RunAll and no fire inside the missed window, a handler that succeeds
  -- is run, and yet no row changes: the row keeps the fire time that was missed.
  pub run_all_missed_stays :
      (ctx : Context) (job : Job F W) (dj : DueJob) (now : Time) (d : State F W MemoryStorage L)
      → (s : Schedule) → load_schedule_from_due env.formats dj ≡ ok s
      → iterate_schedule (some s) dj.next_fire_time now max_catchup_instants ≡ []
      → error_of env ctx job dj (record d { in_flight = d.in_flight + 1 }) ≡ none
      → let d' = run_all_missed env ctx job dj now d in
        (d'.storage.jobs ≡ d.storage.jobs)
        × (map fire_of d'.storage.runs
            ≡ map fire_of d.storage.runs ++ (dj.id, dj.next_fire_time) ∷ [])
  unfolding run_all_missed execute_at_fire
  run_all_missed_stays ctx job dj now d s e none_missed h =
      let once = record d { in_flight = d.in_flight + 1 } in
      rw (e, replay_schedule, none_missed, replay_or_once)
        (jobs-execute ctx job dj once h, fire-execute ctx job dj once)
