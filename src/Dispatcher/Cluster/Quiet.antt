-- ===== src/Dispatcher/Cluster/Quiet.antt =====
-- Attempts of jobs that are not retried (dispatcher.go) leave the fire times of the table alone.
use sundial.Base.{
  ◌+◌, ◌≡◌, refl, ap, sym, subst, ◌∙◌, ℤ, pos, ltb_ℤ, false, not, List, [], ◌∷◌, Option, none, some,
  Text, if◌then◌else◌, arith, if_both, ◌≤ℤ◌,
}
use sundial.Errors.{Error, Result, ok, err}
use sundial.Clock.{Time, is_zero}
use sundial.Schedule.{Schedule, iterate_schedule}
use sundial.Job.{Context, Job}
use sundial.Storage.Types.{DueJob}
use sundial.Storage.Laws.{StorageLaws}
use sundial.Storage.Race.{HasPassed, passed_step}
use sundial.Dispatcher.State.{Env, State, forget_attempt}
use sundial.Dispatcher.Load.{load_schedule_from_due}
use sundial.Dispatcher.Execute.{
  Ended, begin_attempt, run_attempt, end_attempt, settle, record_outcome, execute, execute_at_fire,
}
use sundial.Dispatcher.Dispatch.{
  replay, run_all_missed, replay_or_once, replay_schedule, max_catchup_instants, advance_past,
}
use sundial.Dispatcher.Retry.{begin_attempt-count, run_attempt-count}
use sundial.Dispatcher.Valid.{replay-Valid}

-- One attempt is all that the job has.
abbrev pub NotRetried : {F W : Type 0} → Job F W → Type 0
NotRetried job = job.options.retry.max_attempts ≤ℤ pos 1

module _ {F W S L : Type 0} (env : Env F W S L) (laws : StorageLaws env.storage_ops) where
  open laws use {Valid, table, claim_job-Claims, record_run-table}

  settle-storage :
      (job : Job F W) (dj : DueJob) (n : ℤ) (e : Option Error) (d : State F W S L)
      → NotRetried job
      → pos 1 ≤ℤ n
      → (settle env job dj n e d).1.storage ≡ d.storage
  unfolding settle forget_attempt
  settle-storage job dj n none d q l = refl
  settle-storage job dj n (some e) d q l =
      let last : ltb_ℤ n job.options.retry.max_attempts ≡ false = ground (arith, q, l) in
      rw (last, if◌then◌else◌) refl

  pub end_attempt-table :
      (job : Job F W) (dj : DueJob) (t : Time) (n : ℤ) (r : Ended F W S L) (k : Text)
      → NotRetried job
      → pos 1 ≤ℤ n
      → table (end_attempt env job dj t n r).storage k ≡ table r.state.storage k
  unfolding end_attempt record_outcome
  end_attempt-table job dj t n r k q l =
      record_run-table _ _ _ k ∙ ap (λ s. table s k) (settle-storage job dj n r.error r.state q l)

  execute_at_fire-table :
      (ctx : Context) (job : Job F W) (dj : DueJob) (d : State F W S L) (k : Text)
      → NotRetried job
      → table (execute_at_fire env ctx job dj d).storage k ≡ table d.storage k
  unfolding execute_at_fire execute
  execute_at_fire-table ctx job dj d k q =
      let d0 : State F W S L = record d { in_flight = d.in_flight + 1 } in
      let b = begin_attempt env ctx job dj d0 in
      let (number, _, begun) = begin_attempt-count env ctx job dj d0 in
      let (_, ran) = run_attempt-count env job dj b in
      end_attempt-table job dj b.started b.attempt (run_attempt env job dj b) k q
        (subst (λ n. pos 1 ≤ℤ n) (sym number) (omega arith))
      ∙ ap (λ s. table s k) (ran ∙ begun)

  replay-table :
      (ctx : Context) (job : Job F W) (dj : DueJob) (ts : List Time) (d : State F W S L) (k : Text)
      → NotRetried job
      → table (replay env ctx job dj ts d).storage k ≡ table d.storage k
  unfolding replay
  replay-table ctx job dj [] d k q = refl
  replay-table ctx job dj (t ∷ ts) d k q =
      replay-table ctx job dj ts _ k q
      ∙ execute_at_fire-table ctx job (record dj { next_fire_time = t }) d k q

  module _ (i : Text) (t : Time) where
    abbrev pub HasPast : State F W S L → Type 0
    HasPast d = HasPassed i t (table d.storage i)

    pub advance_past-HasPast :
        (dj : DueJob) (u : Time) (d : State F W S L)
        → Valid d.storage
        → HasPast d
        → HasPast (advance_past env dj u d)
    advance_past-HasPast dj u d v h =
        if_both HasPast (not (is_zero u))
          (passed_step i dj.id t u (table d.storage) _ _ (claim_job-Claims dj.id u d.storage v) h) h

    pub run_all_missed-HasPast :
        (ctx : Context) (job : Job F W) (dj : DueJob) (now : Time) (d : State F W S L)
        → NotRetried job
        → Valid d.storage
        → HasPast d
        → HasPast (run_all_missed env ctx job dj now d)
    unfolding run_all_missed
    run_all_missed-HasPast ctx job dj now d q v h =
        by_schedule (load_schedule_from_due env.formats dj)
      where
        by_instants :
            (sched : Schedule) (ts : List Time)
            → HasPast (replay_or_once env ctx job dj (sched.next now) ts d)
        by_instants sched [] =
            subst (HasPassed i t) (sym (execute_at_fire-table ctx job dj d i q)) h
        by_instants sched (u ∷ us) =
            advance_past-HasPast dj (sched.next now) (replay env ctx job dj (u ∷ us) d)
              (replay-Valid env laws ctx job dj (u ∷ us) d v)
              (subst (HasPassed i t) (sym (replay-table ctx job dj (u ∷ us) d i q)) h)

        by_schedule : (r : Result Schedule) → HasPast (replay_schedule env ctx job dj now r d)
        by_schedule (err e) = h
        by_schedule (ok sched) =
            by_instants sched
              (iterate_schedule (some sched) dj.next_fire_time now max_catchup_instants)
