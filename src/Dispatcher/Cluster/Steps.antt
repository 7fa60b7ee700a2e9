-- ===== src/Dispatcher/Cluster/Steps.antt =====
-- The steps of a node with jobs that are not retried (dispatcher.go): the goroutines under way stay of
-- such jobs.
use sundial.Base.{
  ℕ, zero, suc, sym, subst, ◌∙◌, inl, inr, pos, List, [], ◌∷◌, ◌++◌, Option, none, some, arith, All,
  ◌≤ℤ◌,
}
use sundial.Errors.{Result, ok, err}
use sundial.Clock.{Time}
use sundial.Job.{Context}
use sundial.Storage.Types.{DueJob}
use sundial.Storage.Laws.{StorageLaws}
use sundial.Dispatcher.State.{Env, State, Task, Active, read_clock}
use sundial.Dispatcher.Execute.{Begun, resumed, run_attempt}
use sundial.Dispatcher.Dispatch.{
  Event, ticks, renews, handles, begins, returns, pick, maybe_dispatch, dispatch_all, dispatch_due,
  tick, maybe_renew_leader, begin_picked, return_picked, step,
}
use sundial.Dispatcher.InFlight.{begin_attempt-Same, run_attempt-Same, end_attempt-Same}
use sundial.Dispatcher.Retry.{begin_attempt-count}
use sundial.Dispatcher.Balance.{tick-Grows, maybe_dispatch-Grows}
use sundial.Dispatcher.Valid.{maybe_dispatch-Valid}
use sundial.Dispatcher.Fire.{Fires, maybe_dispatch-Fires}
use sundial.Dispatcher.Cluster.Quiet.{NotRetried}
use sundial.Dispatcher.Cluster.Ticks.{lookup-All}

All-append :
    {A : Type 0} (P : A → Type 0) (xs : List A) (x : A) → All P xs → P x → All P (xs ++ x ∷ [])
All-append P [] x h p = (p, tt)
All-append P (y ∷ xs) x h p = (h.0, All-append P xs x h.1 p)

abbrev pub Both : {A : Type 0} → (A → Type 0) → Option (A × List A) → Type 0
Both P none = Unit
Both P (some (x, rest)) = P x × All P rest

pub pick-Both : {A : Type 0} (P : A → Type 0) (n : ℕ) (xs : List A) → All P xs → Both P (pick n xs)
unfolding pick
pick-Both P n [] h = tt
pick-Both P zero (x ∷ xs) h = h
pick-Both {A} P (suc n) (x ∷ xs) h = later (pick n xs) (pick-Both P n xs h.1)
  where
    later :
        (o : Option (A × List A))
        → Both P o
        → Both P (elim o [ none ↦ none | some (u, us) ↦ some (u, x ∷ us) ])
    later none b = tt
    later (some (u, us)) b = (b.0, (h.0, b.1))

abbrev pub IsLast : {F W : Type 0} → Active F W → Type 0
IsLast a = NotRetried a.job × (pos 1 ≤ℤ a.attempt)

-- The goroutines under way are of jobs that are not retried.
pub record IsQuiet {F W S L : Type 0} (d : State F W S L) : Type 0 where
  pub waiting : All (λ x. NotRetried x.job) d.spawned
  pub running : All IsLast d.active

module _ {F W S L : Type 0} (env : Env F W S L) (laws : StorageLaws env.storage_ops) (ctx : Context)
    (once : All NotRetried env.registry) where
  open laws use {Valid, table, fetch_due-Valid}

  abbrev IsQuietList : State F W S L → Type 0
  IsQuietList d = All (λ x. NotRetried x.job) d.spawned

  maybe_dispatch-IsQuietList :
      (dj : DueJob) (now : Time) (d : State F W S L)
      → Valid d.storage
      → IsQuietList d
      → IsQuietList (maybe_dispatch env ctx dj now d)
  maybe_dispatch-IsQuietList dj now d v h = by_fire (maybe_dispatch-Fires env laws ctx dj now d v)
    where
      by_fire :
          Fires env laws ctx dj now d (maybe_dispatch env ctx dj now d)
          → IsQuietList (maybe_dispatch env ctx dj now d)
      by_fire (inl (same, _)) = subst (All (λ x. NotRetried x.job)) (sym same) h
      by_fire (inr (inl (same, _))) = subst (All (λ x. NotRetried x.job)) (sym same) h
      by_fire (inr (inr (u, c, (job, w, found, made, b, lt, a), _))) =
          subst (All (λ x. NotRetried x.job)) (sym made) (
            All-append (λ x. NotRetried x.job) d.spawned _ h
              (lookup-All NotRetried dj.name env.registry job once found))

  pub maybe_dispatch-IsQuiet :
      (dj : DueJob) (now : Time) (d : State F W S L)
      → Valid d.storage
      → IsQuiet d
      → IsQuiet (maybe_dispatch env ctx dj now d)
  maybe_dispatch-IsQuiet dj now d v q =
      let (_, same, _) = maybe_dispatch-Grows env ctx dj now d in
      record {
        waiting = maybe_dispatch-IsQuietList dj now d v q.waiting;
        running = subst (All IsLast) (sym same) q.running;
      }

  dispatch_all-IsQuietList :
      (djs : List DueJob) (now : Time) (d : State F W S L)
      → Valid d.storage
      → IsQuietList d
      → IsQuietList (dispatch_all env ctx djs now d)
  unfolding dispatch_all
  dispatch_all-IsQuietList [] now d v h = h
  dispatch_all-IsQuietList (dj ∷ djs) now d v h =
      dispatch_all-IsQuietList djs now (maybe_dispatch env ctx dj now d)
        (maybe_dispatch-Valid env laws ctx dj now d v) (maybe_dispatch-IsQuietList dj now d v h)

  tick-IsQuietList :
      (d : State F W S L) → Valid d.storage → IsQuietList d → IsQuietList (tick env ctx d)
  unfolding tick read_clock
  tick-IsQuietList d v h =
      let (now, w) = env.world_ops.now d.world in
      let fetched = env.storage_ops.fetch_due now (pos 64) d.storage in
      by_rows fetched.0 (record d { storage = fetched.1; world = w }) now
        (fetch_due-Valid now (pos 64) d.storage v) h
    where
      by_rows :
          (r : Result (List DueJob)) (x : State F W S L) (now : Time)
          → Valid x.storage
          → IsQuietList x
          → IsQuietList (dispatch_due env ctx now r x)
      by_rows (err e) x now u q = q
      by_rows (ok due) x now u q = dispatch_all-IsQuietList due now x u q

  begin_picked-IsQuiet :
      (o : Option (Task F W × List (Task F W))) (d : State F W S L)
      → Both (λ x. NotRetried x.job) o
      → IsQuiet d
      → IsQuiet (begin_picked env ctx o d)
  unfolding begin_picked
  begin_picked-IsQuiet none d b q = q
  begin_picked-IsQuiet (some (x, rest)) d b q =
      let d0 : State F W S L = record d { spawned = rest } in
      let (_, s, a, _) = begin_attempt-Same env ctx x.job x.due d0 in
      let (number, _, _) = begin_attempt-count env ctx x.job x.due d0 in
      record {
        waiting = subst (All (λ y. NotRetried y.job)) (sym s) b.1;
        running =
            All-append IsLast _ _ (subst (All IsLast) (sym a) q.running)
              (b.0, subst (λ n. pos 1 ≤ℤ n) (sym number) (omega arith));
      }

  return_picked-IsQuiet :
      (o : Option (Active F W × List (Active F W))) (d : State F W S L)
      → Both IsLast o
      → IsQuiet d
      → IsQuiet (return_picked env o d)
  unfolding return_picked
  return_picked-IsQuiet none d b q = q
  return_picked-IsQuiet (some (a, rest)) d b q =
      let x : Begun F W S L = resumed a (record d { active = rest }) in
      let r = run_attempt env a.job a.due x in
      let (_, s, e, _) = run_attempt-Same env a.job a.due x in
      let (_, s', e', _) = end_attempt-Same env a.job a.due a.started a.attempt r in
      record {
        waiting = subst (All (λ y. NotRetried y.job)) (sym (s' ∙ s)) q.waiting;
        running = subst (All IsLast) (sym (e' ∙ e)) b.1;
      }

  pub step-IsQuiet :
      (d : State F W S L) (e : Event) → Valid d.storage → IsQuiet d → IsQuiet (step env ctx d e)
  unfolding step maybe_renew_leader
  step-IsQuiet d ticks v q =
      let (_, same, _) = tick-Grows env ctx d in
      record {
        waiting = tick-IsQuietList d v q.waiting;
        running = subst (All IsLast) (sym same) q.running;
      }
  step-IsQuiet d renews v q = record { waiting = q.waiting; running = q.running }
  step-IsQuiet d (handles (begins n)) v q =
      begin_picked-IsQuiet (pick n d.spawned) d
        (pick-Both (λ x. NotRetried x.job) n d.spawned q.waiting) q
  step-IsQuiet d (handles (returns n)) v q =
      return_picked-IsQuiet (pick n d.active) d (pick-Both IsLast n d.active q.running) q
