-- ===== src/Dispatcher/Cluster/Starts.antt =====
-- Every step of a node with jobs that are not retried (dispatcher.go) does to one fire time of one job
-- what a tick does.
use sundial.Base.{
  ℕ, zero, suc, ◌≤◌, ap, sym, subst, ◌∙◌, inl, List, [], ◌∷◌, Option, none, some, Text, arith, All,
}
use sundial.Clock.{Time}
use sundial.Job.{Context}
use sundial.Storage.Laws.{StorageLaws}
use sundial.Storage.Race.{HasPassed}
use sundial.Dispatcher.State.{Env, State, Task, Active}
use sundial.Dispatcher.Execute.{Begun, resumed, run_attempt}
use sundial.Dispatcher.Dispatch.{
  Event, ticks, renews, handles, begins, returns, pick, maybe_renew_leader, begin_picked,
  return_picked, step,
}
use sundial.Dispatcher.InFlight.{begin_attempt-Same, run_attempt-Same, end_attempt-Same}
use sundial.Dispatcher.Retry.{begin_attempt-count, run_attempt-count}
use sundial.Dispatcher.Cluster.{starts, Runs}
use sundial.Dispatcher.Cluster.Quiet.{NotRetried, end_attempt-table}
use sundial.Dispatcher.Cluster.Ticks.{tick-Runs}
use sundial.Dispatcher.Cluster.Steps.{Both, pick-Both, IsLast, IsQuiet}

abbrev Fewer : {F W : Type 0} → Text → Time → ℕ → Option (Task F W × List (Task F W)) → Type 0
Fewer i t n none = Unit
Fewer i t n (some (x, rest)) = starts i t rest ≤ n

starts-pick :
    {F W : Type 0} (i : Text) (t : Time) (n : ℕ) (xs : List (Task F W))
    → Fewer i t (starts i t xs) (pick n xs)
unfolding pick starts
starts-pick i t n [] = tt
starts-pick i t zero (x ∷ xs) = ground arith
starts-pick {F} {W} i t (suc n) (x ∷ xs) = later (pick n xs) (starts-pick i t n xs)
  where
    later :
        (o : Option (Task F W × List (Task F W)))
        → Fewer i t (starts i t xs) o
        → Fewer i t (starts i t (x ∷ xs)) (elim o [ none ↦ none | some (u, us) ↦ some (u, x ∷ us) ])
    later none b = tt
    later (some (u, us)) b = ground (arith, b)

module _ {F W S L : Type 0} (env : Env F W S L) (laws : StorageLaws env.storage_ops) (ctx : Context)
    (once : All NotRetried env.registry) (i : Text) (t : Time) where
  open laws use {Valid, table}

  begin_picked-Runs :
      (o : Option (Task F W × List (Task F W))) (d : State F W S L)
      → Fewer i t (starts i t d.spawned) o
      → Runs laws i t d (begin_picked env ctx o d)
  unfolding begin_picked
  begin_picked-Runs none d b = (λ h. h, inl (omega arith))
  begin_picked-Runs (some (x, rest)) d b =
      let d0 : State F W S L = record d { spawned = rest } in
      let (_, s, _, _) = begin_attempt-Same env ctx x.job x.due d0 in
      let (_, _, begun) = begin_attempt-count env ctx x.job x.due d0 in
      (
        λ h. subst (λ z. HasPassed i t (table z i)) (sym begun) h,
        inl (omega (arith, ap (starts i t) s, b)),
      )

  return_picked-Runs :
      (o : Option (Active F W × List (Active F W))) (d : State F W S L)
      → Both IsLast o
      → Runs laws i t d (return_picked env o d)
  unfolding return_picked
  return_picked-Runs none d b = (λ h. h, inl (omega arith))
  return_picked-Runs (some (a, rest)) d b =
      let x : Begun F W S L = resumed a (record d { active = rest }) in
      let r = run_attempt env a.job a.due x in
      let (_, s, _, _) = run_attempt-Same env a.job a.due x in
      let (_, s', _, _) = end_attempt-Same env a.job a.due a.started a.attempt r in
      let (_, ran) = run_attempt-count env a.job a.due x in
      (
        λ h.
            subst (HasPassed i t)
              (sym (
                end_attempt-table env laws a.job a.due a.started a.attempt r i b.0.0 b.0.1
                ∙ ap (λ z. table z i) ran))
              h,
        inl (omega (arith, ap (starts i t) (s' ∙ s))),
      )

  pub step-Runs :
      (d : State F W S L) (e : Event)
      → Valid d.storage
      → IsQuiet d
      → Runs laws i t d (step env ctx d e)
  unfolding step maybe_renew_leader
  step-Runs d ticks v q = tick-Runs env laws i t ctx once d v
  step-Runs d renews v q = (λ h. h, inl (omega arith))
  step-Runs d (handles (begins n)) v q =
      begin_picked-Runs (pick n d.spawned) d (starts-pick i t n d.spawned)
  step-Runs d (handles (returns n)) v q =
      return_picked-Runs (pick n d.active) d (pick-Both IsLast n d.active q.running)
