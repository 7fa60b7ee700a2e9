-- ===== src/Dispatcher/Cluster/Once.antt =====
-- How often a cluster (dispatcher.go) starts the handler of a job for one fire time.
use sundial.Base.{
  ℕ, pos, suc, subst, sym, ◌==◌, ◌≤◌, ◌≡◌, refl, inl, inr, ◌⊎◌, List, [], ◌∷◌, Text, arith, All,
  if_both,
}
use sundial.Clock.{Time}
use sundial.Job.{Context}
use sundial.Storage.Types.{Storage}
use sundial.Storage.Laws.{StorageLaws}
use sundial.Storage.Race.{HasPassed}
use sundial.Dispatcher.State.{Env, read_clock}
use sundial.Dispatcher.Valid.{step-Valid, maybe_dispatch-Valid}
use sundial.Dispatcher.Cluster.{
  Turn, acts, fetches, dispatches, fetch_rows, Cluster, starts, env_of, at_node, stepped,
  cluster_step, total_starts, Passed, Runs,
}
use sundial.Dispatcher.Cluster.Quiet.{NotRetried}
use sundial.Dispatcher.Cluster.Steps.{IsQuiet, step-IsQuiet, maybe_dispatch-IsQuiet}
use sundial.Dispatcher.Cluster.Ticks.{maybe_dispatch-Runs}
use sundial.Dispatcher.Cluster.Starts.{step-Runs}

module _ {F W S L : Type 0} (st : Storage F W S) (laws : StorageLaws st) (envs : ℕ → Env F W S L)
    (ctx : Context) (once : (k : ℕ) → All NotRetried (envs k).registry) where
  -- The storage is valid, and no goroutine under way is of a job that is retried.
  pub record IsCalm (c : Cluster F W S L) : Type 0 where
    pub valid : laws.Valid c.shared
    pub quiet : (k : ℕ) → IsQuiet (c.nodes k)

  here-IsQuiet : (c : Cluster F W S L) (k : ℕ) → IsCalm c → IsQuiet (at_node st envs ctx c k)
  here-IsQuiet c k h = record { waiting = (h.quiet k).waiting; running = (h.quiet k).running }

  stepped-Valid :
      (c : Cluster F W S L) (k : ℕ) (e : Turn)
      → IsCalm c
      → laws.Valid (stepped st envs ctx c k e).storage
  unfolding fetch_rows read_clock
  stepped-Valid c k (acts e) h =
      step-Valid (env_of st envs ctx k) laws ctx (at_node st envs ctx c k) e h.valid
  stepped-Valid c k fetches h = laws.fetch_due-Valid _ (pos 64) c.shared h.valid
  stepped-Valid c k (dispatches dj now) h =
      maybe_dispatch-Valid (env_of st envs ctx k) laws ctx dj now (at_node st envs ctx c k) h.valid

  stepped-IsQuiet :
      (c : Cluster F W S L) (k : ℕ) (e : Turn) → IsCalm c → IsQuiet (stepped st envs ctx c k e)
  unfolding fetch_rows read_clock
  stepped-IsQuiet c k (acts e) h =
      step-IsQuiet (env_of st envs ctx k) laws ctx (once k) (at_node st envs ctx c k) e h.valid
        (here-IsQuiet c k h)
  stepped-IsQuiet c k fetches h = record {
    waiting = (h.quiet k).waiting;
    running = (h.quiet k).running;
  }
  stepped-IsQuiet c k (dispatches dj now) h =
      maybe_dispatch-IsQuiet (env_of st envs ctx k) laws ctx (once k) dj now
        (at_node st envs ctx c k) h.valid (here-IsQuiet c k h)

  cluster_step-IsCalm :
      (c : Cluster F W S L) (k : ℕ) (e : Turn) → IsCalm c → IsCalm (cluster_step st envs ctx c k e)
  unfolding cluster_step
  cluster_step-IsCalm c k e h = record {
    valid = stepped-Valid c k e h;
    quiet = λ j. if_both IsQuiet (k == j) (stepped-IsQuiet c k e h) (h.quiet j);
  }

  module _ (i : Text) (t : Time) where
    runs :
        (c : Cluster F W S L) (k : ℕ) (e : Turn)
        → IsCalm c
        → Runs laws i t (at_node st envs ctx c k) (stepped st envs ctx c k e)
    unfolding fetch_rows read_clock
    runs c k (acts e) h =
        step-Runs (env_of st envs ctx k) laws ctx (once k) i t (at_node st envs ctx c k) e h.valid
          (here-IsQuiet c k h)
    runs c k fetches h = (
      subst (HasPassed i t) (sym (laws.fetch_due-table _ (pos 64) c.shared i)),
      inl (omega arith),
    )
    runs c k (dispatches dj now) h =
        maybe_dispatch-Runs (env_of st envs ctx k) laws i t ctx (once k) dj now
          (at_node st envs ctx c k) h.valid

    total_starts-passed :
        (es : List (ℕ × Turn)) (c : Cluster F W S L)
        → IsCalm c
        → HasPassed i t (laws.table c.shared i)
        → total_starts st envs ctx i t es c ≡ 0
    unfolding total_starts cluster_step
    total_starts-passed [] c h p = refl
    total_starts-passed ((k, e) ∷ es) c h p =
        let (on, more) = runs c k e h in
        let rest =
          total_starts-passed es (cluster_step st envs ctx c k e) (cluster_step-IsCalm c k e h)
            (on p) in
        by_step rest more
      where
        by_step :
            total_starts st envs ctx i t es (cluster_step st envs ctx c k e) ≡ 0
            → (starts i t (stepped st envs ctx c k e).spawned ≤ starts i t (c.nodes k).spawned)
              ⊎ ((starts i t (stepped st envs ctx c k e).spawned
                    ≤ suc (starts i t (c.nodes k).spawned))
                  × (Passed laws i t (at_node st envs ctx c k) → ⊥)
                  × Passed laws i t (stepped st envs ctx c k e))
            → total_starts st envs ctx i t ((k, e) ∷ es) c ≡ 0
        by_step z (inl l) = omega arith
        by_step z (inr (l, n, q)) = absurd (n p)

    -- Any number of nodes over one storage that keeps the contract and is valid, each with jobs,
    -- options, a clock and a leader of its own, whose jobs have one attempt (MaxAttempts at most 1), as
    -- have those whose goroutines are under way: however the ticks, row by row, the renewals and the
    -- handlers of the nodes interleave, together they start at most one goroutine for the same job id
    -- and the same next fire time. What RunAll replays within a tick is not started as a goroutine.
    pub total_starts-le-one :
        (es : List (ℕ × Turn)) (c : Cluster F W S L)
        → IsCalm c
        → total_starts st envs ctx i t es c ≤ 1
    unfolding total_starts cluster_step
    total_starts-le-one [] c h = omega arith
    total_starts-le-one ((k, e) ∷ es) c h =
        let after = cluster_step st envs ctx c k e in
        let calm = cluster_step-IsCalm c k e h in
        by_step (total_starts-le-one es after calm) (total_starts-passed es after calm)
          (runs c k e h).1
      where
        by_step :
            total_starts st envs ctx i t es (cluster_step st envs ctx c k e) ≤ 1
            → (HasPassed i t (laws.table (cluster_step st envs ctx c k e).shared i)
                → total_starts st envs ctx i t es (cluster_step st envs ctx c k e) ≡ 0)
            → (starts i t (stepped st envs ctx c k e).spawned ≤ starts i t (c.nodes k).spawned)
              ⊎ ((starts i t (stepped st envs ctx c k e).spawned
                    ≤ suc (starts i t (c.nodes k).spawned))
                  × (Passed laws i t (at_node st envs ctx c k) → ⊥)
                  × Passed laws i t (stepped st envs ctx c k e))
            → total_starts st envs ctx i t ((k, e) ∷ es) c ≤ 1
        by_step b z (inl l) = omega arith
        by_step b z (inr (l, n, q)) = omega (arith, z q)
