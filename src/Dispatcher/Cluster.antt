-- ===== src/Dispatcher/Cluster.antt =====
-- The nodes of a cluster (dispatcher.go): each with a dispatcher of its own, over one storage.
pub mod Quiet
pub mod Ticks
pub mod Steps
pub mod Starts
pub mod Once
use sundial.Base.{
  ℕ, zero, suc, ◌+◌, ◌-◌, ◌==◌, ◌≤◌, ◌≡◌, refl, ◌⊎◌, inl, inr, ◌&&◌, List, [], ◌∷◌, Text, text_eq,
  if◌then◌else◌, arith, eqb_ℤ, ℤ, pos, ◌≤ℤ◌,
}
use sundial.Clock.{Time}
use sundial.Job.{Context, Job}
use sundial.Storage.Types.{Storage}
use sundial.Storage.Laws.{StorageLaws}
use sundial.Storage.Race.{HasPassed}
use sundial.Dispatcher.State.{Env, State, Task, read_clock}
use sundial.Storage.Types.{DueJob}
use sundial.Dispatcher.Dispatch.{Event, step, maybe_dispatch}

-- What a node does: something in its loop at one go, or a part of a tick, so that the ticks of several
-- nodes overlap: it reads its clock and fetches, and it dispatches a row by the time that it has read
-- before. Any row and any time are allowed.
pub data Turn : Type 0 where
  acts : Event → Turn
  fetches : Turn
  dispatches : DueJob → Time → Turn

-- The nodes by their numbers, and the storage that they share. A node has it while it takes a step.
pub record Cluster (F W S L : Type 0) : Type 0 where
  pub nodes : ℕ → State F W S L
  pub shared : S

-- The started goroutines for fire time `t` of the job of id `i`.
unfoldable pub starts : {F W : Type 0} → Text → Time → List (Task F W) → ℕ
starts i t [] = 0
starts i t (x ∷ xs) = (if text_eq x.due.id i && eqb_ℤ x.claimed_for t then 1 else 0) + starts i t xs

module _ {F W S L : Type 0} (st : Storage F W S) (envs : ℕ → Env F W S L) (ctx : Context) where
  abbrev pub env_of : ℕ → Env F W S L
  env_of k = record (envs k) { storage_ops = st }

  abbrev pub at_node : Cluster F W S L → ℕ → State F W S L
  at_node c k = record (c.nodes k) { storage = c.shared }

  -- `tick` up to its loop over the rows.
  unfoldable pub fetch_rows : Env F W S L → State F W S L → State F W S L
  fetch_rows env d =
      let (now, d') = read_clock env d in
      record d' { storage = (env.storage_ops.fetch_due now (pos 64) d'.storage).1 }

  -- One step of one node.
  abbrev pub stepped : Cluster F W S L → ℕ → Turn → State F W S L
  stepped c k (acts e) = step (env_of k) ctx (at_node c k) e
  stepped c k fetches = fetch_rows (env_of k) (at_node c k)
  stepped c k (dispatches dj now) = maybe_dispatch (env_of k) ctx dj now (at_node c k)

  unfoldable pub cluster_step : Cluster F W S L → ℕ → Turn → Cluster F W S L
  cluster_step c k e =
      let d = stepped c k e in
      record { nodes = λ j. if k == j then d else c.nodes j; shared = d.storage }

  -- How many goroutines for `t` of `i` the nodes start on the way.
  unfoldable pub total_starts : Text → Time → List (ℕ × Turn) → Cluster F W S L → ℕ
  total_starts i t [] c = 0
  total_starts i t ((k, e) ∷ es) c =
      (starts i t (stepped c k e).spawned - starts i t (c.nodes k).spawned)
      + total_starts i t es (cluster_step c k e)

-- What a node may do, with regard to fire time `t` of job `i`: an entry that has passed `t` stays so,
-- and a goroutine is started for `t` only when the entry passes it.
module _ {F W S L : Type 0} {st : Storage F W S} (laws : StorageLaws st) (i : Text) (t : Time) where
  abbrev pub Passed : State F W S L → Type 0
  Passed d = HasPassed i t (laws.table d.storage i)

  abbrev pub Runs : State F W S L → State F W S L → Type 0
  Runs d d' =
      (Passed d → Passed d')
      × ((starts i t d'.spawned ≤ starts i t d.spawned)
          ⊎ ((starts i t d'.spawned ≤ suc (starts i t d.spawned)) × (Passed d → ⊥) × Passed d'))

  pub Runs-trans : (a b c : State F W S L) → Runs a b → Runs b c → Runs a c
  Runs-trans a b c (f, x) (g, y) = (λ p. g (f p), both x y)
    where
      both :
          (starts i t b.spawned ≤ starts i t a.spawned)
            ⊎ ((starts i t b.spawned ≤ suc (starts i t a.spawned)) × (Passed a → ⊥) × Passed b)
          → (starts i t c.spawned ≤ starts i t b.spawned)
            ⊎ ((starts i t c.spawned ≤ suc (starts i t b.spawned)) × (Passed b → ⊥) × Passed c)
          → (starts i t c.spawned ≤ starts i t a.spawned)
            ⊎ ((starts i t c.spawned ≤ suc (starts i t a.spawned)) × (Passed a → ⊥) × Passed c)
      both (inl l) (inl m) = inl (omega arith)
      both (inl l) (inr (m, n, p)) = inr (omega arith, λ q. n (f q), p)
      both (inr (l, n, p)) (inl m) = inr (omega arith, n, g p)
      both (inr (l, n, p)) (inr (m, n', p')) = absurd (n' p)
