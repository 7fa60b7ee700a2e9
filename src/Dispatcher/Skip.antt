-- ===== src/Dispatcher/Skip.antt =====
-- dispatcher.go over MemoryStorage: a missed fire under the Skip policy, and due jobs that a node leaves
-- to others.
use sundial.Base.{◌≡◌, refl, true, false, ◌&&◌, some, inl, inr, Text, if◌then◌else◌, Bool-cases}
use sundial.Errors.{ok}
use sundial.Clock.{Time, is_zero}
use sundial.Job.{Context, Job, skip}
use sundial.Storage.Types.{DueJob}
use sundial.Storage.Memory.{MemoryStorage, memory_storage}
use sundial.Storage.Memory.Rows.{IsWf}
use sundial.Storage.Memory.Claim.{view, claim_spec, claim_job_lem}
use sundial.Dispatcher.Load.{compute_next_fire}
use sundial.Dispatcher.State.{Env, State, lookup}
use sundial.Dispatcher.Dispatch.{maybe_dispatch, is_missed, is_follower}
use sundial.Dispatcher.Budget.{on_memory}
use sundial.Dispatcher.Replay.{runs-claim_job}

module _ {F W S L : Type 0} (any_env : Env F W S L) where
  abbrev env : Env F W MemoryStorage L
  env = on_memory any_env

  -- Over MemoryStorage with well-formed rows, on any node, leader or not: for a missed fire of a
  -- registered job with the Skip policy that has a next fire, no handler is run or started and no
  -- run is recorded. The rows stay as they are if the job is for the leader only and the node does
  -- not lead; else they become those after a claim for the next fire.
  pub maybe_dispatch-skips :
      (ctx : Context) (dj : DueJob) (job : Job F W) (now t : Time) (d : State F W MemoryStorage L)
      → IsWf d.storage
      → lookup dj.name env.registry ≡ some job
      → job.options.missed_fire ≡ skip
      → is_missed env.opts.tick_interval dj now ≡ true
      → compute_next_fire env.formats dj now ≡ ok t
      → is_zero t ≡ false
      → let d' = maybe_dispatch env ctx dj now d in
        (d'.spawned ≡ d.spawned)
        × (d'.in_flight ≡ d.in_flight)
        × (d'.storage.runs ≡ d.storage.runs)
        × (d'.world ≡ d.world)
        × ((k : Text)
            → view d'.storage k ≡ (
                if job.options.leader_only && is_follower env d.leader
                then view d.storage k
                else (claim_spec dj.id t (view d.storage) (view d.storage dj.id)).1 k))
  unfolding maybe_dispatch memory_storage
  maybe_dispatch-skips ctx dj job now t d w l policy late c z =
      elim (Bool-cases (job.options.leader_only && is_follower env d.leader)) [
        | inl left ↦ rw (l, left) (refl, refl, refl, refl, λ k. refl)
        | inr own ↦
            let (_, claimed) = claim_job_lem dj.id t d.storage w in
            rw (l, own, c, z, late, policy)
              (rw (c, z) (refl, refl, runs-claim_job dj.id t d.storage, refl, claimed))
      ]
