-- ===== src/Hello/Ready.antt =====
-- What the set-up of examples/hello/main.go leaves.
use sundial.Base.{
  ℕ, ◌≡◌, ◌≢◌, refl, Bool, true, false, List, [], ◌∷◌, Option, none, some, Text, text, text_eq,
  text_lt,
}
use sundial.Base.Sort.{insertion_sort, sort_from, sink}
use sundial.Errors.{Result, ok, err}
use sundial.Clock.{Time}
use sundial.Schedule.{Formats, every, interval_schedule}
use sundial.Job.{Float, Job}
use sundial.Dispatcher.State.{lookup}
use sundial.Scheduler.{
  Scheduler, Defaults, auto_node_id, new, with_storage, with_logger, apply_options, fill_options,
  schedule, jobs_of,
}
use sundial.Hello.{Hits, connect, register_or_exit, set_up_as, set_up}
use sundial.Scheduler.Setup.{auto_node_id-ne-nil}

abbrev pub names_of : {F W : Type 0} → List (Option (Job F W)) → List Text
names_of [] = []
names_of (none ∷ js) = names_of js
names_of (some j ∷ js) = j.name ∷ names_of js

-- The scheduler has a storage and the three jobs of `main`, in the order of `Jobs`.
abbrev pub IsSetUp : {F St Le Lg : Type 0} → Result (Scheduler F Hits St Le Lg) → Type 0
IsSetUp (err e) = ⊥
IsSetUp (ok sc) =
    (sc.storage ≢ none)
    × (sc.running ≡ false)
    × (sc.stopped ≡ false)
    × (names_of (jobs_of sc)
        ≡ text "health-probe-5s" ∷ text "report-every-12s" ∷ text "send-launch-email" ∷ [])

module _ {F St Le Lg : Type 0} (formats : Formats) (fl : Float F) (df : Defaults St Le Lg) where
  set_up_as-IsSetUp :
      (pgxpool_new : Text → Result (Unit {0})) (memory : St) (logger : Lg) (url : Text) (now : Time)
      → (has_pool : Bool) (node_id : Text) → connect pgxpool_new url ≡ ok has_pool
      → node_id ≢ []
      → IsSetUp (set_up_as formats fl df pgxpool_new memory logger url now node_id)
  unfolding set_up_as register_or_exit schedule new fill_options with_storage with_logger
      apply_options every interval_schedule lookup jobs_of text_eq text_lt insertion_sort sort_from
      sink
  set_up_as-IsSetUp pgxpool_new memory logger url now has_pool [] c h = absurd (h refl)
  set_up_as-IsSetUp pgxpool_new memory logger url now true (x ∷ xs) c h =
      rw c ((λ e. cc), refl, refl, refl)
  set_up_as-IsSetUp pgxpool_new memory logger url now false (x ∷ xs) c h =
      rw c ((λ e. cc), refl, refl, refl)

  -- If the pool can be made, or no URL is set: the set-up of the example makes a scheduler with a
  -- storage and with its three jobs, whatever the host and the random source say.
  set_up-IsSetUp :
      (pgxpool_new : Text → Result (Unit {0})) (memory : St) (logger : Lg) (url : Text) (now : Time)
      → (hostname : Result Text) (env : Text) (random : Option (List ℕ)) (has_pool : Bool)
      → connect pgxpool_new url ≡ ok has_pool
      → IsSetUp (set_up formats fl df pgxpool_new memory logger url now hostname env random)
  unfolding set_up
  set_up-IsSetUp pgxpool_new memory logger url now hostname env random has_pool c =
      set_up_as-IsSetUp pgxpool_new memory logger url now has_pool
        (auto_node_id hostname env random) c (auto_node_id-ne-nil hostname env random)
