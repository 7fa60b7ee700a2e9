-- ===== src/Scheduler.antt =====
-- sundial.go: the scheduler's options and registry, and the run from the first tick to the end.
pub mod Asked
pub mod Setup
pub mod Registry
pub mod Run
pub mod Live
use sundial.Base.{
  ℕ, ltb, ◌+◌, ◌/◌, ◌%◌, ℤ, pos, eqb_ℤ, ltb_ℤ, Bool, true, false, not, ◌&&◌, ◌||◌, List, [], ◌∷◌,
  ◌++◌, map, Option, none, some, Text, text, text_eq, text_lt, if◌then◌else◌,
}
use sundial.Base.Sort.{insertion_sort}
use sundial.Errors.{
  Error, Result, ok, err, ◌>>=◌, empty_node_id, tick_too_small, storage_required, empty_job_name,
  nil_schedule, nil_handler, scheduler_stopped, job_name_taken,
}
use sundial.Clock.{Duration, second, millisecond}
use sundial.Schedule.{Schedule}
use sundial.Job.{HandlerFunc, JobOptions, Job, Float, with_defaults, zero_options}
use sundial.Leader.{is_empty}
use sundial.Dispatcher.State.{Options, lookup}

-- The scheduler, over its handlers' world `W`, its floats `F` and the values `St`, `Le` and `Lg` of
-- its storage, leader and logger. Nil is `none`; the map of jobs is the list of its jobs.
pub record Scheduler (F W St Le Lg : Type 0) : Type 0 where
  pub has_pool : Bool
  pub storage : Option St
  pub leader : Option Le
  pub logger : Lg
  pub opts : Options
  pub jobs : List (Job F W)
  pub running : Bool
  pub stopped : Bool

-- A text, or another if it is empty.
abbrev pub text_or : Text → Text → Text
text_or [] d = d
text_or (c ∷ cs) d = c ∷ cs

abbrev hex_digit : ℕ → ℕ
hex_digit n = if ltb n 10 then 48 + n else 87 + n

-- `hex.EncodeToString`
unfoldable pub hex_encode : List ℕ → Text
hex_encode [] = []
hex_encode (b ∷ bs) = hex_digit (b / 16) ∷ hex_digit (b % 16) ∷ hex_encode bs

abbrev pub random_id : Option (List ℕ) → Text
random_id none = text "sundial-unknown"
random_id (some bytes) = text "sundial-" ++ hex_encode bytes

abbrev host_or : Result Text → Text → Text
host_or (err e) d = d
host_or (ok h) d = if text_eq h (text "localhost") then d else text_or h d

-- By what `os.Hostname`, `os.Getenv("HOSTNAME")` and `rand.Read` (nothing, if it fails) return.
unfoldable pub auto_node_id : Result Text → Text → Option (List ℕ) → Text
unfolding hex_encode
auto_node_id hostname env random = host_or hostname (text_or env (random_id random))

-- `sc.leader != nil || sc.leader != before`
abbrev touched : {Le : Type 0} → Option Le → Option Le → Bool
touched none none = false
touched none (some b) = true
touched (some a) before = true

-- What `New` takes from other files and packages: the default logger and the Postgres backends.
pub record Defaults (St Le Lg : Type 0) : Type 0 where
  pub default_logger : Lg
  pub postgres_storage : Text → St
  pub postgres_leader : Le

module _ {F W St Le Lg : Type 0} where
  unfoldable pub with_storage : Option St → Scheduler F W St Le Lg → Scheduler F W St Le Lg
  with_storage none sc = sc
  with_storage (some s) sc = record sc { storage = some s }

  unfoldable pub with_logger : Option Lg → Scheduler F W St Le Lg → Scheduler F W St Le Lg
  with_logger none sc = sc
  with_logger (some l) sc = record sc { logger = l }

  unfoldable pub with_leader : Option Le → Scheduler F W St Le Lg → Scheduler F W St Le Lg
  with_leader l sc = record sc { leader = l }

  unfoldable pub apply_options :
      List (Scheduler F W St Le Lg → Scheduler F W St Le Lg)
      → Scheduler F W St Le Lg
      → Bool
      → Scheduler F W St Le Lg × Bool
  apply_options [] sc configured = (sc, configured)
  apply_options (apply ∷ rest) sc configured =
      let sc' = apply sc in
      apply_options rest sc' (if touched sc'.leader sc.leader then true else configured)

unfoldable pub fill_options : Options → Options
fill_options o = record o {
  tick_interval = if eqb_ℤ o.tick_interval (pos 0) then second else o.tick_interval;
  shutdown_grace = if eqb_ℤ o.shutdown_grace (pos 0) then pos 30000000000 else o.shutdown_grace;
  schema = text_or o.schema (text "public");
  leader_renew_interval =
      if eqb_ℤ o.leader_renew_interval (pos 0) then pos 10000000000 else o.leader_renew_interval;
}

module _ {F W St Le Lg : Type 0} where
  abbrev pub with_default_storage :
      Defaults St Le Lg → Option St → Scheduler F W St Le Lg → Result (Scheduler F W St Le Lg)
  with_default_storage df (some s) sc = ok sc
  with_default_storage df none sc =
      if not sc.has_pool
      then err storage_required
      else ok (record sc { storage = some (df.postgres_storage sc.opts.schema) })

  abbrev pub with_default_leader :
      Defaults St Le Lg → Bool → Scheduler F W St Le Lg → Scheduler F W St Le Lg
  with_default_leader df configured sc =
      if not configured && sc.has_pool then record sc { leader = some df.postgres_leader } else sc

  unfoldable pub new :
      Defaults St Le Lg
      → Bool
      → Options
      → List (Scheduler F W St Le Lg → Scheduler F W St Le Lg)
      → Result (Scheduler F W St Le Lg)
  new df has_pool opts sched_opts =
      let o = fill_options opts in
      let initial : Scheduler F W St Le Lg = record {
        has_pool = has_pool;
        storage = none;
        leader = none;
        logger = df.default_logger;
        opts = o;
        jobs = [];
        running = false;
        stopped = false;
      } in
      let (sc, configured) = apply_options sched_opts initial false in
      if is_empty opts.node_id
      then err empty_node_id
      else if ltb_ℤ o.tick_interval (pos 100000000)
      then err (tick_too_small o.tick_interval)
      else (with_default_storage df sc.storage sc >>= λ s. ok (with_default_leader df configured s))

abbrev pub apply_job_options :
    {F : Type 0} → List (JobOptions F → JobOptions F) → JobOptions F → JobOptions F
apply_job_options [] o = o
apply_job_options (apply ∷ rest) o = apply_job_options rest (apply o)

module _ {F W St Le Lg : Type 0} (fl : Float F) where
  abbrev pub register :
      Text
      → Schedule
      → HandlerFunc W
      → JobOptions F
      → Option (Job F W)
      → Scheduler F W St Le Lg
      → Result (Job F W) × Scheduler F W St Le Lg
  register name sched fn o (some taken) sc = (err (job_name_taken name), sc)
  register name sched fn o none sc =
      let job : Job F W = record { name = name; schedule = sched; handler = fn; options = o } in
      (ok job, record sc { jobs = job ∷ sc.jobs })

  abbrev schedule_checked :
      Text
      → Option Schedule
      → Option (HandlerFunc W)
      → JobOptions F
      → Scheduler F W St Le Lg
      → Result (Job F W) × Scheduler F W St Le Lg
  schedule_checked name none fn o sc = (err nil_schedule, sc)
  schedule_checked name (some sched) none o sc = (err nil_handler, sc)
  schedule_checked name (some sched) (some fn) o sc =
      if sc.stopped
      then (err scheduler_stopped, sc)
      else register name sched fn o (lookup name sc.jobs) sc

  -- `Scheduler.Schedule`; a nil schedule or handler is `none`.
  unfoldable pub schedule :
      Text
      → Option Schedule
      → Option (HandlerFunc W)
      → List (JobOptions F → JobOptions F)
      → Scheduler F W St Le Lg
      → Result (Job F W) × Scheduler F W St Le Lg
  schedule name sched fn opts sc =
      if is_empty name
      then (err empty_job_name, sc)
      else schedule_checked name sched fn
          (with_defaults fl (apply_job_options opts (zero_options fl))) sc

abbrev pub job_names : {F W : Type 0} → List (Job F W) → List Text
job_names = map λ j. j.name

-- `names[j-1] > names[j]`
abbrev pub name_gt : Text → Text → Bool
name_gt a b = text_lt b a

module _ {F W St Le Lg : Type 0} where
  -- `Scheduler.Jobs`: the pointers that the map holds under the sorted names.
  unfoldable pub jobs_of : Scheduler F W St Le Lg → List (Option (Job F W))
  jobs_of sc = map (λ n. lookup n sc.jobs) (insertion_sort name_gt (job_names sc.jobs))

  unfoldable pub stop : Scheduler F W St Le Lg → Scheduler F W St Le Lg
  stop sc = record sc { stopped = true }

  unfoldable pub mark_stopped : Scheduler F W St Le Lg → Scheduler F W St Le Lg
  mark_stopped sc = record sc { running = false }
