-- ===== src/Hello.antt =====
-- examples/hello/main.go: the demonstration program, from its set-up to its exit code. The signals and
-- what it prints are not modelled.
pub mod Redacted
pub mod Ready
pub mod Clean
use sundial.Base.{
  ℕ, suc, ◌+◌, ◌==◌, ◌+ℤ◌, ℤ, pos, Bool, true, false, ◌&&◌, List, [], ◌∷◌, ◌++◌, Option, none, some,
  Text, text, if◌then◌else◌, take, drop,
}
use sundial.Errors.{Error, Result, ok, err, ◌>>=◌}
use sundial.Clock.{Time, second}
use sundial.Schedule.{Schedule, Formats, every, at}
use sundial.Job.{
  HandlerFunc, JobOptions, Job, Float, run_once, HandlerEnd, returned, Context, with_leader_only,
  with_missed_fire,
}
use sundial.Leader.{is_empty}
use sundial.Dispatcher.State.{Options, Env}
use sundial.Dispatcher.Dispatch.{Event, HandlerEvent}
use sundial.Scheduler.Run.{RunEnd, failed, cancelled, nil_storage, run}
use sundial.Scheduler.{Scheduler, Defaults, auto_node_id, with_storage, with_logger, new, schedule}

-- The first loop of `redacted`, at index `i`: where the last '@' is.
unfoldable pub last_at : ℕ → Option ℕ → Text → Option ℕ
last_at i at [] = at
last_at i at (c ∷ cs) = last_at (suc i) (if c == 64 then some i else at) cs

-- "://" stands here, and the text does not end before it does.
abbrev pub at_scheme_end : Text → Bool
at_scheme_end (a ∷ b ∷ c ∷ cs) = a == 58 && b == 47 && c == 47
at_scheme_end _ = false

-- The second loop, at index `i`: how long the scheme is, with its "://".
unfoldable pub scheme_length : ℕ → Text → ℕ
scheme_length i [] = 0
scheme_length i (c ∷ cs) =
    let later = scheme_length (suc i) cs in if at_scheme_end (c ∷ cs) then i + 3 else later

abbrev pub redacted_at : Text → Option ℕ → Text
redacted_at url none = url
redacted_at url (some at) = take (scheme_length 0 url) url ++ text "***" ++ drop at url

unfoldable pub redacted : Text → Text
redacted url = redacted_at url (last_at 0 none url)

unfoldable pub hostname_or : Result Text → Text → Text
hostname_or (ok h) fallback = h
hostname_or (err e) fallback = fallback

-- What the handlers of `main` count.
pub record Hits : Type 0 where
  pub hourly_hits : ℤ
  pub probe_hits : ℤ

abbrev report : HandlerFunc Hits
report ctx w = (returned none, record w { hourly_hits = w.hourly_hits +ℤ pos 1 })

abbrev probe : HandlerFunc Hits
probe ctx w = (returned none, record w { probe_hits = w.probe_hits +ℤ pos 1 })

abbrev launch : HandlerFunc Hits
launch ctx w = (returned none, w)

-- `s, _ := sundial.Every(d)`: nil on an error.
abbrev value_of : {A : Type 0} → Result A → Option A
value_of (ok a) = some a
value_of (err e) = none

-- `pgxpool.New`, when DATABASE_URL is set; else no pool.
abbrev pub connect : (Text → Result (Unit {0})) → Text → Result Bool
connect pgxpool_new [] = ok false
connect pgxpool_new (c ∷ cs) = pgxpool_new (c ∷ cs) >>= λ pool. ok true

abbrev hello_options : Text → Options
hello_options node_id = record {
  node_id = node_id;
  tick_interval = second;
  shutdown_grace = pos 0;
  schema = [];
  leader_renew_interval = pos 0;
}

module _ {F St Le Lg : Type 0} (formats : Formats) (fl : Float F) (df : Defaults St Le Lg) where
  abbrev registered :
      Result (Job F Hits) × Scheduler F Hits St Le Lg → Result (Scheduler F Hits St Le Lg)
  registered (ok j, sc) = ok sc
  registered (err e, sc) = err e

  -- The helper of the example, which exits on an error.
  unfoldable pub register_or_exit :
      Text
      → Option Schedule
      → HandlerFunc Hits
      → List (JobOptions F → JobOptions F)
      → Scheduler F Hits St Le Lg
      → Result (Scheduler F Hits St Le Lg)
  register_or_exit name sch fn opts s = registered (schedule fl name sch (some fn) opts s)

  abbrev backend : St → Lg → Bool → List (Scheduler F Hits St Le Lg → Scheduler F Hits St Le Lg)
  backend memory logger true = with_logger (some logger) ∷ []
  backend memory logger false = with_storage (some memory) ∷ with_logger (some logger) ∷ []

  abbrev register_jobs : Time → Scheduler F Hits St Le Lg → Result (Scheduler F Hits St Le Lg)
  register_jobs now s =
      register_or_exit (text "report-every-12s") (value_of (every formats (pos 12000000000))) report
        (with_leader_only ∷ []) s
      >>= λ s1.
          register_or_exit (text "health-probe-5s") (value_of (every formats (pos 5000000000)))
            probe [] s1
          >>= λ s2.
              register_or_exit (text "send-launch-email")
                (some (at formats (now +ℤ pos 86400000000000))) launch
                (with_missed_fire run_once ∷ []) s2

  unfoldable pub set_up_as :
      (Text → Result (Unit {0})) → St → Lg → Text → Time → Text → Result (Scheduler F Hits St Le Lg)
  unfolding register_or_exit
  set_up_as pgxpool_new memory logger url now node_id = connect pgxpool_new url >>= λ has_pool.
      new df has_pool (hello_options node_id) (backend memory logger has_pool) >>= λ s.
      register_jobs now s

  -- `main`, up to the call of `Run`, by what the pool's package, the environment, the host and the
  -- clock say; an error is the one that `main` logs before it exits.
  unfoldable pub set_up :
      (Text → Result (Unit {0}))
      → St
      → Lg
      → Text
      → Time
      → Result Text
      → Text
      → Option (List ℕ)
      → Result (Scheduler F Hits St Le Lg)
  unfolding set_up_as
  set_up pgxpool_new memory logger url now hostname env random =
      set_up_as pgxpool_new memory logger url now (auto_node_id hostname env random)

-- The code of the exit after `Run`, or of the panic on a nil storage. The context is cancelled by a
-- signal; `is_canceled` is `errors.Is` for `context.Canceled`.
abbrev pub exit_code : (Error → Bool) → RunEnd → ℕ
exit_code is_canceled (failed e) = if is_canceled e then 0 else 1
exit_code is_canceled cancelled = 0
exit_code is_canceled nil_storage = 2

module _ {F S L Lg : Type 0} (env : Env F Hits S L) (is_canceled : Error → Bool) where
  -- `main` from the end of its set-up on, with its exit code.
  unfoldable pub run_set_up :
      Context → List Event → List HandlerEvent → Hits → Result (Scheduler F Hits S L Lg) → ℕ × Hits
  run_set_up ctx es order w (err e) = (1, w)
  run_set_up ctx es order w (ok s) =
      let (end, _, w') = run (record env { registry = s.jobs; opts = s.opts }) ctx es order w s in
      (exit_code is_canceled end, w')
