-- ===== src/Examples.antt =====
-- Concrete inputs for the tests: a cluster whose clock counts nanoseconds up by one at each reading,
-- with two jobs in a MemoryStorage. No code of the repository is modelled here.
pub mod Stores
pub mod Locked
pub mod Nodes
pub mod Missed
pub mod Setups
pub mod Server
pub mod Sent
pub mod Greeting
pub mod Waits
pub mod Meters
pub mod Overlaps
pub mod Changes
pub mod Traces
pub mod Clusters
use sundial.Base.{
  ℕ, suc, ◌+◌, ◌*◌, ◌^◌, ◌==◌, ltb, ◌≡◌, refl, ℤ, pos, negsuc, pos_part, ◌+ℤ◌, Bool, true, false,
  List, [], ◌∷◌, Option, none, some, Text, text, if◌then◌else◌, arith,
}
use sundial.Errors.{Error, Result, ok, err, other}
use sundial.Clock.{Time, Duration, second}
use sundial.Schedule.{Schedule, Formats, interval_schedule, at}
use sundial.Job.{
  Context, HandlerEnd, returned, panicked, MissedFirePolicy, run_once, run_all, JobOptions, Job,
  Float,
}
use sundial.Storage.Types.{DueJob}
use sundial.Storage.Memory.{MemJob, MemoryStorage, memory_storage}
use sundial.Leader.{MemoryLeader, memory_leader}
use sundial.Telemetry.{Telemetry, new_telemetry}
use sundial.Dispatcher.State.{World, Options, Env, State}

abbrev encode : ℤ → Text
encode (pos n) = 0 ∷ n ∷ []
encode (negsuc n) = 1 ∷ n ∷ []

abbrev decode : Text → Result ℤ
decode [] = err (other [])
decode (sign ∷ []) = err (other [])
decode (sign ∷ n ∷ rest) = ok (if sign == 0 then pos n else negsuc n)

abbrev pub formats : Formats
formats = record {
  parse_cron = λ s. ok (λ t. t +ℤ pos 60);
  format_duration = encode;
  parse_duration = decode;
  format_time = encode;
  parse_time = decode;
}

abbrev pub floats : Float ℕ
floats = record {
  zero_float = 0;
  two = 2;
  half = 0;
  eq_float = ◌==◌;
  gt_float = λ a b. ltb b a;
  add_float = λ a b. a + b;
  mul_float = λ a b. a * b;
  pow_float = λ a b. a ^ b;
  of_int = pos_part;
  to_duration = λ n. pos n;
}

abbrev pub world : World ℕ ℕ
world = record { now = λ w. (pos w, suc w); float64 = λ w. (1, w); message = λ e. text "error" }

abbrev pub options : Options
options = record {
  node_id = text "n1";
  tick_interval = second;
  shutdown_grace = pos 30000000000;
  schema = text "public";
  leader_renew_interval = pos 10000000000;
}

abbrev plain_options : MissedFirePolicy → JobOptions ℕ
plain_options policy = record {
  timeout = pos 0;
  leader_only = false;
  missed_fire = policy;
  retry = record {
    max_attempts = pos 2;
    initial_backoff = pos 5;
    max_backoff = pos 9;
    multiplier = 2;
  };
}

abbrev pub hourly : Schedule
hourly = interval_schedule formats (pos 3600000000000)

abbrev pub good : Job ℕ ℕ
good = record {
  name = text "a";
  schedule = hourly;
  handler = λ c w. (returned none, suc w);
  options = plain_options run_once;
}

abbrev pub bad : Job ℕ ℕ
bad = record {
  name = text "b";
  schedule = hourly;
  handler = λ c w. (panicked (text "no"), w);
  options = plain_options run_all;
}

abbrev row : Text → Text → MemJob
row i n = record {
  id = i;
  name = n;
  next_fire_time = pos 1000;
  schedule = encode (pos 3600000000000);
  schedule_kind = text "every";
  locked = false;
}

abbrev pub id_a : Text
id_a = text "mem-job-1"

abbrev pub id_b : Text
id_b = text "mem-job-2"

abbrev pub row_a : MemJob
row_a = row id_a (text "a")

abbrev pub two_rows : MemoryStorage
two_rows = record { jobs = row id_b (text "b") ∷ row_a ∷ []; runs = []; next = 2 }

abbrev pub due : Text → Text → DueJob
due i n = record {
  id = i;
  name = n;
  next_fire_time = pos 1000;
  schedule_expr = encode (pos 3600000000000);
  schedule_kind = text "every";
}

abbrev pub due_a : DueJob
due_a = due id_a (text "a")

abbrev pub due_b : DueJob
due_b = due id_b (text "b")

abbrev pub cluster : Env ℕ ℕ MemoryStorage MemoryLeader
cluster = record {
  storage_ops = memory_storage ℕ ℕ;
  leader_ops = memory_leader;
  world_ops = world;
  floats = floats;
  formats = formats;
  registry = good ∷ bad ∷ [];
  opts = options;
}

abbrev pub fresh : State ℕ ℕ MemoryStorage MemoryLeader
fresh = record {
  storage = two_rows;
  leader = none;
  attempts = [];
  in_flight = 0;
  spawned = [];
  active = [];
  telemetry = new_telemetry;
  world = 2000;
}

abbrev pub no_deadline : Context
no_deadline = record { deadline = none }
