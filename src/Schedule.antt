-- ===== src/Schedule.antt =====
-- schedule.go and cron.go: the Schedule interface, its three implementations and the iterator of
-- missed fires. robfig/cron and the text formats of package time are parameters.
pub mod Window
use sundial.Base.{
  ℕ, zero, suc, ◌≡◌, ℤ, pos, pos_part, ◌+ℤ◌, ltb_ℤ, Bool, not, ◌||◌, List, [], ◌∷◌, Option, none,
  some, Text, text, if◌then◌else◌,
}
use sundial.Errors.{Error, Result, ok, err, invalid_schedule}
use sundial.Clock.{Time, Duration, zero_time, is_zero, before, after, second}

-- The interface: a value of it is its three methods.
pub record Schedule : Type 0 where
  pub next : Time → Time
  pub string : Text
  pub kind : Text

-- What the package takes from libraries to print and to read a schedule.
pub record Formats : Type 0 where
  -- `cronParser.Parse`, with the `Next` of the parsed schedule
  pub parse_cron : Text → Result (Time → Time)
  -- `time.Duration.String` and `time.ParseDuration`
  pub format_duration : Duration → Text
  pub parse_duration : Text → Result Duration
  -- `t.Format(time.RFC3339)` and `time.Parse(time.RFC3339, s)`
  pub format_time : Time → Text
  pub parse_time : Text → Result Time

module _ (f : Formats) where
  open f use {parse_cron, format_duration, format_time}

  unfoldable pub interval_schedule : Duration → Schedule
  interval_schedule d = record {
    next = λ t. t +ℤ d;
    string = format_duration d;
    kind = text "every";
  }

  unfoldable pub every : Duration → Result Schedule
  unfolding interval_schedule
  every d =
      if ltb_ℤ d second
      then err (invalid_schedule (format_duration d))
      else ok (interval_schedule d)

  unfoldable pub at : Time → Schedule
  at t = record {
    next = λ u. if after t u then t else zero_time;
    string = format_time t;
    kind = text "at";
  }

  abbrev cron_schedule : Text → (Time → Time) → Schedule
  cron_schedule expr next = record { next = next; string = expr; kind = text "cron" }

  abbrev parsed_cron : Text → Result (Time → Time) → Result Schedule
  parsed_cron expr (ok next) = ok (cron_schedule expr next)
  parsed_cron expr (err e) = err (invalid_schedule expr)

  unfoldable pub cron : Text → Result Schedule
  cron expr = parsed_cron expr (parse_cron expr)

-- The loop of `iterateSchedule`; the number counts `limit - len(out)` down.
unfoldable pub fires_from : (Time → Time) → Time → Time → ℕ → List Time
fires_from next t until zero = []
fires_from next t until (suc n) =
    let u = next t in
    let rest = u ∷ fires_from next u until n in
    if is_zero u || not (before u until) then [] else rest

-- A nil Schedule is `none`.
unfoldable pub iterate_schedule : Option Schedule → Time → Time → ℤ → List Time
unfolding fires_from
iterate_schedule none from until limit = []
iterate_schedule (some s) from until limit =
    if not (before from until) || not (ltb_ℤ (pos 0) limit)
    then []
    else fires_from s.next from until (pos_part limit)
