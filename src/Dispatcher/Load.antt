-- ===== src/Dispatcher/Load.antt =====
-- dispatcher.go: schedules that are read back from a row.
use sundial.Base.{text, text_eq, if◌then◌else◌}
use sundial.Errors.{Result, ok, err, ◌>>=◌, wrap_err, parse, unknown_kind}
use sundial.Clock.{Time}
use sundial.Schedule.{Schedule, Formats, every, at, cron}
use sundial.Storage.Types.{DueJob}

abbrev pub map_ok : {A B : Type 0} → (A → B) → Result A → Result B
map_ok f (ok a) = ok (f a)
map_ok f (err e) = err e

module _ (fm : Formats) where
  open fm use {parse_duration, parse_time}

  unfoldable pub load_schedule_from_due : DueJob → Result Schedule
  load_schedule_from_due dj =
      if text_eq dj.schedule_kind (text "cron")
      then cron fm dj.schedule_expr
      else if text_eq dj.schedule_kind (text "every")
      then (parse_duration dj.schedule_expr >>= λ d. every fm d)
      else if text_eq dj.schedule_kind (text "at")
      then map_ok (λ t. at fm t) (parse_time dj.schedule_expr)
      else err (unknown_kind dj.schedule_kind)

  unfoldable pub compute_next_fire : DueJob → Time → Result Time
  compute_next_fire dj from =
      if text_eq dj.schedule_kind (text "cron")
      then map_ok (λ s. s.next from) (wrap_err (parse dj.schedule_expr) (cron fm dj.schedule_expr))
      else if text_eq dj.schedule_kind (text "every")
      then (wrap_err (parse dj.schedule_expr) (parse_duration dj.schedule_expr) >>= λ d.
          map_ok (λ s. s.next from) (every fm d))
      else if text_eq dj.schedule_kind (text "at")
      then map_ok (λ t. (at fm t).next from)
          (wrap_err (parse dj.schedule_expr) (parse_time dj.schedule_expr))
      else err (unknown_kind dj.schedule_kind)
