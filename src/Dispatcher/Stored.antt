-- ===== src/Dispatcher/Stored.antt =====
-- dispatcher.go: what becomes of a schedule that is stored as text and read back.
use sundial.Base.{
  ◌≡◌, refl, ap, ◌∙◌, inl, inr, pos, ◌+ℤ◌, ◌≤ℤ◌, ◌<ℤ◌, Option, none, some, Text, text, text_eq,
  if◌then◌else◌, arith, Bool-cases,
}
use sundial.Errors.{Error, Result, ok, err, unknown_kind, parse, ◌>>=◌, wrap_err}
use sundial.Clock.{Time, Duration, zero_time, second, min_duration, max_duration}
use sundial.Schedule.{Schedule, Formats, every, at, cron}
use sundial.Job.{Context, Job}
use sundial.Storage.Types.{DueJob}
use sundial.Dispatcher.Load.{load_schedule_from_due, compute_next_fire, map_ok}
use sundial.Dispatcher.State.{Env, State, lookup}
use sundial.Dispatcher.Dispatch.{maybe_dispatch, dispatch_job}

-- The start of the year 10000, the first that RFC 3339 has no text for.
abbrev pub year_10000 : Time
year_10000 = pos 315537897600000000000

-- The documented behaviour of package time: a duration's text is read back as the duration, and an
-- instant's RFC 3339 text as the instant cut to a whole second.
pub record FormatLaws (fm : Formats) : Type 0 where
  pub duration_back :
      (d : Duration)
      → min_duration ≤ℤ d
      → d ≤ℤ max_duration
      → fm.parse_duration (fm.format_duration d) ≡ ok d
  pub time_back :
      (t : Time)
      → zero_time ≤ℤ t
      → t <ℤ year_10000
      → (u : Time) × (fm.parse_time (fm.format_time t) ≡ ok u) × (u ≤ℤ t) × (t <ℤ (u +ℤ second))

-- Both readers agree or both refuse.
abbrev pub Agrees : Time → Result Schedule → Result Time → Type 0
Agrees from (ok s) r = r ≡ ok (s.next from)
Agrees from (err e) r = (e' : Error) × (r ≡ err e')

module _ (fm : Formats) where
  agree_made :
      (w : Error → Error) (from : Time) (r : Result Schedule)
      → Agrees from r (map_ok (λ s. s.next from) (wrap_err w r))
  agree_made w from (ok s) = refl
  agree_made w from (err e) = (w e, refl)

  agree_every :
      (w : Error → Error) (from : Time) (r : Result Duration)
      → Agrees from
          (r >>= λ d. every fm d)
          (wrap_err w r >>= λ d. map_ok (λ s. s.next from) (every fm d))
  agree_every w from (err e) = (w e, refl)
  agree_every w from (ok d) = agree_plain (every fm d)
    where
      agree_plain : (r : Result Schedule) → Agrees from r (map_ok (λ s. s.next from) r)
      agree_plain (ok s) = refl
      agree_plain (err e) = (e, refl)

  agree_at :
      (w : Error → Error) (from : Time) (r : Result Time)
      → Agrees from (map_ok (λ t. at fm t) r) (map_ok (λ t. (at fm t).next from) (wrap_err w r))
  agree_at w from (ok t) = refl
  agree_at w from (err e) = (w e, refl)

  -- The next fire that the dispatcher computes from a row is that of the schedule which the replay
  -- loads from the same row; where one reader refuses the row, so does the other.
  pub compute_next_fire-load :
      (dj : DueJob) (from : Time)
      → Agrees from (load_schedule_from_due fm dj) (compute_next_fire fm dj from)
  unfolding load_schedule_from_due compute_next_fire
  compute_next_fire-load dj from =
      let w : Error → Error = parse dj.schedule_expr in
      elim (Bool-cases (text_eq dj.schedule_kind (text "cron"))) [
        | inl a ↦ rw (a, if◌then◌else◌) (agree_made w from (cron fm dj.schedule_expr))
        | inr a ↦ elim (Bool-cases (text_eq dj.schedule_kind (text "every"))) [
          | inl b ↦
              rw (a, b, if◌then◌else◌) (agree_every w from (fm.parse_duration dj.schedule_expr))
          | inr b ↦ elim (Bool-cases (text_eq dj.schedule_kind (text "at"))) [
            | inl c ↦ rw (a, b, c, if◌then◌else◌) (agree_at w from (fm.parse_time dj.schedule_expr))
            | inr c ↦ rw (a, b, c, if◌then◌else◌) (unknown_kind dj.schedule_kind, refl)
          ]
        ]
      ]

  -- The schedules that Every and Cron make.
  pub data IsMade : Schedule → Type 0 where
    by_every : {s : Schedule} (d : Duration) → d ≤ℤ max_duration → every fm d ≡ ok s → IsMade s
    by_cron : {s : Schedule} (expr : Text) → cron fm expr ≡ ok s → IsMade s

  load-every :
      (dj : DueJob) (d : Duration)
      → dj.schedule_kind ≡ text "every"
      → fm.parse_duration dj.schedule_expr ≡ ok d
      → load_schedule_from_due fm dj ≡ every fm d
  unfolding load_schedule_from_due text_eq
  load-every dj d k e = rw (k, e)

  load-cron :
      (dj : DueJob)
      → dj.schedule_kind ≡ text "cron"
      → load_schedule_from_due fm dj ≡ cron fm dj.schedule_expr
  unfolding load_schedule_from_due text_eq
  load-cron dj k = rw k

  every-ok :
      (d : Duration) (s : Schedule)
      → every fm d ≡ ok s
      → (second ≤ℤ d) × (s.kind ≡ text "every") × (s.string ≡ fm.format_duration d)
  unfolding every
  every-ok d s h = ground arith

  cron-ok :
      (expr : Text) (s : Schedule)
      → cron fm expr ≡ ok s
      → (s.kind ≡ text "cron") × (s.string ≡ expr)
  unfolding cron
  cron-ok expr s h = ground arith

  -- If the text formats of package time read back what they print: a row that stores a schedule of
  -- Every, of at most the longest duration, or of Cron is read back as the very schedule.
  pub load_schedule-made :
      (s : Schedule) (dj : DueJob)
      → FormatLaws fm
      → IsMade s
      → dj.schedule_kind ≡ s.kind
      → dj.schedule_expr ≡ s.string
      → load_schedule_from_due fm dj ≡ ok s
  load_schedule-made s dj laws (by_every d top made) k e =
      let (long, kind, string) = every-ok d s made in
      load-every dj d (k ∙ kind)
        (ap fm.parse_duration (e ∙ string) ∙ laws.duration_back d (omega arith) top)
      ∙ made
  load_schedule-made s dj laws (by_cron expr made) k e =
      let (kind, string) = cron-ok expr s made in
      load-cron dj (k ∙ kind) ∙ ap (λ x. cron fm x) (e ∙ string) ∙ made

  next-at :
      (dj : DueJob) (u now : Time)
      → dj.schedule_kind ≡ text "at"
      → fm.parse_time dj.schedule_expr ≡ ok u
      → u ≤ℤ now
      → compute_next_fire fm dj now ≡ ok zero_time
  unfolding compute_next_fire text_eq at
  next-at dj u now k e h = rw (k, e) (ground arith)

module _ {F W S L : Type 0} (env : Env F W S L) where
  kind-at :
      (t : Time)
      → ((at env.formats t).kind ≡ text "at")
        × ((at env.formats t).string ≡ env.formats.format_time t)
  unfolding at
  kind-at t = (refl, refl)

  -- If the text formats of package time read back what they print: once the instant of an At
  -- schedule before the year 10000 has come, the dispatcher leaves everything as it is for a row
  -- that stores that schedule.
  pub at_too_late :
      (ctx : Context) (dj : DueJob) (t now : Time) (d : State F W S L)
      → FormatLaws env.formats
      → zero_time ≤ℤ t
      → t <ℤ year_10000
      → dj.schedule_kind ≡ (at env.formats t).kind
      → dj.schedule_expr ≡ (at env.formats t).string
      → t ≤ℤ now
      → maybe_dispatch env ctx dj now d ≡ d
  unfolding maybe_dispatch
  at_too_late ctx dj t now d laws z y k e h =
      let (u, back, below, above) = laws.time_back t z y in
      let (kind, string) = kind-at t in
      let none_left =
        next-at env.formats dj u now (k ∙ kind) (ap env.formats.parse_time (e ∙ string) ∙ back)
          (omega arith) in
      by_job none_left (lookup dj.name env.registry)
    where
      by_job :
          compute_next_fire env.formats dj now ≡ ok zero_time
          → (o : Option (Job F W)) → dispatch_job env ctx o dj now d ≡ d
      by_job c none = refl
      by_job c (some job) = ground arith
