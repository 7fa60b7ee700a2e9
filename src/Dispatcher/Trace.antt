-- ===== src/Dispatcher/Trace.antt =====
-- The spans of the attempts (telemetry.go, dispatcher.go), call by call.
pub mod Attempts
pub mod Ticks
pub mod Runs
use sundial.Base.{
  ℕ, zero, suc, ◌+◌, ◌==◌, ◌≡◌, ◌≢◌, refl, ap, sym, subst, ◌∙◌, ◌⊎◌, inl, inr, ℤ, pos, Bool, true,
  false, List, [], ◌∷◌, ◌++◌, Option, none, some, Text, if◌then◌else◌, arith, length, if_both,
  Bool-cases, ltb_ℤ, negsuc, ◌+ℤ◌,
}
use sundial.Errors.{Error}
use sundial.Clock.{Time, Duration}
use sundial.Job.{Context, Job}
use sundial.Storage.Types.{DueJob}
use sundial.Telemetry.{
  Telemetry, Span, is_success, SpanCall, error_recorded, status_ok, status_error, span_ended,
  on_span, note_error, start_run_span, record_error, end_span, record_lag, record_duration,
  add_running,
}
use sundial.Dispatcher.State.{Env, State, Active, read_clock, bump_attempt, forget_attempt}
use sundial.Dispatcher.Execute.{
  Begun, Ended, attempt_context, begin_attempt, run_attempt, run_handler, end_attempt, settle,
  retry_later, record_outcome, execute, outcome_of,
}

unfoldable pub span_at : ℕ → List Span → Option Span
span_at k [] = none
span_at zero (s ∷ ss) = some s
span_at (suc k) (s ∷ ss) = span_at k ss

abbrev pub status_of : Option Error → SpanCall
status_of none = status_ok
status_of (some e) = status_error

-- The calls on the span of an attempt that has come to its end.
abbrev pub calls_of : Option Error → List SpanCall
calls_of none = status_ok ∷ span_ended ∷ []
calls_of (some e) = error_recorded e ∷ status_error ∷ span_ended ∷ []

abbrev pub IsComplete : Span → Type 0
IsComplete s = (e : Option Error) × (s.span_calls ≡ calls_of e)

abbrev called : SpanCall → Option Span → Option Span
called c none = none
called c (some s) = some (record s { span_calls = s.span_calls ++ c ∷ [] })

span_at-on_span :
    (k j : ℕ) (c : SpanCall) (ss : List Span)
    → span_at j (on_span k c ss) ≡ (if k == j then called c (span_at j ss) else span_at j ss)
unfolding span_at on_span
span_at-on_span k j c [] = ground arith
span_at-on_span zero zero c (s ∷ ss) = ground arith
span_at-on_span zero (suc j) c (s ∷ ss) = ground arith
span_at-on_span (suc k) zero c (s ∷ ss) = ground arith
span_at-on_span (suc k) (suc j) c (s ∷ ss) = ground (arith, span_at-on_span k j c ss)

pub span_at-append :
    (j : ℕ) (ss : List Span) (s : Span)
    → span_at j (ss ++ s ∷ []) ≡ (if length ss == j then some s else span_at j ss)
unfolding span_at
span_at-append zero [] s = refl
span_at-append (suc j) [] s = ground arith
span_at-append zero (t ∷ ss) s = ground arith
span_at-append (suc j) (t ∷ ss) s = ground (arith, span_at-append j ss s)

pub span_at-length : (ss : List Span) → span_at (length ss) ss ≡ none
unfolding span_at
span_at-length [] = refl
span_at-length (s ∷ ss) = span_at-length ss

-- The calls of the rest of an attempt on its span.
abbrev pub closed : ℕ → Option Error → List Span → List Span
closed k e ss = on_span k span_ended (on_span k (status_of e) (note_error k e ss))

abbrev pub finished : Option Error → Option Span → Option Span
finished none o = called span_ended (called status_ok o)
finished (some e) o = called span_ended (called status_error (called (error_recorded e) o))

pub span_at-closed :
    (k j : ℕ) (e : Option Error) (ss : List Span)
    → span_at j (closed k e ss) ≡ (if k == j then finished e (span_at j ss) else span_at j ss)
span_at-closed k j none ss =
    let last = on_span k status_ok ss in
    elim (Bool-cases (k == j)) [
      | inl q ↦
          ground (arith, q, span_at-on_span k j span_ended last, span_at-on_span k j status_ok ss)
      | inr q ↦
          ground (arith, q, span_at-on_span k j span_ended last, span_at-on_span k j status_ok ss)
    ]
span_at-closed k j (some e) ss =
    let noted = on_span k (error_recorded e) ss in
    let last = on_span k status_error noted in
    elim (Bool-cases (k == j)) [
      | inl q ↦ ground (
        arith,
        q,
        span_at-on_span k j span_ended last,
        span_at-on_span k j status_error noted,
        span_at-on_span k j (error_recorded e) ss,
      )
      | inr q ↦ ground (
        arith,
        q,
        span_at-on_span k j span_ended last,
        span_at-on_span k j status_error noted,
        span_at-on_span k j (error_recorded e) ss,
      )
    ]

-- What an attempt opens.
abbrev pub opened : {F W S L : Type 0} → Env F W S L → DueJob → Span
opened env dj = record {
  job_name = dj.name;
  job_id = dj.id;
  schedule_kind = dj.schedule_kind;
  node_id = env.opts.node_id;
  fire_time = dj.next_fire_time;
  span_calls = [];
}

module _ {F W S L : Type 0} (env : Env F W S L) where
  attempt_context-telemetry :
      (ctx : Context) (t : Duration) (d : State F W S L)
      → (attempt_context env ctx t d).1.telemetry ≡ d.telemetry
  unfolding attempt_context read_clock
  attempt_context-telemetry ctx t d =
      if_both (λ (r : Context × State F W S L). r.1.telemetry ≡ d.telemetry) (ltb_ℤ (pos 0) t) refl
        refl

  settle-telemetry :
      (job : Job F W) (dj : DueJob) (n : ℤ) (e : Option Error) (d : State F W S L)
      → (settle env job dj n e d).1.telemetry ≡ d.telemetry
  unfolding settle retry_later read_clock forget_attempt
  settle-telemetry job dj n none d = refl
  settle-telemetry job dj n (some e) d =
      elim (Bool-cases (ltb_ℤ n job.options.retry.max_attempts)) [
        | inl b ↦ rw (b, if◌then◌else◌) refl
        | inr b ↦ rw (b, if◌then◌else◌) refl
      ]

  pub begin_attempt-spans :
      (ctx : Context) (job : Job F W) (dj : DueJob) (d : State F W S L)
      → let b = begin_attempt env ctx job dj d in
        (b.span ≡ length d.telemetry.spans)
        × (b.state.telemetry.spans ≡ d.telemetry.spans ++ opened env dj ∷ [])
  unfolding begin_attempt read_clock bump_attempt record_lag add_running start_run_span
  begin_attempt-spans ctx job dj d =
      (refl, ap (λ t. t.spans) (attempt_context-telemetry ctx job.options.timeout _))

  pub run_attempt-spans :
      (job : Job F W) (dj : DueJob) (b : Begun F W S L)
      → let r = run_attempt env job dj b in
        (r.span ≡ b.span)
        × (r.state.telemetry.spans
            ≡ on_span b.span
                (status_of r.error)
                (note_error b.span r.error b.state.telemetry.spans))
  unfolding run_attempt run_handler read_clock record_duration record_error
  run_attempt-spans job dj b = (refl, by_error _)
    where
      by_error :
          (e : Option Error)
          → on_span b.span
              (if is_success (outcome_of e) then status_ok else status_error)
              (note_error b.span e b.state.telemetry.spans)
            ≡ on_span b.span (status_of e) (note_error b.span e b.state.telemetry.spans)
      by_error none = refl
      by_error (some e) = refl

  pub end_attempt-spans :
      (job : Job F W) (dj : DueJob) (t : Time) (n : ℤ) (r : Ended F W S L)
      → (end_attempt env job dj t n r).telemetry.spans
        ≡ on_span r.span span_ended r.state.telemetry.spans
  unfolding end_attempt record_outcome add_running end_span
  end_attempt-spans job dj t n r =
      ap (λ x. on_span r.span span_ended x.spans) (settle-telemetry job dj n r.error r.state)
