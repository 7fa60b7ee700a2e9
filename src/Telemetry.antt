-- ===== src/Telemetry.antt =====
-- telemetry.go: the instruments and the spans, as what has been called on them. Their construction is
-- in `Instruments`.
pub mod Instruments
use sundial.Base.{
  ℕ, zero, suc, length, Option, none, some, ℤ, pos, ◌+ℤ◌, Bool, true, false, List, [], ◌∷◌, ◌++◌,
  Text, if◌then◌else◌,
}
use sundial.Errors.{Error}
use sundial.Clock.{Time, Duration, sub}
use sundial.Storage.Types.{RunOutcome, run_succeeded}

-- The calls on a span: `RecordError`, `SetStatus` with its code, and `End`.
pub data SpanCall : Type 0 where
  error_recorded : Error → SpanCall
  status_ok status_error span_ended : SpanCall

-- A span with its attributes and the calls on it. The fire time is the instant, not its text.
pub record Span : Type 0 where
  pub job_name : Text
  pub job_id : Text
  pub schedule_kind : Text
  pub node_id : Text
  pub fire_time : Time
  pub span_calls : List SpanCall

pub record Telemetry : Type 0 where
  pub jobs_scheduled : ℤ
  pub jobs_running : ℤ
  pub job_duration : List (Text × RunOutcome × Duration)
  pub job_lag : List (Text × Duration)
  pub job_failures : List (Text × RunOutcome)
  pub job_claimed_total : List Text
  pub spans : List Span

unfoldable pub new_telemetry : Telemetry
new_telemetry = record {
  jobs_scheduled = pos 0;
  jobs_running = pos 0;
  job_duration = [];
  job_lag = [];
  job_failures = [];
  job_claimed_total = [];
  spans = [];
}

abbrev pub is_success : RunOutcome → Bool
is_success run_succeeded = true
is_success _ = false

-- A call on the span of a number.
unfoldable pub on_span : ℕ → SpanCall → List Span → List Span
on_span k c [] = []
on_span zero c (s ∷ ss) = record s { span_calls = s.span_calls ++ c ∷ [] } ∷ ss
on_span (suc k) c (s ∷ ss) = s ∷ on_span k c ss

-- A span is known by its number.
unfoldable pub start_run_span : Text → Text → Text → Text → Time → Telemetry → ℕ × Telemetry
start_run_span name id node kind fire t =
    let s : Span = record {
      job_name = name;
      job_id = id;
      schedule_kind = kind;
      node_id = node;
      fire_time = fire;
      span_calls = [];
    } in
    (length t.spans, record t { spans = t.spans ++ s ∷ [] })

-- `span.RecordError`, if there is an error.
abbrev pub note_error : ℕ → Option Error → List Span → List Span
note_error k none ss = ss
note_error k (some e) ss = on_span k (error_recorded e) ss

unfoldable pub record_error : ℕ → Option Error → Telemetry → Telemetry
record_error k e t = record t { spans = note_error k e t.spans }

unfoldable pub end_span : ℕ → Telemetry → Telemetry
end_span k t = record t { spans = on_span k span_ended t.spans }

unfoldable pub record_lag : Text → Time → Time → Telemetry → Telemetry
record_lag name fire started t = record t { job_lag = t.job_lag ++ (name, sub started fire) ∷ [] }

unfoldable pub record_duration : ℕ → Text → Duration → RunOutcome → Telemetry → Telemetry
record_duration k name dur outcome t = record t {
  job_duration = t.job_duration ++ (name, outcome, dur) ∷ [];
  job_failures =
      if is_success outcome then t.job_failures else t.job_failures ++ (name, outcome) ∷ [];
  spans = on_span k (if is_success outcome then status_ok else status_error) t.spans;
}

unfoldable pub claimed_inc : Text → Telemetry → Telemetry
claimed_inc name t = record t { job_claimed_total = t.job_claimed_total ++ name ∷ [] }

unfoldable pub add_running : ℤ → Telemetry → Telemetry
add_running n t = record t { jobs_running = t.jobs_running +ℤ n }

unfoldable pub add_scheduled : ℤ → Telemetry → Telemetry
add_scheduled n t = record t { jobs_scheduled = t.jobs_scheduled +ℤ n }
