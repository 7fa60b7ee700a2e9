-- ===== src/Dispatcher/Trace/Attempts.antt =====
-- The span of one attempt (telemetry.go, dispatcher.go), from its start to its end.
use sundial.Base.{
  ℕ, ◌==◌, ◌≡◌, refl, ap, sym, subst, ◌∙◌, ◌⊎◌, inl, inr, ℤ, List, [], ◌∷◌, ◌++◌, Option, none,
  some, if◌then◌else◌, arith, length, Bool-cases,
}
use sundial.Errors.{Error}
use sundial.Clock.{Time}
use sundial.Job.{Context, Job}
use sundial.Storage.Types.{DueJob}
use sundial.Telemetry.{Span, on_span, error_recorded, status_ok, status_error, span_ended}
use sundial.Dispatcher.State.{Env, State}
use sundial.Dispatcher.Execute.{Begun, begin_attempt, run_attempt, end_attempt, execute}
use sundial.Dispatcher.Trace.{
  span_at, IsComplete, closed, finished, opened, span_at-append, span_at-length, span_at-closed,
  begin_attempt-spans, run_attempt-spans, end_attempt-spans,
}

abbrev pub IsFinished : Option Span → Type 0
IsFinished o = (s : Span) × (o ≡ some s) × IsComplete s

-- The spans are as they were, but that there may be more, which are complete.
abbrev pub Adds : List Span → List Span → Type 0
Adds ss ss' =
    (k : ℕ) → (span_at k ss' ≡ span_at k ss) ⊎ ((span_at k ss ≡ none) × IsFinished (span_at k ss'))

pub Adds-refl : (ss : List Span) → Adds ss ss
Adds-refl ss k = inl refl

pub Adds-trans : (a b c : List Span) → Adds a b → Adds b c → Adds a c
Adds-trans a b c f g k = by_first (f k) (g k)
  where
    by_first :
        (span_at k b ≡ span_at k a) ⊎ ((span_at k a ≡ none) × IsFinished (span_at k b))
        → (span_at k c ≡ span_at k b) ⊎ ((span_at k b ≡ none) × IsFinished (span_at k c))
        → (span_at k c ≡ span_at k a) ⊎ ((span_at k a ≡ none) × IsFinished (span_at k c))
    by_first (inl e) (inl f) = inl (f ∙ e)
    by_first (inl e) (inr (n, more)) = inr (sym e ∙ n, more)
    by_first (inr (n, (s, q, d))) (inl f) = inr (n, (s, f ∙ q, d))
    by_first (inr (n, (s, q, d))) (inr (n', more)) = absurd cc

pub IsFinished-finished :
    (e : Option Error) (s : Span) → s.span_calls ≡ [] → IsFinished (finished e (some s))
IsFinished-finished none s q =
    (_, refl, (none, ap (λ cs. (cs ++ status_ok ∷ []) ++ span_ended ∷ []) q))
IsFinished-finished (some e) s q = (
  _,
  refl,
  (some e, ap (λ cs. ((cs ++ error_recorded e ∷ []) ++ status_error ∷ []) ++ span_ended ∷ []) q),
)

module _ {F W S L : Type 0} (env : Env F W S L) where
  -- The rest of an attempt closes its span.
  pub resumed-spans :
      (job : Job F W) (dj : DueJob) (t : Time) (n : ℤ) (b : Begun F W S L)
      → let r = run_attempt env job dj b in
        (end_attempt env job dj t n r).telemetry.spans
        ≡ closed b.span r.error b.state.telemetry.spans
  resumed-spans job dj t n b =
      let r = run_attempt env job dj b in
      let (same, spans) = run_attempt-spans env job dj b in
      end_attempt-spans env job dj t n r
      ∙ ap (λ k. on_span k span_ended r.state.telemetry.spans) same
      ∙ ap (on_span b.span span_ended) spans

  -- How an attempt without a break comes back.
  abbrev pub outcome_error : Context → Job F W → DueJob → State F W S L → Option Error
  outcome_error ctx job dj d = (run_attempt env job dj (begin_attempt env ctx job dj d)).error

  pub execute-spans :
      (ctx : Context) (job : Job F W) (dj : DueJob) (d : State F W S L)
      → (execute env ctx job dj d).telemetry.spans
        ≡ closed
            (length d.telemetry.spans)
            (outcome_error ctx job dj d)
            (d.telemetry.spans ++ opened env dj ∷ [])
  unfolding execute
  execute-spans ctx job dj d =
      let b = begin_attempt env ctx job dj d in
      let e = outcome_error ctx job dj d in
      let (number, spans) = begin_attempt-spans env ctx job dj d in
      resumed-spans job dj b.started b.attempt b
      ∙ ap (λ k. closed k e b.state.telemetry.spans) number
      ∙ ap (closed (length d.telemetry.spans) e) spans

  pub execute-Adds :
      (ctx : Context) (job : Job F W) (dj : DueJob) (d : State F W S L)
      → Adds d.telemetry.spans (execute env ctx job dj d).telemetry.spans
  execute-Adds ctx job dj d k =
      let ss = d.telemetry.spans in
      let e = outcome_error ctx job dj d in
      let after =
        ap (span_at k) (execute-spans ctx job dj d)
        ∙ span_at-closed (length ss) k e (ss ++ opened env dj ∷ []) in
      let pushed = span_at-append k ss (opened env dj) in
      elim (Bool-cases (length ss == k)) [
        | inl q ↦
            let here : length ss ≡ k = ground (arith, q) in
            let (s, f, c) = IsFinished-finished e (opened env dj) refl in
            inr (
              subst (λ j. span_at j ss ≡ none) here (span_at-length ss),
              (
                s,
                after
                    ∙ rw (q, if◌then◌else◌)
                        (ap (finished e) (pushed ∙ rw (q, if◌then◌else◌) refl) ∙ f),
                c,
              ),
            )
        | inr q ↦ inl (after ∙ rw (q, if◌then◌else◌) (pushed ∙ rw (q, if◌then◌else◌) refl))
      ]
