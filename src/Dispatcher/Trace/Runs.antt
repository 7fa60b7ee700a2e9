-- ===== src/Dispatcher/Trace/Runs.antt =====
-- The spans of a run whose handlers overlap, and of the drain (dispatcher.go, telemetry.go).
use sundial.Base.{
  ℕ, zero, suc, ◌+◌, ◌==◌, ◌≡◌, refl, ap, sym, subst, ◌∙◌, ◌⊎◌, inl, inr, List, [], ◌∷◌, ◌++◌,
  Option, none, some, if◌then◌else◌, arith, length, Bool-cases,
}
use sundial.Errors.{Error}
use sundial.Job.{Context}
use sundial.Telemetry.{Span}
use sundial.Dispatcher.State.{Env, State, Task, Active}
use sundial.Dispatcher.Execute.{Begun, resumed, begin_attempt, run_attempt, end_attempt}
use sundial.Dispatcher.Dispatch.{
  Event, ticks, renews, handles, begins, returns, pick, tick, maybe_renew_leader, begin_picked,
  return_picked, step, run_events, run,
}
use sundial.Dispatcher.InFlight.{begin_attempt-Same, run_attempt-Same, end_attempt-Same}
use sundial.Dispatcher.Balance.{tick-Grows}
use sundial.Dispatcher.Trace.{
  span_at, IsComplete, closed, finished, opened, span_at-append, span_at-length, span_at-closed,
  begin_attempt-spans,
}
use sundial.Dispatcher.Trace.Attempts.{Adds, IsFinished, IsFinished-finished, resumed-spans}
use sundial.Dispatcher.Trace.Ticks.{tick-Adds}

-- How many of the running attempts have the span of a number.
unfoldable pub holders : {F W : Type 0} → ℕ → List (Active F W) → ℕ
holders k [] = 0
holders k (a ∷ rest) = (if a.span == k then 1 else 0) + holders k rest

holders-append :
    {F W : Type 0} (k : ℕ) (xs : List (Active F W)) (a : Active F W)
    → holders k (xs ++ a ∷ []) ≡ holders k xs + (if a.span == k then 1 else 0)
unfolding holders
holders-append k [] a = ground arith
holders-append k (x ∷ xs) a = ground (arith, holders-append k xs a)

abbrev Counts :
    {F W : Type 0} → ℕ → List (Active F W) → Option (Active F W × List (Active F W)) → Type 0
Counts k xs none = Unit
Counts k xs (some (a, rest)) = holders k xs ≡ (if a.span == k then 1 else 0) + holders k rest

holders-pick : {F W : Type 0} (k n : ℕ) (xs : List (Active F W)) → Counts k xs (pick n xs)
unfolding pick holders
holders-pick k n [] = tt
holders-pick k zero (x ∷ xs) = refl
holders-pick {F} {W} k (suc n) (x ∷ xs) = later (pick n xs) (holders-pick k n xs)
  where
    later :
        (o : Option (Active F W × List (Active F W)))
        → Counts k xs o
        → Counts k (x ∷ xs) (elim o [ none ↦ none | some (u, us) ↦ some (u, x ∷ us) ])
    later none h = tt
    later (some (u, us)) h = ground (arith, h)

-- A span that no attempt has is complete, and that of a running attempt has had no call.
abbrev pub Agrees : Option Span → ℕ → Type 0
Agrees none n = n ≡ 0
Agrees (some s) n = ((n ≡ 0) × IsComplete s) ⊎ ((n ≡ 1) × (s.span_calls ≡ []))

IsFinished-Agrees : (o : Option Span) → IsFinished o → Agrees o 0
IsFinished-Agrees o (s, e, c) = subst (λ x. Agrees x 0) (sym e) (inl (refl, c))

-- The only holder lets go of its span.
let_go : (e : Option Error) (o : Option Span) (n : ℕ) → Agrees o (1 + n) → Agrees (finished e o) n
let_go e none n h = absurd (omega (arith, h))
let_go e (some s) n (inl (z, c)) = absurd (omega (arith, z))
let_go e (some s) n (inr (z, q)) =
    subst (Agrees (finished e (some s))) (let last : 0 ≡ n = omega (arith, z) in last)
      (IsFinished-Agrees (finished e (some s)) (IsFinished-finished e s q))

pushed-Agrees :
    (k : ℕ) (ss : List Span) (s : Span) (n : ℕ)
    → s.span_calls ≡ []
    → Agrees (span_at k ss) n
    → Agrees (span_at k (ss ++ s ∷ [])) (n + (if length ss == k then 1 else 0))
pushed-Agrees k ss s n e h = elim (Bool-cases (length ss == k)) [
  | inl q ↦
      let here : length ss ≡ k = ground (arith, q) in
      let at_k : span_at k (ss ++ s ∷ []) ≡ some s =
        subst (λ o. o ≡ some s) (sym (span_at-append k ss s)) (rw (q, if◌then◌else◌) refl) in
      let new : n ≡ 0 =
        subst (λ o. Agrees o n) (span_at-length ss)
          (subst (λ j. Agrees (span_at j ss) n) (sym here) h) in
      subst (λ o. Agrees o (n + (if length ss == k then 1 else 0))) (sym at_k)
        (inr (ground (arith, q, new), e))
  | inr q ↦
      let at_k : span_at k (ss ++ s ∷ []) ≡ span_at k ss =
        subst (λ o. o ≡ span_at k ss) (sym (span_at-append k ss s)) (rw (q, if◌then◌else◌) refl) in
      let more : n ≡ n + (if length ss == k then 1 else 0) = ground (arith, q) in
      subst (λ o. Agrees o (n + (if length ss == k then 1 else 0))) (sym at_k)
        (subst (Agrees (span_at k ss)) more h)
]

closed-Agrees :
    (k i : ℕ) (e : Option Error) (ss : List Span) (n : ℕ)
    → Agrees (span_at k ss) ((if i == k then 1 else 0) + n)
    → Agrees (span_at k (closed i e ss)) n
closed-Agrees k i e ss n h = elim (Bool-cases (i == k)) [
  | inl q ↦
      let one : (if i == k then 1 else 0) + n ≡ 1 + n = ground (arith, q) in
      subst (λ o. Agrees o n) (sym (span_at-closed i k e ss ∙ rw (q, if◌then◌else◌) refl))
        (let_go e (span_at k ss) n (subst (Agrees (span_at k ss)) one h))
  | inr q ↦
      let none_here : (if i == k then 1 else 0) + n ≡ n = ground (arith, q) in
      subst (λ o. Agrees o n) (sym (span_at-closed i k e ss ∙ rw (q, if◌then◌else◌) refl))
        (subst (Agrees (span_at k ss)) none_here h)
]

module _ {F W S L : Type 0} (env : Env F W S L) where
  abbrev pub IsTraced : State F W S L → Type 0
  IsTraced d = (k : ℕ) → Agrees (span_at k d.telemetry.spans) (holders k d.active)

  pub Adds-IsTraced :
      (d d' : State F W S L)
      → Adds d.telemetry.spans d'.telemetry.spans
      → d'.active ≡ d.active
      → IsTraced d
      → IsTraced d'
  Adds-IsTraced d d' adds same t k =
      subst (λ xs. Agrees (span_at k d'.telemetry.spans) (holders k xs)) (sym same)
        (by_span (adds k) (t k))
    where
      by_span :
          (span_at k d'.telemetry.spans ≡ span_at k d.telemetry.spans)
            ⊎ ((span_at k d.telemetry.spans ≡ none) × IsFinished (span_at k d'.telemetry.spans))
          → Agrees (span_at k d.telemetry.spans) (holders k d.active)
          → Agrees (span_at k d'.telemetry.spans) (holders k d.active)
      by_span (inl e) h = subst (λ o. Agrees o (holders k d.active)) (sym e) h
      by_span (inr (n, f)) h =
          subst (Agrees (span_at k d'.telemetry.spans))
            (sym (subst (λ o. Agrees o (holders k d.active)) n h))
            (IsFinished-Agrees (span_at k d'.telemetry.spans) f)

  begin_picked-IsTraced :
      (ctx : Context) (o : Option (Task F W × List (Task F W))) (d : State F W S L)
      → IsTraced d
      → IsTraced (begin_picked env ctx o d)
  unfolding begin_picked
  begin_picked-IsTraced ctx none d t = t
  begin_picked-IsTraced ctx (some (task, rest)) d t = λ k.
      let d0 : State F W S L = record d { spawned = rest } in
      let b = begin_attempt env ctx task.job task.due d0 in
      let a : Active F W = record {
        job = task.job;
        due = task.due;
        ctx = b.ctx;
        started = b.started;
        attempt = b.attempt;
        span = b.span;
      } in
      let (_, _, same, _) = begin_attempt-Same env ctx task.job task.due d0 in
      let (number, spans) = begin_attempt-spans env ctx task.job task.due d0 in
      subst (λ ss. Agrees (span_at k ss) (holders k (b.state.active ++ a ∷ []))) (sym spans)
        (subst (Agrees (span_at k (d.telemetry.spans ++ opened env task.due ∷ [])))
          (sym (
            holders-append k b.state.active a
            ∙ ap (λ xs. holders k xs + (if b.span == k then 1 else 0)) same
            ∙ ap (λ j. holders k d.active + (if j == k then 1 else 0)) number))
          (pushed-Agrees k d.telemetry.spans (opened env task.due) (holders k d.active) refl (t k)))

  return_picked-IsTraced :
      (o : Option (Active F W × List (Active F W))) (d : State F W S L)
      → ((k : ℕ) → Counts k d.active o)
      → IsTraced d
      → IsTraced (return_picked env o d)
  unfolding return_picked
  return_picked-IsTraced none d h t = t
  return_picked-IsTraced (some (a, rest)) d h t = λ k.
      let b : Begun F W S L = resumed a (record d { active = rest }) in
      let r = run_attempt env a.job a.due b in
      let d' = end_attempt env a.job a.due a.started a.attempt r in
      let (_, _, q, _) = run_attempt-Same env a.job a.due b in
      let (_, _, q', _) = end_attempt-Same env a.job a.due a.started a.attempt r in
      subst (λ ss. Agrees (span_at k ss) (holders k d'.active))
        (sym (resumed-spans env a.job a.due a.started a.attempt b))
        (subst (λ xs. Agrees (span_at k (closed a.span r.error d.telemetry.spans)) (holders k xs))
          (sym (q' ∙ q))
          (closed-Agrees k a.span r.error d.telemetry.spans (holders k rest)
            (subst (Agrees (span_at k d.telemetry.spans)) (h k) (t k))))

  -- The first handler comes back.
  pub return_first-IsTraced :
      (a : Active F W) (rest : List (Active F W)) (d : State F W S L)
      → d.active ≡ a ∷ rest
      → IsTraced d
      → IsTraced (return_picked env (some (a, rest)) d)
  unfolding holders
  return_first-IsTraced a rest d e t =
      return_picked-IsTraced (some (a, rest)) d (λ k. ap (holders k) e) t

  step-IsTraced :
      (ctx : Context) (d : State F W S L) (e : Event) → IsTraced d → IsTraced (step env ctx d e)
  unfolding step maybe_renew_leader
  step-IsTraced ctx d ticks t =
      let (_, same, _) = tick-Grows env ctx d in
      Adds-IsTraced d (tick env ctx d) (tick-Adds env ctx d) same t
  step-IsTraced ctx d renews t = t
  step-IsTraced ctx d (handles (begins n)) t = begin_picked-IsTraced ctx (pick n d.spawned) d t
  step-IsTraced ctx d (handles (returns n)) t =
      return_picked-IsTraced (pick n d.active) d (λ k. holders-pick k n d.active) t

  pub run_events-IsTraced :
      (ctx : Context) (d : State F W S L) (es : List Event)
      → IsTraced d
      → IsTraced (run_events env ctx d es)
  unfolding run_events
  run_events-IsTraced ctx d [] t = t
  run_events-IsTraced ctx d (e ∷ es) t =
      run_events-IsTraced ctx (step env ctx d e) es (step-IsTraced ctx d e t)

  -- If every span is that of one running attempt, with no call yet, or complete: so it is after the
  -- loop, whatever happens in it and in whatever order the handlers come back. A complete span has had
  -- the error that the handler came back with, if any, then the status, and then its end.
  pub run-IsTraced :
      (ctx : Context) (es : List Event) (d : State F W S L)
      → IsTraced d
      → IsTraced (run env ctx es d)
  unfolding run maybe_renew_leader step
  run-IsTraced ctx es d t =
      let d' = maybe_renew_leader env d in
      run_events-IsTraced ctx (tick env ctx d') es (step-IsTraced ctx d' ticks t)
