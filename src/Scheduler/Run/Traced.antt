-- ===== src/Scheduler/Run/Traced.antt =====
-- The spans (telemetry.go) of a run of the dispatcher from its start to the end of its drain.
use sundial.Base.{
  ℕ, ◌≡◌, refl, subst, ◌∙◌, inl, inr, List, [], ◌∷◌, Option, some, if◌then◌else◌, arith, pos, ltb_ℤ,
  ◌≤ℤ◌, map, false,
}
use sundial.Job.{Context, Job}
use sundial.Telemetry.{Span, new_telemetry, add_scheduled}
use sundial.Dispatcher.State.{Env, State, Task, Active}
use sundial.Dispatcher.Execute.{execute}
use sundial.Dispatcher.Dispatch.{Event, HandlerEvent, handles, return_picked, run_events, run}
use sundial.Dispatcher.InFlight.{execute-Same, active-return_picked}
use sundial.Dispatcher.Trace.{span_at, IsComplete}
use sundial.Dispatcher.Trace.Attempts.{execute-Adds}
use sundial.Dispatcher.Trace.Runs.{
  holders, Agrees, IsTraced, Adds-IsTraced, return_first-IsTraced, run_events-IsTraced,
  run-IsTraced,
}
use sundial.Scheduler.Run.{return_all, execute_all, wait_all, drain, dispatcher}

module _ {F W S L : Type 0} (env : Env F W S L) where
  -- No attempt is under way.
  abbrev IsQuiet : State F W S L → Type 0
  IsQuiet d = IsTraced env d × (d.active ≡ [])

  return_all-IsQuiet :
      (rest : List (Active F W)) (d : State F W S L)
      → d.active ≡ rest
      → IsTraced env d
      → IsQuiet (return_all env rest d)
  unfolding return_all
  return_all-IsQuiet [] d e t = (t, e)
  return_all-IsQuiet (a ∷ rest) d e t =
      return_all-IsQuiet rest (return_picked env (some (a, rest)) d)
        (active-return_picked env a rest d) (return_first-IsTraced env a rest d e t)

  execute_all-IsQuiet :
      (ctx : Context) (ts : List (Task F W)) (d : State F W S L)
      → IsQuiet d
      → IsQuiet (execute_all env ctx ts d)
  unfolding execute_all
  execute_all-IsQuiet ctx [] d q = q
  execute_all-IsQuiet ctx (x ∷ ts) d (t, q) =
      let d0 : State F W S L = record d { spawned = ts } in
      let (_, _, same, _) = execute-Same env ctx x.job x.due d0 in
      execute_all-IsQuiet ctx ts (execute env ctx x.job x.due d0) (
        Adds-IsTraced env d0 (execute env ctx x.job x.due d0) (execute-Adds env ctx x.job x.due d0)
            same t,
        same ∙ q,
      )

  quiet-IsComplete :
      (d : State F W S L) (k : ℕ) (s : Span)
      → IsQuiet d
      → span_at k d.telemetry.spans ≡ some s
      → IsComplete s
  unfolding holders
  quiet-IsComplete d k s (t, q) e = by_count (
      subst (λ xs. Agrees (some s) (holders k xs)) q
        (subst (λ o. Agrees o (holders k d.active)) e (t k)))
    where
      by_count : Agrees (some s) 0 → IsComplete s
      by_count (inl (_, c)) = c
      by_count (inr (z, _)) = absurd (omega (arith, z))

  -- From a dispatcher as Run makes it, through any events of the loop and, if the grace is not
  -- positive, the drain, in which the handlers come back in any order: every span has come to its end;
  -- the calls on it are the status Ok and the end, or the recording of an error, the status Error and
  -- the end.
  pub run-IsComplete :
      (ctx : Context) (es : List Event) (order : List HandlerEvent) (jobs : List (Job F W))
      → (s : S) (l : Option L) (w : W) (k : ℕ) (span : Span) → env.opts.shutdown_grace ≤ℤ pos 0
      → span_at k (drain env ctx order (run env ctx es (dispatcher env jobs s l w))).telemetry.spans
        ≡ some span
      → IsComplete span
  unfolding drain wait_all new_telemetry add_scheduled span_at holders
  run-IsComplete ctx es order jobs s l w k span g e =
      let d = run env ctx es (dispatcher env jobs s l w) in
      let started = run-IsTraced env ctx es (dispatcher env jobs s l w) (λ j. refl) in
      let d' = run_events env ctx d (map handles order) in
      let returned =
        return_all-IsQuiet d'.active d' refl
          (run_events-IsTraced env ctx d (map handles order) started) in
      let over : ltb_ℤ (pos 0) env.opts.shutdown_grace ≡ false = ground (arith, g) in
      quiet-IsComplete (wait_all env ctx d') k span
        (execute_all-IsQuiet ctx (return_all env d'.active d').spawned (return_all env d'.active d')
          returned)
        (subst (λ b. span_at k (if b then d' else wait_all env ctx d').telemetry.spans ≡ some span)
          over e)
