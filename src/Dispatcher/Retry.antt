-- ===== src/Dispatcher/Retry.antt =====
-- dispatcher.go: the retry counter of a job, through an attempt.
use sundial.Base.{
  ℕ, suc, ◌≡◌, refl, ap, ◌∙◌, ℤ, pos, ltb_ℤ, List, [], ◌∷◌, Option, none, some, Text, text_eq,
  text_eq_iff, text_eq_refl, if◌then◌else◌, arith,
}
use sundial.Errors.{Error}
use sundial.Clock.{Time}
use sundial.Job.{Context, Job}
use sundial.Storage.Types.{DueJob, RunOutcome, run_succeeded, run_failed, run_dead_letter}
use sundial.Dispatcher.State.{
  Env, State, attempts_of, bump, forget, bump_attempt, forget_attempt, read_clock,
}
use sundial.Dispatcher.Execute.{
  Begun, Ended, begin_attempt, run_attempt, end_attempt, attempt_context, run_handler, retry_later,
  settle, record_outcome, execute,
}

attempts_of-bump :
    (i k : Text) (a : List (Text × ℕ))
    → attempts_of k (bump i a) ≡ (if text_eq i k then suc (attempts_of k a) else attempts_of k a)
unfolding attempts_of bump
attempts_of-bump i k [] = ground arith
attempts_of-bump i k ((j, n) ∷ a) =
    ground (arith, text_eq_iff i k, text_eq_iff j i, text_eq_iff j k, attempts_of-bump i k a)

attempts_of-forget :
    (i k : Text) (a : List (Text × ℕ))
    → attempts_of k (forget i a) ≡ (if text_eq i k then 0 else attempts_of k a)
unfolding attempts_of forget
attempts_of-forget i k [] = ground arith
attempts_of-forget i k ((j, n) ∷ a) =
    ground (arith, text_eq_iff i k, text_eq_iff j i, text_eq_iff j k, attempts_of-forget i k a)

-- The counter after an attempt that was number `n`.
abbrev pub next_count : Option Error → ℕ → ℤ → ℕ
next_count none n budget = 0
next_count (some _) n budget = if ltb_ℤ (pos n) budget then n else 0

-- The outcome that is recorded for it.
abbrev pub recorded : Option Error → ℕ → ℤ → RunOutcome
recorded none n budget = run_succeeded
recorded (some _) n budget = if ltb_ℤ (pos n) budget then run_failed else run_dead_letter

module _ {F W S L : Type 0} (env : Env F W S L) where
  pub begin_attempt-count :
      (ctx : Context) (job : Job F W) (dj : DueJob) (d : State F W S L)
      → let b = begin_attempt env ctx job dj d in
        (b.attempt ≡ pos (suc (attempts_of dj.id d.attempts)))
        × ((k : Text)
            → attempts_of k b.state.attempts ≡ (
                if text_eq dj.id k
                then suc (attempts_of k d.attempts)
                else attempts_of k d.attempts))
        × (b.state.storage ≡ d.storage)
  unfolding begin_attempt attempt_context read_clock bump_attempt
  begin_attempt-count ctx job dj d = (
    ground (arith, attempts_of-bump dj.id dj.id d.attempts, text_eq_refl dj.id),
    λ k. ground (arith, attempts_of-bump dj.id k d.attempts),
    ground arith,
  )

  pub run_attempt-count :
      (job : Job F W) (dj : DueJob) (b : Begun F W S L)
      → let r = run_attempt env job dj b in
        (r.state.attempts ≡ b.state.attempts) × (r.state.storage ≡ b.state.storage)
  unfolding run_attempt run_handler read_clock
  run_attempt-count job dj b = (refl, refl)

  end_attempt-count :
      (job : Job F W) (dj : DueJob) (started : Time) (n : ℕ) (r : Ended F W S L) (k : Text)
      → attempts_of dj.id r.state.attempts ≡ n
      → attempts_of k (end_attempt env job dj started (pos n) r).attempts ≡ (
          if text_eq dj.id k
          then next_count r.error n job.options.retry.max_attempts
          else attempts_of k r.state.attempts)
  unfolding end_attempt settle retry_later record_outcome forget_attempt read_clock
  end_attempt-count job dj started n r k h =
      ground (arith, attempts_of-forget dj.id k r.state.attempts, text_eq_iff dj.id k)

  -- How the attempt came back.
  unfoldable pub error_of : Context → Job F W → DueJob → State F W S L → Option Error
  error_of ctx job dj d = (run_attempt env job dj (begin_attempt env ctx job dj d)).error

  -- An attempt counts up from the job's counter; success and the end of the budget reset it, any
  -- other failure keeps it, and no other job's counter changes.
  pub attempts-execute :
      (ctx : Context) (job : Job F W) (dj : DueJob) (d : State F W S L) (k : Text)
      → attempts_of k (execute env ctx job dj d).attempts ≡ (
          if text_eq dj.id k
          then next_count
              (error_of ctx job dj d)
              (suc (attempts_of dj.id d.attempts))
              job.options.retry.max_attempts
          else attempts_of k d.attempts)
  unfolding execute error_of
  attempts-execute ctx job dj d k =
      let b = begin_attempt env ctx job dj d in
      let r = run_attempt env job dj b in
      let n = suc (attempts_of dj.id d.attempts) in
      let (number, counts, _) = begin_attempt-count ctx job dj d in
      let (kept, _) = run_attempt-count job dj b in
      let own : attempts_of dj.id r.state.attempts ≡ n =
        ap (attempts_of dj.id) kept ∙ counts dj.id ∙ (rw (text_eq_refl dj.id)) in
      ap (λ a. attempts_of k (end_attempt env job dj b.started a r).attempts) number
      ∙ end_attempt-count job dj b.started n r k own
      ∙ ground (arith, ap (attempts_of k) kept, counts k)
