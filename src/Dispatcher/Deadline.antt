-- ===== src/Dispatcher/Deadline.antt =====
-- dispatcher.go: the context that `execute` hands to a handler.
use sundial.Base.{
  ◌≡◌, refl, ◌⊎◌, inl, inr, pos, ◌+ℤ◌, ◌≤ℤ◌, ◌<ℤ◌, ltb_ℤ, Option, none, some, if◌then◌else◌, arith,
  Bool-cases,
}
use sundial.Clock.{Time, Duration, before}
use sundial.Job.{Context}
use sundial.Dispatcher.State.{Env, State, read_clock}
use sundial.Dispatcher.Execute.{attempt_context, earlier}

-- The earlier of a deadline, if there is one, and an instant.
abbrev pub IsEarliest : Option Time → Time → Option Time → Type 0
IsEarliest parent t none = ⊥
IsEarliest parent t (some d) =
    (d ≤ℤ t) × ((u : Time) → parent ≡ some u → d ≤ℤ u) × ((d ≡ t) ⊎ (parent ≡ some d))

earlier-IsEarliest : (parent : Option Time) (t : Time) → IsEarliest parent t (earlier parent t)
earlier-IsEarliest none t = (omega arith, λ u h. cc, inl refl)
earlier-IsEarliest (some v) t = elim (Bool-cases (before v t)) [
  | inl e ↦ rw (e, if◌then◌else◌) (ground arith, λ u h. ground arith, inr refl)
  | inr e ↦ rw (e, if◌then◌else◌) (ground arith, λ u h. ground arith, inl refl)
]

module _ {F W S L : Type 0} (env : Env F W S L) where
  -- Without a positive timeout the handler's context is the parent's and the clock is not read; with
  -- one, its deadline is the earlier of the parent's and the reading of the clock plus the timeout.
  pub attempt_context_lem :
      (parent : Context) (timeout : Duration) (d : State F W S L)
      → ((timeout ≤ℤ pos 0)
          × ((attempt_context env parent timeout d).0 ≡ parent)
          × ((attempt_context env parent timeout d).1 ≡ d))
        ⊎ ((pos 0 <ℤ timeout)
            × IsEarliest parent.deadline
                ((read_clock env d).0 +ℤ timeout)
                (attempt_context env parent timeout d).0.deadline
            × ((attempt_context env parent timeout d).1 ≡ (read_clock env d).1))
  unfolding attempt_context
  attempt_context_lem parent timeout d = elim (Bool-cases (ltb_ℤ (pos 0) timeout)) [
    | inl e ↦
        rw (e, if◌then◌else◌)
          (inr (
            ground arith,
            earlier-IsEarliest parent.deadline ((read_clock env d).0 +ℤ timeout),
            refl,
          ))
    | inr e ↦ rw (e, if◌then◌else◌) (inl (ground arith, refl, refl))
  ]
