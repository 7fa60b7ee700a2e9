-- ===== src/Scheduler/Live.antt =====
-- sundial.go and dispatcher.go together: Schedule and Stop called while the loop of `run` goes on. The
-- dispatcher looks its jobs up in the scheduler's registry, which the two share.
pub mod Late
use sundial.Base.{
  ◌≡◌, ◌≢◌, refl, ap, sym, subst, ◌∙◌, inl, inr, ◌⊎◌, true, false, List, [], ◌∷◌, ◌++◌, Option,
  none, some, Text, text_eq, text_eq_iff, if◌then◌else◌, arith, Bool-cases, if_both,
}
use sundial.Errors.{Error, Result, err, ok, scheduler_stopped}
use sundial.Schedule.{Schedule}
use sundial.Job.{Context, HandlerFunc, JobOptions, Job}
use sundial.Storage.Laws.{StorageLaws}
use sundial.Dispatcher.State.{Env, State, lookup}
use sundial.Dispatcher.Dispatch.{Event, step}
use sundial.Dispatcher.Balance.{IsBalanced, step-IsBalanced}
use sundial.Dispatcher.Valid.{step-Valid}
use sundial.Leader.{is_empty}
use sundial.Scheduler.{Scheduler, schedule, schedule_checked, stop}
use sundial.Scheduler.Registry.{IsRegistry, Schedules, schedule-Schedules}

-- What happens while Run goes on: something in its loop, or a call of Schedule or of Stop.
pub data Happening (F W : Type 0) : Type 0 where
  loops : Event → Happening F W
  schedules :
      Text
      → Option Schedule
      → Option (HandlerFunc W)
      → List (JobOptions F → JobOptions F)
      → Happening F W
  stops : Happening F W

found_after :
    {F W : Type 0} (name k : Text) (job : Job F W) (js : List (Job F W))
    → lookup name js ≡ none
    → (lookup k js ≡ none) ⊎ ((if text_eq name k then some job else lookup k js) ≡ lookup k js)
found_after name k job js free = elim (Bool-cases (text_eq name k)) [
  | inl q ↦
      let same : name ≡ k = ground (arith, text_eq_iff name k) in
      inl (subst (λ n. lookup n js ≡ none) same free)
  | inr q ↦ inr (rw (q, if◌then◌else◌) refl)
]

module _ {F W S L Lg : Type 0} (env : Env F W S L) (ctx : Context) where
  -- What the dispatcher reads of its scheduler.
  abbrev pub seen : Scheduler F W S L Lg → Env F W S L
  seen sc = record env { registry = sc.jobs; opts = sc.opts }

  unfoldable pub happen :
      Happening F W → Scheduler F W S L Lg × State F W S L → Scheduler F W S L Lg × State F W S L
  happen (loops e) (sc, d) = (sc, step (seen sc) ctx d e)
  happen (schedules name s fn opts) (sc, d) = ((schedule env.floats name s fn opts sc).1, d)
  happen stops (sc, d) = (stop sc, d)

  unfoldable pub happen_all :
      List (Happening F W)
      → Scheduler F W S L Lg × State F W S L
      → Scheduler F W S L Lg × State F W S L
  happen_all [] x = x
  happen_all (h ∷ hs) x = happen_all hs (happen h x)

  happen_all-append :
      (hs later : List (Happening F W)) (x : Scheduler F W S L Lg × State F W S L)
      → happen_all (hs ++ later) x ≡ happen_all later (happen_all hs x)
  unfolding happen_all
  happen_all-append [] later x = refl
  happen_all-append (h ∷ hs) later x = happen_all-append hs later (happen h x)

  -- A later registry: names are keys, jobs that were there are found, and there is no new one after
  -- Stop.
  pub record Extends (sc sc' : Scheduler F W S L Lg) : Type 0 where
    pub keys : IsRegistry sc'.jobs
    pub found : (k : Text) → (lookup k sc.jobs ≡ none) ⊎ (lookup k sc'.jobs ≡ lookup k sc.jobs)
    pub closed : (sc.stopped ≡ false) ⊎ ((sc'.jobs ≡ sc.jobs) × (sc'.stopped ≡ true))

  same_registry :
      (sc : Scheduler F W S L Lg)
      → (sc.stopped ≡ false) ⊎ ((sc.jobs ≡ sc.jobs) × (sc.stopped ≡ true))
  same_registry sc = elim (Bool-cases sc.stopped) [ inl e ↦ inr (refl, e) | inr e ↦ inl e ]

  -- Two steps of the registry.
  Extends-trans : (a b c : Scheduler F W S L Lg) → Extends a b → Extends b c → Extends a c
  Extends-trans a b c x y = record {
    keys = y.keys;
    found = λ k. finds k (x.found k) (y.found k);
    closed = closes x.closed y.closed;
  }
    where
      finds :
          (k : Text)
          → (lookup k a.jobs ≡ none) ⊎ (lookup k b.jobs ≡ lookup k a.jobs)
          → (lookup k b.jobs ≡ none) ⊎ (lookup k c.jobs ≡ lookup k b.jobs)
          → (lookup k a.jobs ≡ none) ⊎ (lookup k c.jobs ≡ lookup k a.jobs)
      finds k (inl n) f = inl n
      finds k (inr e) (inl n) = inl (sym e ∙ n)
      finds k (inr e) (inr f) = inr (f ∙ e)

      closes :
          (a.stopped ≡ false) ⊎ ((b.jobs ≡ a.jobs) × (b.stopped ≡ true))
          → (b.stopped ≡ false) ⊎ ((c.jobs ≡ b.jobs) × (c.stopped ≡ true))
          → (a.stopped ≡ false) ⊎ ((c.jobs ≡ a.jobs) × (c.stopped ≡ true))
      closes (inl o) y = inl o
      closes (inr (e, t)) (inl o) = absurd cc
      closes (inr (e, t)) (inr (f, u)) = inr (f ∙ e, u)

  -- Nothing is registered.
  abbrev IsRefused : Scheduler F W S L Lg → Result (Job F W) × Scheduler F W S L Lg → Type 0
  IsRefused sc r = r.1 ≡ sc

  schedule-stopped :
      (name : Text) (s : Option Schedule) (fn : Option (HandlerFunc W))
      → (opts : List (JobOptions F → JobOptions F)) (sc : Scheduler F W S L Lg) → sc.stopped ≡ true
      → (schedule env.floats name s fn opts sc).1 ≡ sc
  unfolding schedule
  schedule-stopped name none fn opts sc h = if_both (IsRefused sc) (is_empty name) refl refl
  schedule-stopped name (some s) none opts sc h = if_both (IsRefused sc) (is_empty name) refl refl
  schedule-stopped name (some s) (some fn) opts sc h =
      if_both (IsRefused sc) (is_empty name) refl (rw (h, if◌then◌else◌) refl)

  schedule-Extends :
      (name : Text) (s : Option Schedule) (fn : Option (HandlerFunc W))
      → (opts : List (JobOptions F → JobOptions F)) (sc : Scheduler F W S L Lg) → IsRegistry sc.jobs
      → Extends sc (schedule env.floats name s fn opts sc).1
  schedule-Extends name s fn opts sc keys =
      by_answer (schedule-Schedules env.floats name s fn opts sc keys)
    where
      by_answer :
          Schedules env.floats name s fn opts sc (schedule env.floats name s fn opts sc)
          → Extends sc (schedule env.floats name s fn opts sc).1
      by_answer (inl (_, same)) =
          subst (Extends sc) (sym same)
            (record { keys = keys; found = λ k. inr refl; closed = same_registry sc })
      by_answer (inr (job, _, _, _, _, _, _, _, free, made, looks, keys')) = record {
        keys = keys';
        found = λ k.
            subst (λ o. (lookup k sc.jobs ≡ none) ⊎ (o ≡ lookup k sc.jobs)) (sym (looks k))
              (found_after name k job sc.jobs free);
        closed = elim (Bool-cases sc.stopped) [
          | inl h ↦
              let kept = schedule-stopped name s fn opts sc h in
              inr (ap (λ x. x.jobs) kept, ap (λ x. x.stopped) kept ∙ h)
          | inr h ↦ inl h
        ];
      }

  module _ (laws : StorageLaws env.storage_ops) where
    pub record IsSound (x : Scheduler F W S L Lg × State F W S L) : Type 0 where
      pub keys : IsRegistry x.0.jobs
      pub balanced : IsBalanced (seen x.0) x.1
      pub valid : laws.Valid x.1.storage

    -- The counts do not depend on what the registry holds.
    still-IsBalanced :
        (sc sc' : Scheduler F W S L Lg) (d : State F W S L)
        → IsBalanced (seen sc) d
        → IsBalanced (seen sc') d
    still-IsBalanced sc sc' d b = record { counted = b.counted; gauged = b.gauged }

    -- One happening.
    abbrev Keeps :
        Scheduler F W S L Lg × State F W S L → Scheduler F W S L Lg × State F W S L → Type 0
    Keeps x x' = IsSound x' × Extends x.0 x'.0

    happen-Keeps :
        (h : Happening F W) (x : Scheduler F W S L Lg × State F W S L)
        → IsSound x
        → Keeps x (happen h x)
    unfolding happen stop
    happen-Keeps (loops e) (sc, d) s = (
      record {
        keys = s.keys;
        balanced = step-IsBalanced (seen sc) ctx d e s.balanced;
        valid = step-Valid (seen sc) laws ctx d e s.valid;
      },
      record { keys = s.keys; found = λ k. inr refl; closed = same_registry sc },
    )
    happen-Keeps (schedules name sched fn opts) (sc, d) s =
        let more = schedule-Extends name sched fn opts sc s.keys in
        (
          record {
            keys = more.keys;
            balanced =
                still-IsBalanced sc (schedule env.floats name sched fn opts sc).1 d s.balanced;
            valid = s.valid;
          },
          more,
        )
    happen-Keeps stops (sc, d) s = (
      record {
        keys = s.keys;
        balanced = still-IsBalanced sc (stop sc) d s.balanced;
        valid = s.valid;
      },
      record { keys = s.keys; found = λ k. inr refl; closed = inr (refl, refl) },
    )

    happen_all-Keeps :
        (hs : List (Happening F W)) (x : Scheduler F W S L Lg × State F W S L)
        → IsSound x
        → Keeps x (happen_all hs x)
    unfolding happen_all
    happen_all-Keeps [] x s =
        (s, record { keys = s.keys; found = λ k. inr refl; closed = same_registry x.0 })
    happen_all-Keeps (h ∷ hs) x s =
        let (s', a) = happen-Keeps h x s in
        let (s'', b) = happen_all-Keeps hs (happen h x) s' in
        (s'', Extends-trans x.0 (happen h x).0 (happen_all hs (happen h x)).0 a b)

    jobs-closed : (a b : Scheduler F W S L Lg) → Extends a b → a.stopped ≡ true → b.jobs ≡ a.jobs
    jobs-closed a b x t = by_closed x.closed
      where
        by_closed : (a.stopped ≡ false) ⊎ ((b.jobs ≡ a.jobs) × (b.stopped ≡ true)) → b.jobs ≡ a.jobs
        by_closed (inl open_still) = absurd cc
        by_closed (inr (same, _)) = same

    jobs-stopped :
        (later : List (Happening F W)) (x : Scheduler F W S L Lg × State F W S L)
        → IsSound x
        → (happen_all (stops ∷ later) x).0.jobs ≡ x.0.jobs
    unfolding happen_all happen stop
    jobs-stopped later (sc, d) s =
        let y : Scheduler F W S L Lg × State F W S L = (stop sc, d) in
        let (_, extends) = happen_all-Keeps later y (happen-Keeps stops (sc, d) s).0 in
        jobs-closed (stop sc) (happen_all later y).0 extends refl

    -- While the loop goes on, with Schedule and Stop called in between in any order: the names stay
    -- keys of the registry, `inFlight` and the gauge count the goroutines that are under way, and
    -- the storage stays valid, if all that is so at first; every job that the dispatcher finds it
    -- goes on to find; and after a Stop the registry stays, whatever happens later, as it was when
    -- Stop was called.
    pub happen_all-IsSound :
        (hs later : List (Happening F W)) (x : Scheduler F W S L Lg × State F W S L)
        → IsSound x
        → IsSound (happen_all hs x)
          × Extends x.0 (happen_all hs x).0
          × ((happen_all (hs ++ stops ∷ later) x).0.jobs ≡ (happen_all hs x).0.jobs)
    happen_all-IsSound hs later x s =
        let (sound, extends) = happen_all-Keeps hs x s in
        (
          sound,
          extends,
          ap (λ y. y.0.jobs) (happen_all-append hs (stops ∷ later) x)
              ∙ jobs-stopped later (happen_all hs x) sound,
        )
