-- ===== src/Scheduler/Setup.antt =====
-- What `New` and `AutoNodeID` of sundial.go return.
use sundial.Base.{
  ℕ, ◌≡◌, ◌≢◌, ◌⊎◌, inl, inr, refl, ap, sym, subst, ◌∙◌, pos, ◌≤ℤ◌, ltb_ℤ, Bool, true, false, List,
  [], ◌∷◌, map, Option, none, some, Text, text, text_eq, if◌then◌else◌, arith, if_both,
}
use sundial.Errors.{Error, Result, ok, err, ◌>>=◌, empty_node_id, tick_too_small}
use sundial.Leader.{is_empty}
use sundial.Dispatcher.State.{Options}
use sundial.Scheduler.Asked.{IsFilled, or_default-IsFilled}
use sundial.Scheduler.{
  Scheduler, Defaults, with_storage, with_logger, with_leader, apply_options, fill_options, new,
  with_default_storage, with_default_leader, auto_node_id, text_or, random_id,
}

text_or-ne-nil : (s d : Text) → d ≢ [] → text_or s d ≢ []
text_or-ne-nil [] d h = h
text_or-ne-nil (c ∷ cs) d h = λ e. cc

random_id-ne-nil : (random : Option (List ℕ)) → random_id random ≢ []
random_id-ne-nil none = λ e. cc
random_id-ne-nil (some bytes) = λ e. cc

-- AutoNodeID never returns an empty id, whatever the host, the environment and the random source say.
pub auto_node_id-ne-nil :
    (hostname : Result Text) (env : Text) (random : Option (List ℕ))
    → auto_node_id hostname env random ≢ []
unfolding auto_node_id
auto_node_id-ne-nil (err e) env random = text_or-ne-nil env _ (random_id-ne-nil random)
auto_node_id-ne-nil (ok h) env random =
    let fallback = text_or-ne-nil env (random_id random) (random_id-ne-nil random) in
    if_both (λ (x : Text). x ≢ []) (text_eq h (text "localhost")) fallback
      (text_or-ne-nil h (text_or env (random_id random)) fallback)

schema_or_public :
    (s : Text)
    → ((s ≡ []) × (text_or s (text "public") ≡ text "public"))
      ⊎ ((s ≢ []) × (text_or s (text "public") ≡ s))
schema_or_public [] = inl (refl, refl)
schema_or_public (c ∷ cs) = inr (λ e. cc, refl)

-- The options that sundial.go offers.
pub data Choice (St Le Lg : Type 0) : Type 0 where
  storage_choice : Option St → Choice St Le Lg
  logger_choice : Option Lg → Choice St Le Lg
  leader_choice : Option Le → Choice St Le Lg

module _ {F W St Le Lg : Type 0} where
  abbrev pub chosen : Choice St Le Lg → Scheduler F W St Le Lg → Scheduler F W St Le Lg
  chosen (storage_choice s) = with_storage s
  chosen (logger_choice l) = with_logger l
  chosen (leader_choice l) = with_leader l

  -- What no option changes.
  abbrev Keeps : Scheduler F W St Le Lg → Scheduler F W St Le Lg → Type 0
  Keeps a b =
      (b.opts ≡ a.opts)
      × (b.jobs ≡ a.jobs)
      × (b.running ≡ a.running)
      × (b.stopped ≡ a.stopped)
      × (b.has_pool ≡ a.has_pool)

  chosen-Keeps : (c : Choice St Le Lg) (sc : Scheduler F W St Le Lg) → Keeps sc (chosen c sc)
  unfolding with_storage with_logger with_leader
  chosen-Keeps (storage_choice none) sc = (refl, refl, refl, refl, refl)
  chosen-Keeps (storage_choice (some s)) sc = (refl, refl, refl, refl, refl)
  chosen-Keeps (logger_choice none) sc = (refl, refl, refl, refl, refl)
  chosen-Keeps (logger_choice (some l)) sc = (refl, refl, refl, refl, refl)
  chosen-Keeps (leader_choice l) sc = (refl, refl, refl, refl, refl)

  apply_options-Keeps :
      (cs : List (Choice St Le Lg)) (sc : Scheduler F W St Le Lg) (b : Bool)
      → Keeps sc (apply_options (map chosen cs) sc b).0
  unfolding apply_options
  apply_options-Keeps [] sc b = (refl, refl, refl, refl, refl)
  apply_options-Keeps (c ∷ cs) sc b =
      let (o, j, r, s, p) = chosen-Keeps c sc in
      let (o', j', r', s', p') = apply_options-Keeps cs (chosen c sc) _ in
      (o' ∙ o, j' ∙ j, r' ∙ r, s' ∙ s, p' ∙ p)

  finish-Keeps :
      (df : Defaults St Le Lg) (b : Bool) (o : Option St) (sc0 sc : Scheduler F W St Le Lg)
      → sc0.storage ≡ o
      → (with_default_storage df o sc0 >>= λ s. ok (with_default_leader df b s)) ≡ ok sc
      → ((s : St) × (sc.storage ≡ some s)) × Keeps sc0 sc
  finish-Keeps df b (some st) sc0 sc e h =
      ((st, ground arith), (ground arith, ground arith, ground arith, ground arith, ground arith))
  finish-Keeps df b none sc0 sc e h = (
    (df.postgres_storage sc0.opts.schema, ground arith),
    (ground arith, ground arith, ground arith, ground arith, ground arith),
  )

  -- A scheduler that can be run.
  pub record IsReady (opts : Options) (sc : Scheduler F W St Le Lg) : Type 0 where
    pub node_named : opts.node_id ≢ []
    pub tick_long : pos 100000000 ≤ℤ sc.opts.tick_interval
    pub node_kept : sc.opts.node_id ≡ opts.node_id
    pub tick : IsFilled (pos 1000000000) opts.tick_interval sc.opts.tick_interval
    pub grace : IsFilled (pos 30000000000) opts.shutdown_grace sc.opts.shutdown_grace
    pub renewal :
        IsFilled (pos 10000000000) opts.leader_renew_interval sc.opts.leader_renew_interval
    pub schema :
        ((opts.schema ≡ []) × (sc.opts.schema ≡ text "public"))
        ⊎ ((opts.schema ≢ []) × (sc.opts.schema ≡ opts.schema))
    pub has_storage : (s : St) × (sc.storage ≡ some s)
    pub no_jobs : sc.jobs ≡ []
    pub not_running : sc.running ≡ false
    pub not_stopped : sc.stopped ≡ false

  -- A scheduler that New returns, with any of the options of the package, has the named node, ticks
  -- of 100 ms or more, and each option as asked, where it is not zero, else the default: ticks of
  -- 1 s, a grace of 30 s, the schema "public", a renewal every 10 s. It has a storage and no jobs, and
  -- is neither running nor stopped.
  pub new-IsReady :
      (df : Defaults St Le Lg) (has_pool : Bool) (opts : Options) (cs : List (Choice St Le Lg))
      → (sc : Scheduler F W St Le Lg) → new df has_pool opts (map chosen cs) ≡ ok sc
      → IsReady opts sc
  unfolding new fill_options
  new-IsReady df has_pool opts cs sc h =
      let o = fill_options opts in
      let initial : Scheduler F W St Le Lg = record {
        has_pool = has_pool;
        storage = none;
        leader = none;
        logger = df.default_logger;
        opts = o;
        jobs = [];
        running = false;
        stopped = false;
      } in
      let applied = apply_options (map chosen cs) initial false in
      let (named, ticks, h') =
        past_guards (is_empty opts.node_id) (ltb_ℤ o.tick_interval (pos 100000000)) empty_node_id
          (tick_too_small o.tick_interval)
          (with_default_storage df applied.0.storage applied.0 >>= λ s.
            ok (with_default_leader df applied.1 s))
          h in
      let (stored, (o', j', r', s', p')) =
        finish-Keeps df applied.1 applied.0.storage applied.0 sc refl h' in
      let (o1, j1, r1, s1, p1) = apply_options-Keeps cs initial false in
      record {
        node_named = named_ne opts.node_id named;
        tick_long =
            subst (λ (x : Options). pos 100000000 ≤ℤ x.tick_interval) (sym (o' ∙ o1))
              (ground arith);
        node_kept = ap (λ (x : Options). x.node_id) (o' ∙ o1);
        tick =
            subst (λ (x : Options). IsFilled (pos 1000000000) opts.tick_interval x.tick_interval)
              (sym (o' ∙ o1)) (or_default-IsFilled (pos 1000000000) opts.tick_interval);
        grace =
            subst (λ (x : Options). IsFilled (pos 30000000000) opts.shutdown_grace x.shutdown_grace)
              (sym (o' ∙ o1)) (or_default-IsFilled (pos 30000000000) opts.shutdown_grace);
        renewal =
            subst
              (λ (x : Options).
                IsFilled (pos 10000000000) opts.leader_renew_interval x.leader_renew_interval)
              (sym (o' ∙ o1)) (or_default-IsFilled (pos 10000000000) opts.leader_renew_interval);
        schema =
            subst
              (λ (x : Options).
                ((opts.schema ≡ []) × (x.schema ≡ text "public"))
                ⊎ ((opts.schema ≢ []) × (x.schema ≡ opts.schema)))
              (sym (o' ∙ o1)) (schema_or_public opts.schema);
        has_storage = stored;
        no_jobs = j' ∙ j1;
        not_running = r' ∙ r1;
        not_stopped = s' ∙ s1;
      }
    where
      named_ne : (t : Text) → is_empty t ≡ false → t ≢ []
      named_ne [] h = cc
      named_ne (c ∷ cs) h = λ e. cc

      past_guards :
          (a b : Bool) (e e' : Error) (r : Result (Scheduler F W St Le Lg))
          → (if a then err e else if b then err e' else r) ≡ ok sc
          → (a ≡ false) × (b ≡ false) × (r ≡ ok sc)
      past_guards true b e e' r h = cc
      past_guards false true e e' r h = cc
      past_guards false false e e' r h = (refl, refl, h)

  -- WithLeader(nil) as the only option, with a pool, does not disable leadership: a scheduler that
  -- New returns has the Postgres leader all the same.
  with_leader-nil :
      (df : Defaults St Le Lg) (opts : Options) (sc : Scheduler F W St Le Lg)
      → new df true opts (with_leader none ∷ []) ≡ ok sc
      → sc.leader ≡ some df.postgres_leader
  unfolding new apply_options with_leader
  with_leader-nil df opts sc h = ground arith
