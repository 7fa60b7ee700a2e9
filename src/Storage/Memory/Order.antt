-- ===== src/Storage/Memory/Order.antt =====
-- FetchDue of MemoryStorage (storage.go) and the order in which a range meets the entries of its map.
use mathlib.Core.Logic.{∥∥₁_elim}
use mathlib.Core.List.{Permᴰ}
use sundial.Base.{
  ◌≡◌, ◌≢◌, refl, ap, sym, subst, ◌∙◌, inl, inr, true, false, not, List, [], ◌∷◌, Perm, Text,
  text_lt_total, ℤ, ℕ_discrete, if◌then◌else◌, arith, All, Bool-cases, ltb, length, take,
}
use sundial.Base.Sort.{insertion_sort, sort_from, sink}
use sundial.Errors.{ok}
use sundial.Clock.{Time, after}
use sundial.Storage.Types.{DueJob}
use sundial.Storage.Memory.{
  MemJob, MemoryStorage, collect_due, due_gt, effective_limit, fetch_due, to_due,
}
use sundial.Storage.Memory.Rows.{IsDistinct, IsWf, names}
use sundial.Storage.Memory.Due.{due_gt_asymm, due_gt_trans}

-- Due rows of different names are strictly in order.
due_gt_total : (a b : DueJob) → a.name ≢ b.name → due_gt a b ≡ false → due_gt b a ≡ true
unfolding due_gt
due_gt_total a b ne h = ground (arith, ne, text_lt_total a.name b.name)

sink_swap :
    (ps : List DueJob) (a b : DueJob)
    → a.name ≢ b.name
    → sink due_gt (sink due_gt ps a) b ≡ sink due_gt (sink due_gt ps b) a
unfolding sink
sink_swap [] a b ne = elim (Bool-cases (due_gt a b)) [
  | inl e ↦ rw (e, due_gt_asymm a b e, if◌then◌else◌) refl
  | inr e ↦ rw (e, due_gt_total a b ne e, if◌then◌else◌) refl
]
sink_swap (p ∷ ps) a b ne = ground (
  arith,
  sink_swap ps a b ne,
  due_gt_trans p a b,
  due_gt_trans p b a,
  due_gt_asymm a b,
  due_gt_total a b ne,
)

-- The rows of a list have different names.
abbrev AreNamed : List MemJob → Type 0
AreNamed [] = Unit
AreNamed (j ∷ js) = All (λ k. j.name ≢ k.name) js × AreNamed js

others_named :
    (n : Text) (js : List MemJob) → All (λ k. n ≢ k) (names js) → All (λ j. n ≢ j.name) js
others_named n [] d = tt
others_named n (j ∷ js) d = (d.0, others_named n js d.1)

IsDistinct-AreNamed : (js : List MemJob) → IsDistinct (names js) → AreNamed js
IsDistinct-AreNamed [] d = tt
IsDistinct-AreNamed (j ∷ js) d = (others_named j.name js d.0, IsDistinct-AreNamed js d.1)

All-perm : (P : MemJob → Type 0) {js ks : List MemJob} → Permᴰ js ks → All P js → All P ks
All-perm P Permᴰ.nil h = tt
All-perm P (Permᴰ.cons e p) h = (subst P e h.0, All-perm P p h.1)
All-perm P (Permᴰ.swap e f) h = (subst P f h.1.0, (subst P e h.0, h.1.1))
All-perm P (Permᴰ.trans p q) h = All-perm P q (All-perm P p h)

AreNamed-perm : {js ks : List MemJob} → Permᴰ js ks → AreNamed js → AreNamed ks
AreNamed-perm Permᴰ.nil h = tt
AreNamed-perm (Permᴰ.cons {l₂ = l} e p) h =
    (subst (λ j. All (λ k. j.name ≢ k.name) l) e (All-perm _ p h.0), AreNamed-perm p h.1)
AreNamed-perm (Permᴰ.swap {l = l} e f) h = (
  (
    (λ q. h.0.0 (ap (λ o. o.name) e ∙ sym q ∙ sym (ap (λ o. o.name) f))),
    subst (λ j. All (λ k. j.name ≢ k.name) l) f h.1.0,
  ),
  (subst (λ j. All (λ k. j.name ≢ k.name) l) e h.0.1, h.1.1),
)
AreNamed-perm (Permᴰ.trans p q) h = AreNamed-perm q (AreNamed-perm p h)

dues_set : IsSet (List DueJob)
dues_set = hlevel ℕ_discrete

-- The sort of the due rows after those that it has put in order.
sorted_after : Time → List DueJob → List MemJob → List DueJob
sorted_after now done js = sort_from due_gt done (collect_due now js)

module _ (now : Time) where
  -- What one row does to the rows in order.
  put : List DueJob → MemJob → List DueJob
  put done j = if not (after j.next_fire_time now) then sink due_gt done (to_due j) else done

  sorted_step :
      (done : List DueJob) (j : MemJob) (js : List MemJob)
      → sorted_after now done (j ∷ js) ≡ sorted_after now (put done j) js
  unfolding sorted_after put collect_due sort_from
  sorted_step done j js = elim (Bool-cases (not (after j.next_fire_time now))) [
    | inl t ↦ rw (t, if◌then◌else◌) refl
    | inr t ↦ rw (t, if◌then◌else◌) refl
  ]

  put_swap :
      (done : List DueJob) (a b : MemJob)
      → a.name ≢ b.name
      → put (put done a) b ≡ put (put done b) a
  unfolding put
  put_swap done a b ne = ground (arith, sink_swap done (to_due a) (to_due b) ne)

  sorted-perm :
      {js ks : List MemJob} (done : List DueJob)
      → Permᴰ js ks
      → AreNamed js
      → sorted_after now done js ≡ sorted_after now done ks
  sorted-perm done Permᴰ.nil h = refl
  sorted-perm done (Permᴰ.cons {a = a} {b = b} {l₁ = l} {l₂ = m} e p) h =
      sorted_step done a l
      ∙ sorted-perm (put done a) p h.1
      ∙ sym (sorted_step done a m)
      ∙ ap (λ j. sorted_after now done (j ∷ m)) e
  sorted-perm done (Permᴰ.swap {a = a} {b = b} {a' = c} {b' = d} {l = l} e f) h =
      sorted_step done a (b ∷ l)
      ∙ sorted_step (put done a) b l
      ∙ ap (λ o. sorted_after now o l) (put_swap done a b h.0.0)
      ∙ sym (sorted_step (put done b) a l)
      ∙ sym (sorted_step done b (a ∷ l))
      ∙ ap (λ j. sorted_after now done (b ∷ j ∷ l)) e
      ∙ ap (λ j. sorted_after now done (j ∷ d ∷ l)) f
  sorted-perm done (Permᴰ.trans p q) h =
      sorted-perm done p h ∙ sorted-perm done q (AreNamed-perm p h)

-- On well-formed rows what FetchDue returns does not depend on the order in which it meets the
-- entries of the map.
pub fetch_due-perm :
    (now : Time) (limit : ℤ) (m m' : MemoryStorage)
    → IsWf m
    → Perm m.jobs m'.jobs
    → (fetch_due now limit m).0 ≡ (fetch_due now limit m').0
unfolding fetch_due insertion_sort sorted_after
fetch_due-perm now limit m m' w p =
    ap
      (λ out. ok (
        if ltb (effective_limit limit) (length out) then take (effective_limit limit) out else out))
      (∥∥₁_elim p (dues_set _ _)
        (λ q. sorted-perm now [] q (IsDistinct-AreNamed m.jobs w.names_distinct)))
