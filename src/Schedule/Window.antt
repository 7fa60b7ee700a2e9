-- ===== src/Schedule/Window.antt =====
-- What `iterateSchedule` (schedule.go) enumerates: the missed fires of a window, in order.
use sundial.Base.{
  ℕ, zero, suc, ltb, ◌+◌, ◌-◌, ◌/◌, ◌≤◌, ◌<◌, min, ◌≡◌, refl, ap, ◌≢◌, ◌⊎◌, inl, inr, ℤ, pos,
  pos_part, neg_part, ◌+ℤ◌, ◌≤ℤ◌, ◌<ℤ◌, ltb_ℤ, Bool, true, false, not, ◌||◌, List, [], ◌∷◌, some,
  Bool-cases, length, arith, int_laws, +ℤ_parts, eqb_ℤ→eq, if◌then◌else◌,
}
use sundial.Clock.{Time, zero_time, is_zero, before}
use sundial.Schedule.{Schedule, fires_from, iterate_schedule, Formats, interval_schedule}

-- The contract of `Schedule.Next`: a later instant, or the zero Time.
abbrev pub Advances : (Time → Time) → Type 0
Advances next = (t : Time) → (next t ≡ zero_time) ⊎ (t <ℤ next t)

-- Consecutive fires after `t`, each later than the one before and earlier than `until`.
abbrev pub IsWindow : (Time → Time) → Time → Time → List Time → Type 0
IsWindow next t until [] = Unit
IsWindow next t until (u ∷ us) = (u ≡ next t) × (t <ℤ u) × (u <ℤ until) × IsWindow next u until us

-- The fire after the last one listed does not exist or is not before `until`.
abbrev pub IsExhausted : (Time → Time) → Time → Time → List Time → Type 0
IsExhausted next t until [] = (next t ≡ zero_time) ⊎ (until ≤ℤ next t)
IsExhausted next t until (u ∷ us) = IsExhausted next u until us

abbrev stops : Time → Time → Bool
stops u until = is_zero u || not (before u until)

stops→ : (u until : Time) → stops u until ≡ true → (u ≡ zero_time) ⊎ (until ≤ℤ u)
stops→ u until h = elim (Bool-cases (is_zero u)) [
  | inl e ↦ inl (eqb_ℤ→eq u zero_time e)
  | inr e ↦ inr (ground arith)
]

goes→ : (u until : Time) → stops u until ≡ false → (u ≢ zero_time) × (u <ℤ until)
goes→ u until h = (ground arith, ground arith)

module _ (next : Time → Time) (advances : Advances next) (until : Time) where
  fires_from-IsWindow : (n : ℕ) (t : Time) → IsWindow next t until (fires_from next t until n)
  unfolding fires_from
  fires_from-IsWindow zero t = tt
  fires_from-IsWindow (suc n) t = elim (Bool-cases (stops (next t) until)) [
    | inl e ↦ rw (e, if◌then◌else◌) tt
    | inr e ↦
        let (u, b) = goes→ (next t) until e in
        rw e (refl, later (advances t) u, b, fires_from-IsWindow n (next t))
  ]
    where
      later : (next t ≡ zero_time) ⊎ (t <ℤ next t) → next t ≢ zero_time → t <ℤ next t
      later (inl e) h = absurd (h e)
      later (inr l) h = l

fires_from-length :
    (next : Time → Time) (until : Time) (n : ℕ) (t : Time) → length (fires_from next t until n) ≤ n
unfolding fires_from
fires_from-length next until zero t = omega arith
fires_from-length next until (suc n) t = ground (arith, fires_from-length next until n (next t))

fires_from-IsExhausted :
    (next : Time → Time) (until : Time) (n : ℕ) (t : Time)
    → length (fires_from next t until n) < n
    → IsExhausted next t until (fires_from next t until n)
unfolding fires_from
fires_from-IsExhausted next until zero t h = absurd (omega arith)
fires_from-IsExhausted next until (suc n) t h = elim (Bool-cases (stops (next t) until)) [
  | inl e ↦ rw e (stops→ (next t) until e)
  | inr e ↦ rw e (fires_from-IsExhausted next until n (next t) (let h' = rw e at h in omega arith))
]

iterate_schedule-IsWindow :
    (s : Schedule) (from until : Time) (limit : ℤ)
    → Advances s.next
    → let ts = iterate_schedule (some s) from until limit in
      IsWindow s.next from until ts × (length ts ≤ pos_part limit)
unfolding iterate_schedule
iterate_schedule-IsWindow s from until limit h =
    elim (Bool-cases (not (before from until) || not (ltb_ℤ (pos 0) limit))) [
      | inl e ↦ rw (e, if◌then◌else◌) (tt, omega arith)
      | inr e ↦
          rw (e, if◌then◌else◌)
            (
              fires_from-IsWindow s.next h until (pos_part limit) from,
              fires_from-length s.next until (pos_part limit) from,
            )
    ]

iterate_schedule-IsExhausted :
    (s : Schedule) (from until : Time) (limit : ℤ)
    → from <ℤ until
    → length (iterate_schedule (some s) from until limit) < pos_part limit
    → IsExhausted s.next from until (iterate_schedule (some s) from until limit)
unfolding iterate_schedule
iterate_schedule-IsExhausted s from until limit w h =
    elim (Bool-cases (not (before from until) || not (ltb_ℤ (pos 0) limit))) [
      | inl e ↦ absurd (ground arith)
      | inr e ↦
          let h' = rw e at h in
          rw e (fires_from-IsExhausted s.next until (pos_part limit) from (rw e at h))
    ]

-- For a schedule whose Next is later than its argument or the zero Time: the missed fires are
-- consecutive fires of the schedule strictly inside the window, in order of time, and at most `limit`
-- of them; and none is left out, unless the window is empty or the limit is met: the schedule has no
-- fire after the last one, or none before `until`.
pub iterate_schedule_lem :
    (s : Schedule) (from until : Time) (limit : ℤ)
    → Advances s.next
    → let ts = iterate_schedule (some s) from until limit in
      IsWindow s.next from until ts
      × (length ts ≤ pos_part limit)
      × ((until ≤ℤ from) ⊎ (length ts ≡ pos_part limit) ⊎ IsExhausted s.next from until ts)
iterate_schedule_lem s from until limit h =
    let (window, within) = iterate_schedule-IsWindow s from until limit h in
    let n = length (iterate_schedule (some s) from until limit) in
    (
      window,
      within,
      elim (Bool-cases (before from until)) [
        | inr e ↦ inl (ground arith)
        | inl e ↦ inr (elim (Bool-cases (ltb n (pos_part limit))) [
          | inl few ↦
              inr (
                iterate_schedule-IsExhausted s from until limit (ground arith)
                  (ground (arith, few)))
          | inr many ↦ inl (ground (arith, many, within))
        ])
      ],
    )

-- n instants, `gap` nanoseconds apart, after `t`.
abbrev pub progression : ℕ → Time → ℕ → List Time
progression gap t zero = []
progression gap t (suc n) = (t +ℤ pos gap) ∷ progression gap (t +ℤ pos gap) n

quotient_small : (width gap : ℕ) → 0 < width → width ≤ gap → (width - 1) / gap ≡ 0
quotient_small width gap w h = grind arith

quotient_step :
    (width gap : ℕ) → 0 < gap → gap < width → (width - 1) / gap ≡ suc ((width - gap - 1) / gap)
quotient_step width gap g h = grind arith

fires_from-progression :
    (gap : ℕ) (until : Time) (n : ℕ) (t : Time) (width : ℕ)
    → 0 < gap
    → zero_time ≤ℤ t
    → pos_part until + neg_part t ≡ pos_part t + neg_part until + width
    → 0 < width
    → fires_from (λ u. u +ℤ pos gap) t until n ≡ progression gap t (min n ((width - 1) / gap))
unfolding fires_from
fires_from-progression gap until zero t width g z e w =
    rw (let m : min 0 ((width - 1) / gap) ≡ 0 = omega arith in m)
fires_from-progression gap until (suc n) t width g z e w =
    elim (Bool-cases (stops (t +ℤ pos gap) until)) [
      | inl s ↦
          let narrow : width ≤ gap = too_wide (stops→ (t +ℤ pos gap) until s) in
          rw (s, if◌then◌else◌, quotient_small width gap w narrow)
            (rw (let m : min (suc n) 0 ≡ 0 = omega arith in m))
      | inr s ↦
          let (_, wide) = goes→ (t +ℤ pos gap) until s in
          let wider : gap < width = omega int_laws in
          rw (s, if◌then◌else◌, quotient_step width gap g wider)
            (rw
              (let m : min (suc n) (suc ((width - gap - 1) / gap))
                    ≡ suc (min n ((width - gap - 1) / gap)) =
                  omega arith in
                m)
              (ap (λ ts. (t +ℤ pos gap) ∷ ts)
                (fires_from-progression gap until n (t +ℤ pos gap) (width - gap) g (omega int_laws)
                  (omega int_laws) (omega arith))))
    ]
  where
    too_wide : ((t +ℤ pos gap) ≡ zero_time) ⊎ (until ≤ℤ (t +ℤ pos gap)) → width ≤ gap
    too_wide (inl e') = absurd (omega (int_laws, ap pos_part e', ap neg_part e'))
    too_wide (inr l) = omega int_laws

-- An interval schedule that was down for a positive number `width` of nanoseconds, from an instant
-- not before the zero Time, has missed the fires at its interval's multiples after that instant:
-- every one of them strictly inside the window, up to the limit.
pub iterate_schedule-every :
    (f : Formats) (gap width limit : ℕ) (from : Time)
    → 0 < gap
    → 0 < width
    → zero_time ≤ℤ from
    → iterate_schedule (some (interval_schedule f (pos gap))) from (from +ℤ pos width) (pos limit)
      ≡ progression gap from (min limit ((width - 1) / gap))
unfolding iterate_schedule interval_schedule
iterate_schedule-every f gap width limit from g w z =
    elim (Bool-cases (not (before from (from +ℤ pos width)) || not (ltb_ℤ (pos 0) (pos limit)))) [
      | inl e ↦
          let none_wanted : limit ≡ 0 = ground (arith, +ℤ_parts from (pos width)) in
          rw (e, if◌then◌else◌) (rw (let m : min limit ((width - 1) / gap) ≡ 0 = omega arith in m))
      | inr e ↦
          rw (e, if◌then◌else◌)
            (fires_from-progression gap (from +ℤ pos width) limit from width g z (omega int_laws) w)
    ]
