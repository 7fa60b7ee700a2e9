-- ===== src/Clock.antt =====
-- `time.Time` and `time.Duration` as the package uses them. An instant is the number of nanoseconds
-- since Go's zero Time, whose number is 0; a duration is an int64 number of nanoseconds. `UTC()`
-- changes the location of an instant and not the instant, and is left out.
use sundial.Base.{
  ◌+◌, ◌-◌, ◌*◌, ◌%◌, ◌^◌, ℤ, pos, negsuc, pos_part, neg_part, ◌-ℤ◌, ltb_ℤ, eqb_ℤ, Bool, ltb,
  if◌then◌else◌,
}

abbrev pub Time : Type 0
Time = ℤ

abbrev pub Duration : Type 0
Duration = ℤ

abbrev pub zero_time : Time
zero_time = pos 0

abbrev pub is_zero : Time → Bool
is_zero t = eqb_ℤ t zero_time

abbrev pub before : Time → Time → Bool
before t u = ltb_ℤ t u

abbrev pub after : Time → Time → Bool
after t u = ltb_ℤ u t

abbrev pub millisecond : Duration
millisecond = pos 1000000

abbrev pub second : Duration
second = pos 1000000000

abbrev pub minute : Duration
minute = pos 60000000000

abbrev pub max_duration : Duration
max_duration = pos 9223372036854775807

abbrev pub min_duration : Duration
min_duration = negsuc 9223372036854775807

-- `t.Sub(u)` saturates at the ends of int64.
unfoldable pub sub : Time → Time → Duration
sub t u =
    let d = t -ℤ u in
    if ltb_ℤ max_duration d then max_duration else if ltb_ℤ d min_duration then min_duration else d

-- The int64 that has the bits of an integer: two's complement.
unfoldable pub wrap64 : ℤ → Duration
wrap64 z =
    let m = (pos_part z + 2 ^ 64 * neg_part z - neg_part z) % 2 ^ 64 in
    if ltb m (2 ^ 63) then pos m else negsuc (2 ^ 64 - m - 1)
