-- ===== src/Telemetry/Instruments.antt =====
-- telemetry.go: how `newTelemetry` makes its instruments. A meter's constructors return a value, nil
-- or not, and an error, nil or not; descriptions and units are left out.
use sundial.Base.{◌≡◌, ◌≢◌, refl, Option, none, some, Text, text}
use sundial.Errors.{Error}

-- A meter of OpenTelemetry, over its counters that go up and down, its histograms and its counters.
pub record Meter (U H C : Type 0) : Type 0 where
  pub up_down_counter : Text → Option U × Option Error
  pub histogram : Text → Option H × Option Error
  pub counter : Text → Option C × Option Error

pub record Instruments (U H C : Type 0) : Type 0 where
  pub jobs_scheduled : Option U
  pub jobs_running : Option U
  pub job_duration : Option H
  pub job_lag : Option H
  pub job_failures : Option C
  pub job_claimed_total : Option C

-- `if x, err = meter.…; err != nil { x, _ = noopMeter.… }`
abbrev pub or_noop : {A : Type 0} → Option A × Option Error → Option A × Option Error → Option A
or_noop (x, none) noop = x
or_noop (x, some e) noop = noop.0

abbrev made :
    {A : Type 0}
    → (Text → Option A × Option Error)
    → (Text → Option A × Option Error)
    → Text
    → Option A
made make noop name = or_noop (make name) (noop name)

-- `if meter == nil { meter = noop… }`
abbrev pub meter_or : {U H C : Type 0} → Option (Meter U H C) → Meter U H C → Meter U H C
meter_or none noop = noop
meter_or (some meter) noop = meter

unfoldable pub new_instruments :
    {U H C : Type 0} → Option (Meter U H C) → Meter U H C → Instruments U H C
new_instruments global noop =
    let meter = meter_or global noop in
    record {
      jobs_scheduled =
          made meter.up_down_counter noop.up_down_counter (text "sundial.jobs.scheduled");
      jobs_running = made meter.up_down_counter noop.up_down_counter (text "sundial.jobs.running");
      job_duration = made meter.histogram noop.histogram (text "sundial.jobs.duration_seconds");
      job_lag = made meter.histogram noop.histogram (text "sundial.jobs.lag_seconds");
      job_failures = made meter.counter noop.counter (text "sundial.jobs.failures_total");
      job_claimed_total = made meter.counter noop.counter (text "sundial.jobs.claimed_total");
    }

-- A constructor's value, if it comes without an error, is not nil.
abbrev pub IsSound : {A : Type 0} → (Text → Option A × Option Error) → Type 0
IsSound make = (name : Text) → (make name).1 ≡ none → (make name).0 ≢ none

abbrev pub IsMeter : {U H C : Type 0} → Meter U H C → Type 0
IsMeter m = IsSound m.up_down_counter × IsSound m.histogram × IsSound m.counter

-- What the global provider returns is nil or a meter.
abbrev pub IsInstalled : {U H C : Type 0} → Option (Meter U H C) → Type 0
IsInstalled none = Unit
IsInstalled (some m) = IsMeter m

-- The no-op meter never fails.
abbrev pub IsNoop : {U H C : Type 0} → Meter U H C → Type 0
IsNoop m =
    (name : Text)
    → ((m.up_down_counter name).0 ≢ none)
      × ((m.histogram name).0 ≢ none)
      × ((m.counter name).0 ≢ none)

or_noop-ne-none :
    {A : Type 0} (x noop : Option A × Option Error)
    → (x.1 ≡ none → x.0 ≢ none)
    → noop.0 ≢ none
    → or_noop x noop ≢ none
or_noop-ne-none (x, none) noop h k = h refl
or_noop-ne-none (x, some e) noop h k = k

meter_or-IsMeter :
    {U H C : Type 0} (global : Option (Meter U H C)) (noop : Meter U H C)
    → IsInstalled global
    → IsNoop noop
    → IsMeter (meter_or global noop)
meter_or-IsMeter none noop h k = ((λ n e. (k n).0), (λ n e. (k n).1), (λ n e. (k n).2))
meter_or-IsMeter (some m) noop h k = h

-- Whatever meter is installed, none at all or one whose constructors fail: if a constructor that
-- reports no error returns an instrument, and those of the no-op meter do, then `newTelemetry` leaves
-- no instrument nil.
new_instruments-ne-none :
    {U H C : Type 0} (global : Option (Meter U H C)) (noop : Meter U H C)
    → IsInstalled global
    → IsNoop noop
    → let t = new_instruments global noop in
      (t.jobs_scheduled ≢ none)
      × (t.jobs_running ≢ none)
      × (t.job_duration ≢ none)
      × (t.job_lag ≢ none)
      × (t.job_failures ≢ none)
      × (t.job_claimed_total ≢ none)
unfolding new_instruments
new_instruments-ne-none global noop h k =
    let m = meter_or-IsMeter global noop h k in
    (
      or_noop-ne-none _ _ (m.0 _) (k _).0,
      or_noop-ne-none _ _ (m.0 _) (k _).0,
      or_noop-ne-none _ _ (m.1 _) (k _).1,
      or_noop-ne-none _ _ (m.1 _) (k _).1,
      or_noop-ne-none _ _ (m.2 _) (k _).2,
      or_noop-ne-none _ _ (m.2 _) (k _).2,
    )
