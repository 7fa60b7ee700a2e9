-- ===== src/Examples/Meters.antt =====
-- A test of the instruments, with a meter whose histograms cannot be made.
use sundial.Base.{ℕ, ◌≡◌, refl, none, some}
use sundial.Errors.{nil_job}
use sundial.Telemetry.Instruments.{Meter, new_instruments}

abbrev noop : Meter ℕ ℕ ℕ
noop = record {
  up_down_counter = λ name. (some 0, none);
  histogram = λ name. (some 0, none);
  counter = λ name. (some 0, none);
}

abbrev broken : Meter ℕ ℕ ℕ
broken = record {
  up_down_counter = λ name. (some 1, none);
  histogram = λ name. (none, some nil_job);
  counter = λ name. (some 1, none);
}

lag_dropped : (new_instruments (some broken) noop).job_lag ≡ some 0
unfolding new_instruments
lag_dropped = refl
