-- ===== src/Worker/Backpressure/Examples.antt =====
-- Runs of `adjust_for_backpressure`, and the theorems at them.
use go_dota.Base.{◌≡◌, refl, arith}
use go_dota.Worker.Backpressure.{Pace, IsPace, adjust_for_backpressure, adjust_times}

abbrev usual : Pace
usual = record { batch = 10; block = 2_000_000_000 }

abbrev slow : Pace
slow = record { batch = 1; block = 5_000_000_000 }

usual-IsPace : IsPace usual usual
usual-IsPace = omega arith

pressure_runs :
    adjust_for_backpressure 20000 usual usual ≡ record { batch = 5; block = 4_000_000_000 }
unfolding adjust_for_backpressure
pressure_runs = refl

recovers_in_nine : adjust_times 9 10 slow usual ≡ usual
unfolding adjust_times
recovers_in_nine = refl

abbrev long : Pace
long = record { batch = 10; block = 8_000_000_000 }
