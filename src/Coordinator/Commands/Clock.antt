-- ===== src/Coordinator/Commands/Clock.antt =====
-- What setting the clock writes.
use hass_melitta_barista_ts.Prelude.{ℕ, ◌/◌, ◌%◌, ◌<◌, ◌≡◌, arith}
use hass_melitta_barista_ts.Coordinator.Commands.{minutes_of_day}

-- Whatever the hour and the minute, the machine gets a minute of one day; an hour below 24 and a minute
-- below 60 are read back from it.
pub minutes_of_day_lem :
    (hour minute : ℕ)
    → (minutes_of_day hour minute < 1440)
      × (hour < 24
          → minute < 60
          → (minutes_of_day hour minute / 60 ≡ hour) × (minutes_of_day hour minute % 60 ≡ minute))
unfolding minutes_of_day
minutes_of_day_lem hour minute = (omega arith, λ h m. (omega arith, omega arith))
