-- ===== src/Services/Calls.antt =====
-- services.py, the handlers that `async_setup_services` registers.
use hass_melitta_barista_ts.Prelude.{ℕ, if◌then◌else◌, List, ◌++◌, Option, none, some}
use hass_melitta_barista_ts.Prelude.Int.{ℤ, pos}
use hass_melitta_barista_ts.Const.Framing.{Command}
use hass_melitta_barista_ts.Client.Text.{text}
use hass_melitta_barista_ts.Client.Connect.{World}
use hass_melitta_barista_ts.Client.Bond.{Clearing}
use hass_melitta_barista_ts.Machine.Brew.{decimal}
use hass_melitta_barista_ts.Coordinator.Commands.{
  BrewRequest, async_cancel, async_set_clock, async_write_setting, async_read_setting,
  async_read_frame,
}
use hass_melitta_barista_ts.Coordinator.Lifecycle.{async_repair_connection}
use hass_melitta_barista_ts.Services.Targets.{Hass, Target, coordinators, one_coordinator}
use hass_melitta_barista_ts.Coordinator.Reported.{reported}
use hass_melitta_barista_ts.Services.Store.{S, pure, raise, ◌>>=◌, on, invalid, resolved, for_each}
use hass_melitta_barista_ts.Services.Requests.{BrewCall, overrides_of, is_not_stored, brew_one}

abbrev pub time_or : ℕ × ℕ → Option (ℕ × ℕ) → ℕ × ℕ
time_or now none = now
time_or now (some time) = time

-- The clients of the coordinators.
module _ (hass : Hass) (worlds : ℕ → World) where
  abbrev pub brew_all : BrewCall → BrewRequest → S (Unit {0})
  brew_all call r = do
    found ← resolved (coordinators hass call.target)
    for_each (text "Could not start brewing: ") (λ c. brew_one (worlds c) call r) found

  unfoldable pub brew_service : BrewCall → S (Unit {0})
  unfolding overrides_of
  brew_service call =
      if is_not_stored call.profile call.drink
      then raise invalid
      else (do r ← resolved (overrides_of call); brew_all call r)

  unfoldable pub cancel_service : Target → S (Unit {0})
  cancel_service target = do
    found ← resolved (coordinators hass target)
    for_each (text "Could not cancel: ") (λ c. async_cancel (worlds c)) found

  -- With the hour and the minute of the local time, for a call that gives none.
  unfoldable pub set_clock_service : ℕ × ℕ → Target → Option (ℕ × ℕ) → S (Unit {0})
  set_clock_service now target given =
      let (hour, minute) = time_or now given in
      (do
        found ← resolved (coordinators hass target)
        for_each (text "Could not set the clock: ") (λ c. async_set_clock (worlds c) hour minute)
            found)

  unfoldable pub write_setting_service : Target → ℕ → ℤ → S (Unit {0})
  write_setting_service target setting_id value = do
    found ← resolved (coordinators hass target)
    for_each (text "Could not write register " ++ decimal setting_id ++ text ": ")
        (λ c. async_write_setting (worlds c) (pos setting_id) value) found

  unfoldable pub repair_connection_service : (ℕ → Clearing) → Target → S (Unit {0})
  repair_connection_service clearings target = do
    found ← resolved (coordinators hass target)
    for_each (text "Could not clear the bond: ")
        (λ c. async_repair_connection (worlds c) (clearings c)) found

  unfoldable pub read_setting_service : Target → ℕ → S (ℕ × ℤ)
  read_setting_service target setting_id = do
    c ← resolved (one_coordinator hass target)
    value ← on c (
        reported (text "Could not read register " ++ decimal setting_id ++ text ": ")
          (async_read_setting (worlds c) (pos setting_id)))
    pure (setting_id, value)

  -- The answer's payload as its bytes; the source writes them as `hex`.
  unfoldable pub read_frame_service : Target → Command → S (Command × List ℕ)
  read_frame_service target command = do
    c ← resolved (one_coordinator hass target)
    payload ← on c (
        reported (text "Could not read " ++ command ++ text ": ")
          (async_read_frame (worlds c) command))
    pure (command, payload)
