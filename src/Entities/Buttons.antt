-- ===== src/Entities/Buttons.antt =====
-- button.py.
pub mod Offers
use hass_melitta_barista_ts.Prelude.{
  ℕ, Bool, true, false, not, ◌&&◌, if◌then◌else◌, List, [], ◌∷◌, ◌++◌, Option, none, some,
}
use hass_melitta_barista_ts.Prelude.Int.{pos, eq_ℤ}
use hass_melitta_barista_ts.Prelude.Dict.{Dict}
use hass_melitta_barista_ts.Const.Enum.{int}
use hass_melitta_barista_ts.Const.Status.{MachineProcess, machine_process_enum}
use hass_melitta_barista_ts.Const.DirectKeys.{DirectKeyCategory}
use hass_melitta_barista_ts.Protocol.Status.{MachineStatus, is_busy}
use hass_melitta_barista_ts.Client.Text.{Text, text}
use hass_melitta_barista_ts.Client.Connect.{World}
use hass_melitta_barista_ts.Coordinator.State.{Coordinator, C}
use hass_melitta_barista_ts.Coordinator.Commands.{
  BrewRequest, async_brew, async_brew_profile, async_press_direct_key, async_cancel,
  async_start_care, async_set_clock,
}
use hass_melitta_barista_ts.Coordinator.Commands.Staging.{nothing_given}
use hass_melitta_barista_ts.Coordinator.Reported.{reported}
use hass_melitta_barista_ts.Entities.Base.{available}

-- `status.process in BREW_READY_PROCESSES`
pub is_brew_ready : MachineStatus → Bool
is_brew_ready status =
    eq_ℤ status.process (pos (int ⦃e = machine_process_enum⦄ MachineProcess.ready))

abbrev ready_status : Option MachineStatus → Bool
ready_status none = false
ready_status (some status) = is_brew_ready status

abbrev busy_status : Option MachineStatus → Bool
busy_status none = false
busy_status (some status) = is_busy status

abbrev has_profiles : Dict Text → Bool
has_profiles [] = false
has_profiles (e ∷ rest) = true

-- `MelittaBrewButton.available`, and that of the Easy Clean button.
unfoldable pub brew_available : ℕ → Coordinator → Bool
unfolding is_brew_ready
brew_available now s = if not (available now s) then false else ready_status s.content.status

unfoldable pub easy_clean_available : ℕ → Coordinator → Bool
unfolding is_brew_ready
easy_clean_available now s = if not (available now s) then false else ready_status s.content.status

-- `MelittaBrewProfileButton.available`, and that of the direct keys.
unfoldable pub profile_brew_available : ℕ → Coordinator → Bool
unfolding is_brew_ready
profile_brew_available now s =
    if not (available now s && has_profiles s.content.profile_names)
    then false
    else ready_status s.content.status

unfoldable pub cancel_available : ℕ → Coordinator → Bool
unfolding is_busy
cancel_available now s = if not (available now s) then false else busy_status s.content.status

-- What the buttons do.
module _ (world : World) where
  unfoldable pub press_brew : C (Unit {0})
  press_brew = reported (text "Could not start brewing: ") (async_brew world none nothing_given)

  unfoldable pub press_brew_profile : C (Unit {0})
  press_brew_profile =
      reported (text "Could not start brewing: ") (async_brew_profile world none none nothing_given)

  unfoldable pub press_cancel : C (Unit {0})
  press_cancel = reported (text "Could not cancel: ") (async_cancel world)

  -- At the hour and the minute of the local time.
  unfoldable pub press_sync_clock : ℕ → ℕ → C (Unit {0})
  press_sync_clock hour minute =
      reported (text "Could not set the clock: ") (async_set_clock world hour minute)

  unfoldable pub press_direct_key : DirectKeyCategory → C (Unit {0})
  press_direct_key category =
      reported (text "Could not start brewing: ") (async_press_direct_key world category)

  unfoldable pub press_easy_clean : C (Unit {0})
  press_easy_clean =
      reported (text "Could not start Easy Clean: ")
        (async_start_care world MachineProcess.easy_clean)
