-- ===== src/Coordinator/Commands.antt =====
-- coordinator.py: what the entities and services make the machine do.
pub mod Clock
pub mod Guards
pub mod Staging
pub mod Selection
use hass_melitta_barista_ts.Prelude.{
  ℕ, zero, suc, ◌+◌, ◌*◌, ◌%◌, ◌==◌, Bool, true, false, not, ◌||◌, if◌then◌else◌, List, [], ◌∷◌,
  Option, none, some,
}
use hass_melitta_barista_ts.Prelude.Int.{ℤ, pos, eq_ℤ}
use hass_melitta_barista_ts.Prelude.Dict.{Dict, lookup}
use hass_melitta_barista_ts.Errors.{machine_error}
use hass_melitta_barista_ts.Const.Enum.{IntEnum, int}
use hass_melitta_barista_ts.Const.Framing.{Command}
use hass_melitta_barista_ts.Const.Brewing.{
  Intensity, intensity_enum, BrewTemperature, brew_temperature_enum, Blend, blend_enum,
}
use hass_melitta_barista_ts.Const.Recipes.{RecipeId, recipe_id_enum}
use hass_melitta_barista_ts.Const.DirectKeys.{DirectKeyCategory, directkey_display_names}
use hass_melitta_barista_ts.Const.Settings.{SettingId, setting_id_enum, minutes_per_day}
use hass_melitta_barista_ts.Const.Status.{MachineProcess, machine_process_enum}
use hass_melitta_barista_ts.Const.Slots.{directkey_recipe_id}
use hass_melitta_barista_ts.Protocol.Status.{MachineStatus}
use hass_melitta_barista_ts.Protocol.Recipe.{MachineRecipe}
use hass_melitta_barista_ts.Machine.Overrides.{Overrides}
use hass_melitta_barista_ts.Machine.Reads.{read_recipe, read_raw, read_numerical}
use hass_melitta_barista_ts.Machine.Writes.{write_numerical, start_process, cancel_process}
use hass_melitta_barista_ts.Machine.Brew.{brew}
use hass_melitta_barista_ts.Client.Text.{Text, text}
use hass_melitta_barista_ts.Client.State.{Failure}
use hass_melitta_barista_ts.Client.Connect.{World, Outcome}
use hass_melitta_barista_ts.Coordinator.State.{
  BrewSettings, seed_from, Coordinator, C, pure, raise, ◌>>=◌, ◌>>◌, modify, run, absorb,
  request_refresh, update_listeners, invalidate_settings, invalidate_counters,
}

-- What a caller passes to a brew; none is the staged value.
pub record BrewRequest : Type 0 where
  pub two_cups : Option Bool
  pub intensity : Option Intensity
  pub temperature : Option BrewTemperature
  pub portion_ml : Option ℤ
  pub blend : Option Blend

abbrev pub given_or : {A : Type 0} → Option A → A → A
given_or none staged = staged
given_or (some a) staged = a

-- `int(...) or None`
abbrev pub none_if_zero : ℕ → Option ℕ
none_if_zero zero = none
none_if_zero (suc n) = some (suc n)

-- The parameters of `_async_brew_slot` that go to the machine.
unfoldable pub filled : BrewRequest → BrewSettings → Overrides
filled r s = record {
  intensity = some (int (given_or r.intensity s.intensity));
  temperature = some (int (given_or r.temperature s.temperature));
  portion_ml = some (given_or r.portion_ml s.portion_ml);
  blend = none_if_zero (int (given_or r.blend s.blend));
}

abbrev pub machine_failure : Text → Failure
machine_failure message = record { exception = machine_error; message = message }

abbrev is_known : ℕ → Dict Text → Bool
is_known profile [] = false
is_known profile ((p, name) ∷ rest) = p == profile || is_known profile rest

-- `known and profile not in known`; the messages leave out the profile numbers that they name.
unfoldable pub is_missing : ℕ → Dict Text → Bool
is_missing profile [] = false
is_missing profile (e ∷ rest) = not (is_known profile (e ∷ rest))

abbrev pub seed : Option MachineRecipe → C (Unit {0})
seed none = pure tt
seed (some stored) =
    modify (λ s. record s { brew_settings = seed_from stored.component1 s.brew_settings })

-- The value that `async_set_clock` writes.
unfoldable pub minutes_of_day : ℕ → ℕ → ℕ
minutes_of_day hour minute = (hour * 60 + minute) % minutes_per_day

module _ (world : World) where
  -- The read of a stored recipe that both selections end in.
  pub seed_from_slot : ℕ → C (Unit {0})
  unfolding seed_from
  seed_from_slot recipe_id = do
    stored ← absorb (run world (read_recipe (pos recipe_id)))
    seed stored
    update_listeners

  pub async_select_profile_drink : DirectKeyCategory → C (Unit {0})
  unfolding seed_from_slot
  async_select_profile_drink category s =
      seed_from_slot (directkey_recipe_id s.selected_profile category)
        (record s { selected_profile_drink = category })

  pub async_select_profile : ℕ → C (Unit {0})
  unfolding async_select_profile_drink
  async_select_profile profile s =
      async_select_profile_drink s.selected_profile_drink (record s { selected_profile = profile })

  pub async_select_drink : RecipeId → C (Unit {0})
  unfolding seed_from_slot
  async_select_drink recipe s =
      seed_from_slot (int ⦃e = recipe_id_enum⦄ recipe) (record s { selected_drink = recipe })

  unfoldable pub async_brew_slot : ℕ → Option Text → BrewRequest → C (Unit {0})
  unfolding filled
  async_brew_slot recipe_id name r s =
      (do
        run world (
            brew recipe_id name (given_or r.two_cups s.brew_settings.two_cups)
              (filled r s.brew_settings))
        invalidate_counters
        request_refresh)
        s

  unfoldable pub async_brew : Option RecipeId → BrewRequest → C (Unit {0})
  unfolding async_brew_slot
  async_brew recipe r s =
      async_brew_slot (int ⦃e = recipe_id_enum⦄ (given_or recipe s.selected_drink)) none r s

  unfoldable pub async_brew_profile :
      Option ℕ → Option DirectKeyCategory → BrewRequest → C (Unit {0})
  unfolding async_brew_slot is_missing
  async_brew_profile profile category r s =
      let target : ℕ = given_or profile s.selected_profile in
      let key : DirectKeyCategory = given_or category s.selected_profile_drink in
      let brewed =
        async_brew_slot (directkey_recipe_id target key) (some (text (directkey_display_names key)))
          r s in
      if is_missing target s.content.profile_names
      then raise (machine_failure (text "this machine has no profile")) s
      else brewed

  -- The stored drink as it is: no overrides, one cup.
  abbrev as_stored : Overrides
  as_stored = record { intensity = none; temperature = none; portion_ml = none; blend = none }

  unfoldable pub async_press_direct_key : DirectKeyCategory → C (Unit {0})
  unfolding is_missing
  async_press_direct_key category s =
      if is_missing s.selected_profile s.content.profile_names
      then raise (machine_failure (text "this machine has no profile")) s
      else (do
        run world (
            brew (directkey_recipe_id s.selected_profile category)
              (some (text (directkey_display_names category))) false as_stored)
        invalidate_counters
        request_refresh)
          s

  abbrev is_occupied : Option MachineStatus → Bool
  is_occupied none = false
  is_occupied (some status) =
      not (eq_ℤ status.process (pos (int ⦃e = machine_process_enum⦄ MachineProcess.ready)))

  unfoldable pub async_start_care : MachineProcess → C (Unit {0})
  async_start_care process s =
      if is_occupied s.content.status
      then raise (machine_failure (text "the machine is busy")) s
      else (do
        run world (start_process (pos (int ⦃e = machine_process_enum⦄ process)) false)
        request_refresh)
          s

  unfoldable pub async_cancel : C (Unit {0})
  async_cancel s = elim s.content.status [
    | none ↦ raise (machine_failure (text "machine state is unknown")) s
    | some status ↦ (do run world (cancel_process status.process); request_refresh) s
  ]

  unfoldable pub async_write_setting : ℤ → ℤ → C (Unit {0})
  async_write_setting setting_id value = do
    run world (write_numerical setting_id value)
    invalidate_settings
    request_refresh

  unfoldable pub async_set_clock : ℕ → ℕ → C (Unit {0})
  unfolding minutes_of_day
  async_set_clock hour minute = do
    run world (
        write_numerical (pos (int ⦃e = setting_id_enum⦄ SettingId.clock_set))
          (pos (minutes_of_day hour minute)))
    invalidate_settings
    request_refresh

  unfoldable pub async_read_frame : Command → C (List ℕ)
  async_read_frame command = run world (read_raw command)

  unfoldable pub async_read_setting : ℤ → C ℤ
  async_read_setting setting_id = run world (read_numerical setting_id)
