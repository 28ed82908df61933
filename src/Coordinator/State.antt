-- ===== src/Coordinator/State.antt =====
-- coordinator.py: `BrewSettings`, `MelittaData` and what a coordinator keeps.
use hass_melitta_barista_ts.Prelude.{
  ℕ, suc, Bool, true, false, ◌||◌, if◌then◌else◌, Option, none, some,
}
use hass_melitta_barista_ts.Prelude.Int.{ℤ, pos}
use hass_melitta_barista_ts.Prelude.Dict.{Dict}
use hass_melitta_barista_ts.Errors.{Exception, is_machine_error}
use hass_melitta_barista_ts.Const.Enum.{enum_of}
use hass_melitta_barista_ts.Const.Brewing.{
  Intensity, intensity_enum, BrewTemperature, brew_temperature_enum, Blend,
}
use hass_melitta_barista_ts.Const.Recipes.{RecipeId}
use hass_melitta_barista_ts.Const.DirectKeys.{DirectKeyCategory}
use hass_melitta_barista_ts.Const.Settings.{MachineType}
use hass_melitta_barista_ts.Protocol.Recipe.{RecipeComponent, portion_ml}
use hass_melitta_barista_ts.Protocol.Status.{MachineStatus}
use hass_melitta_barista_ts.Machine.Session.{M}
use hass_melitta_barista_ts.Client.Text.{Text}
use hass_melitta_barista_ts.Client.State.{Failure, Client}
use hass_melitta_barista_ts.Client.Connect.{World, Outcome, done, failed, async_run}

pub record BrewSettings : Type 0 where
  pub intensity : Intensity
  pub temperature : BrewTemperature
  pub portion_ml : ℤ
  pub blend : Blend
  pub two_cups : Bool

abbrev pub default_brew_settings : BrewSettings
default_brew_settings = record {
  intensity = Intensity.medium;
  temperature = BrewTemperature.medium;
  portion_ml = pos 40;
  blend = Blend.default;
  two_cups = false;
}

abbrev pub or_else : {A : Type 0} → Option A → A → A
or_else none a = a
or_else (some b) a = b

-- `seed_from`: a byte that is no member leaves the old value.
unfoldable pub seed_from : RecipeComponent → BrewSettings → BrewSettings
seed_from component s = record {
  intensity = or_else (enum_of component.intensity) s.intensity;
  temperature = or_else (enum_of component.temperature) s.temperature;
  portion_ml = pos (portion_ml component);
  blend = s.blend;
  two_cups = s.two_cups;
}

-- The dicts are keyed by the members' numbers.
pub record MelittaData : Type 0 where
  pub status : Option MachineStatus
  pub firmware : Option Text
  pub machine_type : Option MachineType
  pub total_cups : Option ℤ
  pub cup_counters : Dict ℤ
  pub clock_minutes : Option ℤ
  pub care_counts : Dict ℤ
  pub care_due : Dict Bool
  pub care_since : Dict ℤ
  pub auto_off_after : Option ℤ
  pub water_hardness : Option ℤ
  pub profile_names : Dict Text

-- `refreshes` counts the calls of `async_request_refresh`, and `updates` those of
-- `async_update_listeners`; both are Home Assistant's.
pub record Coordinator : Type 0 where
  pub client : Client
  pub content : MelittaData
  pub brew_settings : BrewSettings
  pub selected_drink : RecipeId
  pub selected_profile : ℕ
  pub selected_profile_drink : DirectKeyCategory
  pub settings_read_at : Option ℕ
  pub last_success_at : Option ℕ
  pub counters_due : Bool
  pub first_refresh_done : Bool
  pub last_update_success : Bool
  pub refreshes : ℕ
  pub updates : ℕ

-- Actions of the coordinator.
abbrev pub C : Type 0 → Type 0
C A = Coordinator → Outcome A × Coordinator

abbrev pub pure : {A : Type 0} → A → C A
pure a s = (done a, s)

abbrev pub raise : {A : Type 0} → Failure → C A
raise f s = (failed f, s)

abbrev continue : {A B : Type 0} → Outcome A → (A → C B) → Coordinator → Outcome B × Coordinator
continue (done a) next s = next a s
continue (failed f) next s = (failed f, s)

infixl 5 ◌>>=◌ ◌>>◌
abbrev pub ◌>>=◌ : {A B : Type 0} → C A → (A → C B) → C B
◌>>=◌ action next s = let (r, s') = action s in continue r next s'

abbrev pub ◌>>◌ : {A B : Type 0} → C A → C B → C B
first >> second = first >>= λ _. second

abbrev pub modify : (Coordinator → Coordinator) → C (Unit {0})
modify f s = (done tt, f s)

-- `self.client.async_run(...)`
abbrev pub run : {A : Type 0} → World → M A → C A
run world action s = let (r, c) = async_run world action s.client in (r, record s { client = c })

-- `except (MachineError, ProtocolError)`
abbrev is_protocol_error : Exception → Bool
is_protocol_error Exception.protocol_error = true
is_protocol_error _ = false

abbrev pub is_communication_error : Exception → Bool
is_communication_error e = is_machine_error e || is_protocol_error e

abbrev pub absorbed : {A : Type 0} → Outcome A → Coordinator → Outcome (Option A) × Coordinator
absorbed (done a) s = (done (some a), s)
absorbed (failed f) s = if is_communication_error f.exception then (done none, s) else (failed f, s)

-- A call under `try` whose failure to communicate gives no value.
abbrev pub absorb : {A : Type 0} → C A → C (Option A)
absorb action s = let (r, s') = action s in absorbed r s'

-- `async_request_refresh`, `async_update_listeners` and the two `async_invalidate_*`.
abbrev pub request_refresh : C (Unit {0})
request_refresh = modify (λ s. record s { refreshes = suc s.refreshes })

abbrev pub update_listeners : C (Unit {0})
update_listeners = modify (λ s. record s { updates = suc s.updates })

abbrev pub invalidate_settings : C (Unit {0})
invalidate_settings = modify (λ s. record s { settings_read_at = none })

abbrev pub invalidate_counters : C (Unit {0})
invalidate_counters = modify (λ s. record s { counters_due = true })
