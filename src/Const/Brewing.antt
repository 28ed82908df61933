-- ===== src/Const/Brewing.antt =====
-- const.py: what a recipe component holds, and the texts for it.
use Prim.Native.String.{String}
use hass_melitta_barista_ts.Prelude.{ℕ, ◌*◌, ◌≡◌, refl, List, [], ◌∷◌, Option, some}
use hass_melitta_barista_ts.Const.Enum.{IntEnum, find_member, find_text}

-- What a component dispenses.
pub data ComponentProcess : Type 0 where
  none coffee steam water : ComponentProcess

abbrev component_process_value : ComponentProcess → ℕ
component_process_value ComponentProcess.none = 0
component_process_value ComponentProcess.coffee = 1
component_process_value ComponentProcess.steam = 2
component_process_value ComponentProcess.water = 3

abbrev component_process_members : List ComponentProcess
component_process_members =
    ComponentProcess.none ∷ ComponentProcess.coffee ∷ ComponentProcess.steam
    ∷ ComponentProcess.water ∷ []

pub component_process_found :
    (a : ComponentProcess)
    → find_member component_process_value component_process_members (component_process_value a)
      ≡ some a
component_process_found ComponentProcess.none = refl
component_process_found ComponentProcess.coffee = refl
component_process_found ComponentProcess.steam = refl
component_process_found ComponentProcess.water = refl

instance abbrev pub component_process_enum : IntEnum ComponentProcess
component_process_enum = record {
  value = component_process_value;
  members = component_process_members;
  found = component_process_found;
}

-- Coffee strength.
pub data Intensity : Type 0 where
  very_mild mild medium strong very_strong : Intensity

abbrev intensity_value : Intensity → ℕ
intensity_value Intensity.very_mild = 0
intensity_value Intensity.mild = 1
intensity_value Intensity.medium = 2
intensity_value Intensity.strong = 3
intensity_value Intensity.very_strong = 4

abbrev intensity_members : List Intensity
intensity_members =
    Intensity.very_mild ∷ Intensity.mild ∷ Intensity.medium ∷ Intensity.strong
    ∷ Intensity.very_strong ∷ []

pub intensity_found :
    (a : Intensity) → find_member intensity_value intensity_members (intensity_value a) ≡ some a
intensity_found Intensity.very_mild = refl
intensity_found Intensity.mild = refl
intensity_found Intensity.medium = refl
intensity_found Intensity.strong = refl
intensity_found Intensity.very_strong = refl

instance abbrev pub intensity_enum : IntEnum Intensity
intensity_enum = record {
  value = intensity_value;
  members = intensity_members;
  found = intensity_found;
}

-- The three levels of the machine.
pub data BrewTemperature : Type 0 where
  low medium high : BrewTemperature

abbrev brew_temperature_value : BrewTemperature → ℕ
brew_temperature_value BrewTemperature.low = 0
brew_temperature_value BrewTemperature.medium = 1
brew_temperature_value BrewTemperature.high = 2

abbrev brew_temperature_members : List BrewTemperature
brew_temperature_members = BrewTemperature.low ∷ BrewTemperature.medium ∷ BrewTemperature.high ∷ []

pub brew_temperature_found :
    (a : BrewTemperature)
    → find_member brew_temperature_value brew_temperature_members (brew_temperature_value a)
      ≡ some a
brew_temperature_found BrewTemperature.low = refl
brew_temperature_found BrewTemperature.medium = refl
brew_temperature_found BrewTemperature.high = refl

instance abbrev pub brew_temperature_enum : IntEnum BrewTemperature
brew_temperature_enum = record {
  value = brew_temperature_value;
  members = brew_temperature_members;
  found = brew_temperature_found;
}

-- Bean hopper.
pub data Blend : Type 0 where
  default hopper_1 hopper_2 : Blend

abbrev blend_value : Blend → ℕ
blend_value Blend.default = 0
blend_value Blend.hopper_1 = 1
blend_value Blend.hopper_2 = 2

abbrev blend_members : List Blend
blend_members = Blend.default ∷ Blend.hopper_1 ∷ Blend.hopper_2 ∷ []

pub blend_found : (a : Blend) → find_member blend_value blend_members (blend_value a) ≡ some a
blend_found Blend.default = refl
blend_found Blend.hopper_1 = refl
blend_found Blend.hopper_2 = refl

instance abbrev pub blend_enum : IntEnum Blend
blend_enum = record { value = blend_value; members = blend_members; found = blend_found }

abbrev pub intensity_slugs : Intensity → String
intensity_slugs Intensity.very_mild = "very_mild"
intensity_slugs Intensity.mild = "mild"
intensity_slugs Intensity.medium = "medium"
intensity_slugs Intensity.strong = "strong"
intensity_slugs Intensity.very_strong = "very_strong"

abbrev pub slug_to_intensity : String → Option Intensity
slug_to_intensity = find_text intensity_slugs intensity_members

-- No two slugs are the same.
pub slug_to_intensity-intensity_slugs :
    (a : Intensity) → slug_to_intensity (intensity_slugs a) ≡ some a
slug_to_intensity-intensity_slugs Intensity.very_mild = refl
slug_to_intensity-intensity_slugs Intensity.mild = refl
slug_to_intensity-intensity_slugs Intensity.medium = refl
slug_to_intensity-intensity_slugs Intensity.strong = refl
slug_to_intensity-intensity_slugs Intensity.very_strong = refl

abbrev pub temperature_slugs : BrewTemperature → String
temperature_slugs BrewTemperature.low = "low"
temperature_slugs BrewTemperature.medium = "medium"
temperature_slugs BrewTemperature.high = "high"

abbrev pub slug_to_temperature : String → Option BrewTemperature
slug_to_temperature = find_text temperature_slugs brew_temperature_members

-- No two slugs are the same.
pub slug_to_temperature-temperature_slugs :
    (a : BrewTemperature) → slug_to_temperature (temperature_slugs a) ≡ some a
slug_to_temperature-temperature_slugs BrewTemperature.low = refl
slug_to_temperature-temperature_slugs BrewTemperature.medium = refl
slug_to_temperature-temperature_slugs BrewTemperature.high = refl

abbrev pub blend_slugs : Blend → String
blend_slugs Blend.default = "recipe_default"
blend_slugs Blend.hopper_1 = "hopper_1"
blend_slugs Blend.hopper_2 = "hopper_2"

abbrev pub slug_to_blend : String → Option Blend
slug_to_blend = find_text blend_slugs blend_members

-- No two slugs are the same.
pub slug_to_blend-blend_slugs : (a : Blend) → slug_to_blend (blend_slugs a) ≡ some a
slug_to_blend-blend_slugs Blend.default = refl
slug_to_blend-blend_slugs Blend.hopper_1 = refl
slug_to_blend-blend_slugs Blend.hopper_2 = refl

abbrev pub portion_step_ml : ℕ
portion_step_ml = 5

abbrev pub portion_min_ml : ℕ
portion_min_ml = 5

abbrev pub portion_max_ml : ℕ
portion_max_ml = 255 * portion_step_ml
