-- ===== src/Entities/Selects.antt =====
-- select.py and switch.py: the staged choices. Options that are slugs are as in const.py.
pub mod Choices
use Prim.Native.String.{String}
use hass_melitta_barista_ts.Prelude.{
  ℕ, suc, Bool, true, false, not, List, [], ◌∷◌, ◌++◌, Option, none, some, map,
}
use hass_melitta_barista_ts.Errors.{home_assistant_error, key_error}
use hass_melitta_barista_ts.Prelude.Dict.{Dict}
use hass_melitta_barista_ts.Const.Brewing.{
  Intensity, intensity_enum, intensity_slugs, slug_to_intensity, BrewTemperature,
  brew_temperature_enum, temperature_slugs, slug_to_temperature, Blend, blend_enum, blend_slugs,
  slug_to_blend,
}
use hass_melitta_barista_ts.Const.Recipes.{RecipeId, recipe_slugs, slug_to_recipe}
use hass_melitta_barista_ts.Const.DirectKeys.{
  DirectKeyCategory, direct_key_category_enum, directkey_slugs, slug_to_directkey,
}
use hass_melitta_barista_ts.Client.Text.{Text, text}
use hass_melitta_barista_ts.Client.State.{Failure}
use hass_melitta_barista_ts.Client.Connect.{World}
use hass_melitta_barista_ts.Coordinator.State.{
  BrewSettings, Coordinator, C, raise, ◌>>=◌, ◌>>◌, modify, update_listeners,
}
use hass_melitta_barista_ts.Coordinator.Commands.{
  async_select_drink, async_select_profile, async_select_profile_drink,
}
use hass_melitta_barista_ts.Coordinator.Profiles.{
  available_drinks, profile_options, selected_profile_option, profile_for_option,
}
use hass_melitta_barista_ts.Coordinator.Reported.{reported}

-- `TABLE[option]`, where an option that is none of the table's raises KeyError.
abbrev chosen : {A : Type 0} → Option A → (A → C (Unit {0})) → C (Unit {0})
chosen none next = raise (record { exception = key_error; message = [] })
chosen (some a) next = next a

-- `self.coordinator.brew_settings.<field> = ...` and `async_update_listeners()`
abbrev stage : (BrewSettings → BrewSettings) → C (Unit {0})
stage f = modify (λ s. record s { brew_settings = f s.brew_settings }) >> update_listeners

abbrev pub prefix : Text → Text
prefix option = text "Could not select " ++ option ++ text ": "

pub drink_options : Coordinator → List String
drink_options s = map recipe_slugs (available_drinks s.content.machine_type)

unfoldable pub current_drink : Coordinator → String
current_drink s = recipe_slugs s.selected_drink

unfoldable pub current_intensity : Coordinator → String
current_intensity s = intensity_slugs s.brew_settings.intensity

unfoldable pub select_intensity : String → C (Unit {0})
select_intensity option =
    chosen (slug_to_intensity option) (λ a. stage (λ b. record b { intensity = a }))

unfoldable pub current_temperature : Coordinator → String
current_temperature s = temperature_slugs s.brew_settings.temperature

unfoldable pub select_temperature : String → C (Unit {0})
select_temperature option =
    chosen (slug_to_temperature option) (λ a. stage (λ b. record b { temperature = a }))

unfoldable pub current_hopper : Coordinator → String
current_hopper s = blend_slugs s.brew_settings.blend

unfoldable pub select_hopper : String → C (Unit {0})
select_hopper option = chosen (slug_to_blend option) (λ a. stage (λ b. record b { blend = a }))

unfoldable pub is_on : Coordinator → Bool
is_on s = s.brew_settings.two_cups

-- `_set`, for `async_turn_on` and `async_turn_off`.
unfoldable pub turn : Bool → C (Unit {0})
turn value = stage (λ b. record b { two_cups = value })

abbrev has_names : Dict Text → Bool
has_names [] = false
has_names (e ∷ rest) = true

-- `MelittaProfileSelect.available`
unfoldable pub profile_available : Coordinator → Bool
profile_available s = has_names s.content.profile_names

unfoldable pub current_profile : Coordinator → Option Text
current_profile s = selected_profile_option s.selected_profile s.content.profile_names

unfoldable pub current_profile_drink : Coordinator → String
current_profile_drink s = directkey_slugs s.selected_profile_drink

module _ (world : World) where
  unfoldable pub select_drink : String → C (Unit {0})
  select_drink option =
      reported (prefix (text option))
        (chosen (slug_to_recipe option) (λ recipe. async_select_drink world recipe))

  abbrev select_found : Text → Option ℕ → C (Unit {0})
  select_found option none =
      raise
        (record { exception = home_assistant_error; message = text "Unknown profile " ++ option })
  select_found option (some profile) = reported (prefix option) (async_select_profile world profile)

  unfoldable pub select_profile : Text → C (Unit {0})
  select_profile option s =
      select_found option (profile_for_option option s.content.profile_names) s

  unfoldable pub select_profile_drink : String → C (Unit {0})
  select_profile_drink option =
      reported (prefix (text option))
        (chosen (slug_to_directkey option) (λ category. async_select_profile_drink world category))
