-- ===== src/Services/Requests/Slugs.antt =====
-- What the slugs of a call become.
use Prim.Native.String.{String}
use mathlib.Core.Option
use text.Mathlib.Text.{◌==◌ as str_eq}
use hass_melitta_barista_ts.Prelude.{ℕ, ◌≡◌, ◌≢◌, true, Option, none, some}
use hass_melitta_barista_ts.Const.Brewing.{
  intensity_slugs, slug_to_intensity, temperature_slugs, slug_to_temperature, blend_slugs,
  slug_to_blend,
}
use hass_melitta_barista_ts.Const.Recipes.{RecipeId, recipe_slugs, slug_to_recipe}
use hass_melitta_barista_ts.Const.DirectKeys.{DirectKeyCategory, directkey_slugs}
use hass_melitta_barista_ts.Client.Connect.{World}
use hass_melitta_barista_ts.Coordinator.Commands.{BrewRequest, async_brew, async_brew_profile}
use hass_melitta_barista_ts.Services.Store.{Store}
use hass_melitta_barista_ts.Services.Requests.{BrewCall, is_some, optional, brew_one}

-- The value that a slug stands for, if the call has one.
abbrev pub StandsFor : {A : Type 0} → (A → String) → Option String → Option A → Type 0
StandsFor slugs given a = Option.map slugs a ≡ given

-- The overrides that a call asks for: each slug's member, and the numbers as they are.
pub record Asks (call : BrewCall) (r : BrewRequest) : Type 0 where
  pub two_cups : r.two_cups ≡ call.two_cups
  pub intensity : StandsFor intensity_slugs call.intensity r.intensity
  pub temperature : StandsFor temperature_slugs call.temperature r.temperature
  pub portion_ml : r.portion_ml ≡ call.portion_ml
  pub blend : StandsFor blend_slugs call.bean_hopper r.blend

-- The brew that one machine is asked for.
abbrev pub Brews : World → BrewCall → BrewRequest → Type 0
Brews world call r =
    (call.profile ≡ none
      → (recipe : Option RecipeId) × StandsFor recipe_slugs call.drink recipe
        × (brew_one world call r ≡ async_brew world recipe r))
    × ((profile : ℕ)
        → call.profile ≡ some profile
        → (key : Option DirectKeyCategory) × StandsFor directkey_slugs call.drink key
          × (brew_one world call r ≡ async_brew_profile world (some profile) key r))

-- A drink from a profile that is under none of its keys.
abbrev pub IsElsewhere : BrewCall → Type 0
IsElsewhere call =
    (profile : ℕ) × (drink : String) × (call.profile ≡ some profile)
    × (call.drink ≡ some drink)
    × ((key : DirectKeyCategory) → directkey_slugs key ≢ drink)

-- What the schema says of each field.
record Accepted (call : BrewCall) : Type 0 where
  drink : optional (λ d. is_some (slug_to_recipe d)) call.drink ≡ true
  intensity : optional (λ d. is_some (slug_to_intensity d)) call.intensity ≡ true
  temperature : optional (λ d. is_some (slug_to_temperature d)) call.temperature ≡ true
  hopper : optional (λ d. is_some (slug_to_blend d)) call.bean_hopper ≡ true
