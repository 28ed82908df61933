-- ===== src/Services/Requests.antt =====
-- services.py, a call of the brew service: its schema, and what it asks each machine for.
pub mod Slugs
use Prim.Native.String.{String}
use hass_melitta_barista_ts.Prelude.{
  ℕ, Bool, true, false, ◌&&◌, not, leb, if◌then◌else◌, [], Option, none, some,
}
use hass_melitta_barista_ts.Prelude.Int.{ℤ, pos, ltb_ℤ}
use hass_melitta_barista_ts.Errors.{Result, ok, err, ◌>>=◌, key_error}
use hass_melitta_barista_ts.Const.Brewing.{
  slug_to_intensity, slug_to_temperature, slug_to_blend, portion_min_ml, portion_max_ml,
}
use hass_melitta_barista_ts.Const.Slots.{max_user_profiles}
use hass_melitta_barista_ts.Const.Recipes.{slug_to_recipe}
use hass_melitta_barista_ts.Const.DirectKeys.{slug_to_directkey}
use hass_melitta_barista_ts.Client.Connect.{World}
use hass_melitta_barista_ts.Coordinator.State
use hass_melitta_barista_ts.Coordinator.State.{C}
use hass_melitta_barista_ts.Coordinator.Commands.{BrewRequest, async_brew, async_brew_profile}
use hass_melitta_barista_ts.Services.Targets.{Target}

pub record BrewCall : Type 0 where
  pub target : Target
  pub drink : Option String
  pub two_cups : Option Bool
  pub intensity : Option String
  pub temperature : Option String
  pub portion_ml : Option ℤ
  pub bean_hopper : Option String
  pub profile : Option ℕ

abbrev pub is_some : {A : Type 0} → Option A → Bool
is_some none = false
is_some (some a) = true

-- `vol.Optional(key): check`
abbrev pub optional : {A : Type 0} → (A → Bool) → Option A → Bool
optional check none = true
optional check (some a) = check a

-- `vol.Range(min=low, max=high)`
abbrev pub in_range : ℕ → ℕ → ℤ → Bool
in_range low high n = not (ltb_ℤ n (pos low)) && not (ltb_ℤ (pos high) n)

-- `BREW_SCHEMA`, on a call whose numbers were read; the target may be anything. A profile below 0 does
-- not get past it.
unfoldable pub brew_schema : BrewCall → Bool
brew_schema call =
    optional (λ d. is_some (slug_to_recipe d)) call.drink
    && optional (λ d. is_some (slug_to_intensity d)) call.intensity
    && optional (λ d. is_some (slug_to_temperature d)) call.temperature
    && optional (in_range portion_min_ml portion_max_ml) call.portion_ml
    && optional (λ d. is_some (slug_to_blend d)) call.bean_hopper
    && optional (λ n. leb n max_user_profiles) call.profile

abbrev pub found_or_raise : {A : Type 0} → Option A → Result (Option A)
found_or_raise none = err key_error
found_or_raise (some a) = ok (some a)

abbrev is_empty_slug : String → Bool
is_empty_slug String.[] = true
is_empty_slug (String.◌∷◌ c s) = false

-- `TABLE[slug] if slug else None`
abbrev pub by_slug : {A : Type 0} → (String → Option A) → Option String → Result (Option A)
by_slug table none = ok none
by_slug table (some slug) = if is_empty_slug slug then ok none else found_or_raise (table slug)

-- The `overrides` of a brew.
unfoldable pub overrides_of : BrewCall → Result BrewRequest
overrides_of call = do
  intensity ← by_slug slug_to_intensity call.intensity
  temperature ← by_slug slug_to_temperature call.temperature
  blend ← by_slug slug_to_blend call.bean_hopper
  ok (record {
    two_cups = call.two_cups;
    intensity = intensity;
    temperature = temperature;
    portion_ml = call.portion_ml;
    blend = blend;
  })

abbrev is_no_key : Option String → Bool
is_no_key none = false
is_no_key (some drink) = not (is_some (slug_to_directkey drink))

-- A drink that no profile stores, asked for from a profile.
abbrev pub is_not_stored : Option ℕ → Option String → Bool
is_not_stored none drink = false
is_not_stored (some profile) drink = is_no_key drink

-- A look-up inside the loop's `try`.
abbrev looked_up : {A : Type 0} → Result (Option A) → C (Option A)
looked_up (ok a) = State.pure a
looked_up (err e) = State.raise (record { exception = e; message = [] })

abbrev and_brew : {A : Type 0} → Result (Option A) → (Option A → C (Unit {0})) → C (Unit {0})
and_brew found brewed = State.◌>>=◌ (looked_up found) brewed

module _ (world : World) where
  abbrev pub brew_one : BrewCall → BrewRequest → C (Unit {0})
  brew_one call r = elim call.profile [
    | none ↦ and_brew (by_slug slug_to_recipe call.drink) (λ recipe. async_brew world recipe r)
    | some profile ↦
        and_brew (by_slug slug_to_directkey call.drink)
          (λ key. async_brew_profile world (some profile) key r)
  ]
