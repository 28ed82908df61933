-- ===== src/Coordinator/Commands/Staging.antt =====
-- The staged brew settings against the stored recipe.
use hass_melitta_barista_ts.Prelude.{ℕ, ◌≤◌, ◌<◌, ◌≡◌, refl, ap, ◌∙◌, Option, none, some, arith}
use hass_melitta_barista_ts.Prelude.Int.{pos}
use hass_melitta_barista_ts.Const.Enum.{int, enum_of, enum_of-int}
use hass_melitta_barista_ts.Const.Brewing.{
  Intensity, intensity_enum, BrewTemperature, brew_temperature_enum, Blend, blend_enum,
}
use hass_melitta_barista_ts.Protocol.Recipe.{RecipeComponent, portion_ml}
use hass_melitta_barista_ts.Machine.Overrides.{apply_overrides, portion_of_ml}
use hass_melitta_barista_ts.Machine.Overrides.Portion.{AreBytes}
use hass_melitta_barista_ts.Coordinator.State.{BrewSettings, seed_from, or_else}
use hass_melitta_barista_ts.Coordinator.Commands.{BrewRequest, filled, given_or, none_if_zero}

abbrev pub nothing_given : BrewRequest
nothing_given = record {
  two_cups = none;
  intensity = none;
  temperature = none;
  portion_ml = none;
  blend = none;
}

intensity-byte : (i : Intensity) → int i < 256
intensity-byte Intensity.very_mild = omega arith
intensity-byte Intensity.mild = omega arith
intensity-byte Intensity.medium = omega arith
intensity-byte Intensity.strong = omega arith
intensity-byte Intensity.very_strong = omega arith

temperature-byte : (t : BrewTemperature) → int t < 256
temperature-byte BrewTemperature.low = omega arith
temperature-byte BrewTemperature.medium = omega arith
temperature-byte BrewTemperature.high = omega arith

blend-byte : (b : Blend) (v : ℕ) → none_if_zero (int b) ≡ some v → v < 256
blend-byte Blend.default v e = ground arith
blend-byte Blend.hopper_1 v e = ground arith
blend-byte Blend.hopper_2 v e = ground arith

-- What a brew passes on are bytes, whatever was given and staged.
pub filled-AreBytes : (r : BrewRequest) (s : BrewSettings) → AreBytes (filled r s)
unfolding filled
filled-AreBytes r s = record {
  intensity = λ v e. ground (arith, intensity-byte (given_or r.intensity s.intensity));
  temperature = λ v e. ground (arith, temperature-byte (given_or r.temperature s.temperature));
  blend = λ v e. blend-byte (given_or r.blend s.blend) v e;
}

portion_of_ml-portion_ml :
    (c : RecipeComponent)
    → 1 ≤ c.portion
    → c.portion ≤ 255
    → portion_of_ml (pos (portion_ml c)) ≡ c.portion
unfolding portion_of_ml portion_ml
portion_of_ml-portion_ml c lo hi = omega arith

-- Brewing a drink as it was selected changes nothing: over the settings seeded from a component
-- whose strength and temperature are known ones and whose portion byte is from 1 to 255, with the
-- default hopper and nothing given, the overrides leave that component as it is.
pub seed_from_neutral :
    (c : RecipeComponent) (s : BrewSettings) (i : Intensity) (t : BrewTemperature)
    → c.intensity ≡ int i
    → c.temperature ≡ int t
    → 1 ≤ c.portion
    → c.portion ≤ 255
    → s.blend ≡ Blend.default
    → apply_overrides c (filled nothing_given (seed_from c s)) ≡ c
unfolding filled seed_from apply_overrides
seed_from_neutral c s i t hi ht lo hi' hb =
    let ei : or_else (enum_of ⦃e = intensity_enum⦄ c.intensity) s.intensity ≡ i =
      ap (λ (n : ℕ). or_else (enum_of ⦃e = intensity_enum⦄ n) s.intensity) hi
      ∙ ap (λ (o : Option Intensity). or_else o s.intensity) (enum_of-int i) in
    let et : or_else (enum_of ⦃e = brew_temperature_enum⦄ c.temperature) s.temperature ≡ t =
      ap (λ (n : ℕ). or_else (enum_of ⦃e = brew_temperature_enum⦄ n) s.temperature) ht
      ∙ ap (λ (o : Option BrewTemperature). or_else o s.temperature) (enum_of-int t) in
    rw (ei, et, hb, portion_of_ml-portion_ml c lo hi', ← hi, ← ht) refl
