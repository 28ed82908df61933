-- ===== src/Machine/Overrides.antt =====
-- machine.py, `_apply_overrides` and `recipe_key_for_type`.
pub mod Portion
use hass_melitta_barista_ts.Prelude.{
  ℕ, suc, ◌+◌, ◌/◌, ◌*◌, min, max, ◌==◌, if◌then◌else◌, Option, none, some,
}
use hass_melitta_barista_ts.Prelude.Int.{ℤ, pos, negsuc}
use hass_melitta_barista_ts.Prelude.Dict.{lookup}
use hass_melitta_barista_ts.Const.Recipes.{recipe_type_to_key}
use hass_melitta_barista_ts.Const.Slots.{recipe_key_menu}
use hass_melitta_barista_ts.Protocol.Recipe.{RecipeComponent}

-- `RECIPE_TYPE_TO_KEY.get(recipe_type, RECIPE_KEY_MENU)`
pub recipe_key_for_type : ℕ → ℕ
recipe_key_for_type recipe_type = elim (lookup recipe_type recipe_type_to_key) [
  | none ↦ recipe_key_menu
  | some key ↦ key
]

-- `max(1, min(255, round(portion_ml / PORTION_STEP_ML)))`. A fifth is never half way between two whole
-- numbers, so `round` goes to the nearest; what is negative rounds to at most 0 and becomes 1.
unfoldable pub portion_of_ml : ℤ → ℕ
portion_of_ml (pos ml) = max 1 (min 255 ((ml + 2) / 5))
portion_of_ml (negsuc n) = 1

pub record Overrides : Type 0 where
  pub intensity : Option ℕ
  pub temperature : Option ℕ
  pub portion_ml : Option ℤ
  pub blend : Option ℕ

abbrev or_keep : Option ℕ → ℕ → ℕ
or_keep none old = old
or_keep (some new) old = new

-- `if blend:`, so that 0 keeps the old hopper like None does.
abbrev blend_or_keep : Option ℕ → ℕ → ℕ
blend_or_keep none old = old
blend_or_keep (some new) old = if new == 0 then old else new

abbrev portion_or_keep : Option ℤ → ℕ → ℕ
portion_or_keep none old = old
portion_or_keep (some ml) old = portion_of_ml ml

unfoldable pub apply_overrides : RecipeComponent → Overrides → RecipeComponent
unfolding portion_of_ml
apply_overrides c o = record c {
  intensity = or_keep o.intensity c.intensity;
  temperature = or_keep o.temperature c.temperature;
  portion = portion_or_keep o.portion_ml c.portion;
  blend = blend_or_keep o.blend c.blend;
}
