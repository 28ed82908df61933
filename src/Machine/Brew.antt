-- ===== src/Machine/Brew.antt =====
-- machine.py, `brew` and `_display_name`.
pub mod Sequence
use Prim.Native.Char.{code}
use Prim.Native.String.{String}
use hass_melitta_barista_ts.Prelude.{
  ℕ, zero, suc, ◌+◌, ◌/◌, ◌%◌, Bool, ltb, if◌then◌else◌, List, [], ◌∷◌, Option, none, some,
}
use hass_melitta_barista_ts.Prelude.Int.{ℤ, pos}
use hass_melitta_barista_ts.Const.Enum.{enum_of}
use hass_melitta_barista_ts.Const.Recipes.{RecipeId, recipe_id_enum, recipe_display_names}
use hass_melitta_barista_ts.Const.Slots.{temp_recipe_id, freestyle_name_id, process_product}
use hass_melitta_barista_ts.Protocol.Recipe.{MachineRecipe}
use hass_melitta_barista_ts.Machine.Session.{M, ◌>>=◌, ◌>>◌, sleep}
use hass_melitta_barista_ts.Machine.Reads.{read_recipe}
use hass_melitta_barista_ts.Machine.Writes.{write_recipe, write_alphanumeric, start_process}
use hass_melitta_barista_ts.Machine.Overrides.{Overrides, apply_overrides, recipe_key_for_type}

-- The bytes of an ASCII text.
abbrev pub ascii : String → List ℕ
ascii String.[] = []
ascii (String.◌∷◌ c s) = code c ∷ ascii s

-- `str(n)`: the digits, lowest first; each round takes one off, so `n` rounds and one are enough.
pub decimal_loop : ℕ → ℕ → List ℕ → List ℕ
decimal_loop zero n digits = digits
decimal_loop (suc fuel) n digits =
    let more = decimal_loop fuel (n / 10) ((b'0' + n % 10) ∷ digits) in
    if ltb n 10 then (b'0' + n) ∷ digits else more

unfoldable pub decimal : ℕ → List ℕ
unfolding decimal_loop
decimal n = decimal_loop (suc n) n []

pub display_name : ℕ → List ℕ
unfolding decimal
display_name recipe_id = elim (enum_of ⦃e = recipe_id_enum⦄ recipe_id) [
  | some r ↦ ascii (recipe_display_names r)
  | none ↦ decimal recipe_id
]

-- `name if name else _display_name(recipe_id)`
pub name_or_default : Option (List ℕ) → ℕ → List ℕ
unfolding display_name
name_or_default none recipe_id = display_name recipe_id
name_or_default (some []) recipe_id = display_name recipe_id
name_or_default (some (c ∷ cs)) recipe_id = c ∷ cs

-- What component 2 takes: only the hopper.
abbrev pub hopper_only : Overrides → Overrides
hopper_only o = record { intensity = none; temperature = none; portion_ml = none; blend = o.blend }

-- `brew` from the recipe that was read on.
pub brew_recipe : ℕ → Option (List ℕ) → Bool → Overrides → MachineRecipe → M (Unit {0})
brew_recipe recipe_id name two_cups overrides recipe = do
  write_recipe (pos temp_recipe_id) recipe.recipe_type (apply_overrides recipe.component1 overrides)
      (apply_overrides recipe.component2 (hopper_only overrides))
      (some (recipe_key_for_type recipe.recipe_type))
  sleep
  write_alphanumeric (pos freestyle_name_id) (name_or_default name recipe_id)
  sleep
  start_process (pos process_product) two_cups

unfoldable pub brew : ℕ → Option (List ℕ) → Bool → Overrides → M (Unit {0})
unfolding brew_recipe
brew recipe_id name two_cups overrides =
    read_recipe (pos recipe_id) >>= brew_recipe recipe_id name two_cups overrides
