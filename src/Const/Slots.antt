-- ===== src/Const/Slots.antt =====
-- const.py: recipe types and keys, the scratch slots, and where a profile keeps its drinks and name.
pub mod Registers
use hass_melitta_barista_ts.Prelude.{
  ℕ, ◌+◌, ◌-◌, ◌*◌, ltb, if◌then◌else◌, List, [], ◌∷◌, Option, none, some,
}
use hass_melitta_barista_ts.Const.Enum.{int}
use hass_melitta_barista_ts.Const.Recipes.{RecipeId}
use hass_melitta_barista_ts.Const.DirectKeys.{DirectKeyCategory, direct_key_category_enum}
use hass_melitta_barista_ts.Const.Settings.{MachineType}

-- Recipes only present on the dual-hopper machine.
abbrev pub ts_only_recipes : List RecipeId
ts_only_recipes = RecipeId.red_eye ∷ RecipeId.black_eye ∷ RecipeId.dead_eye ∷ []

abbrev pub recipe_key_menu : ℕ
recipe_key_menu = 7

abbrev pub temp_recipe_id : ℕ
temp_recipe_id = 400

abbrev pub freestyle_name_id : ℕ
freestyle_name_id = 401

abbrev pub process_product : ℕ
process_product = 4

abbrev pub directkey_base_id : ℕ
directkey_base_id = 302

abbrev pub profile_stride : ℕ
profile_stride = 10

abbrev pub profile_name_base_id : ℕ
profile_name_base_id = 310

abbrev pub my_coffee_profile : ℕ
my_coffee_profile = 0

pub directkey_recipe_id : ℕ → DirectKeyCategory → ℕ
directkey_recipe_id profile category = directkey_base_id + profile * profile_stride + int category

-- `none` is the ValueError: the profile below 1 has no name register.
pub profile_name_id : ℕ → Option ℕ
profile_name_id profile =
    if ltb profile 1 then none else some (profile_name_base_id + (profile - 1) * profile_stride)

abbrev pub max_user_profiles : ℕ
max_user_profiles = 8

-- `USER_PROFILE_COUNTS`
abbrev pub user_profile_counts : MachineType → ℕ
user_profile_counts MachineType.barista_t = 4
user_profile_counts MachineType.barista_ts = 8

unfoldable pub user_profile_count : Option MachineType → ℕ
user_profile_count none = max_user_profiles
user_profile_count (some t) = user_profile_counts t
