-- ===== src/Coordinator/Profiles.antt =====
-- coordinator.py: the drinks on offer and the profile picker.
pub mod Labels
use hass_melitta_barista_ts.Prelude.{
  ℕ, suc, ◌+◌, Bool, true, false, not, ◌||◌, ltb, ◌==◌, if◌then◌else◌, bytes_eq, List, [], ◌∷◌,
  ◌++◌, Option, none, some, map,
}
use hass_melitta_barista_ts.Prelude.Dict.{Dict, lookup}
use hass_melitta_barista_ts.Const.Enum.{IntEnum, int}
use hass_melitta_barista_ts.Const.Recipes.{RecipeId, recipe_id_enum}
use hass_melitta_barista_ts.Const.Slots.{ts_only_recipes}
use hass_melitta_barista_ts.Const.Settings.{MachineType}
use hass_melitta_barista_ts.Client.Text.{Text, text}
use hass_melitta_barista_ts.Machine.Brew.{decimal}
use hass_melitta_barista_ts.Coordinator.State.{MelittaData}

abbrev is_ts_only : RecipeId → List RecipeId → Bool
is_ts_only r [] = false
is_ts_only r (x ∷ xs) =
    (int ⦃e = recipe_id_enum⦄ x == int ⦃e = recipe_id_enum⦄ r) || is_ts_only r xs

pub without_ts_only : List RecipeId → List RecipeId
without_ts_only [] = []
without_ts_only (r ∷ rs) =
    if is_ts_only r ts_only_recipes then without_ts_only rs else r ∷ without_ts_only rs

unfoldable pub available_drinks : Option MachineType → List RecipeId
unfolding without_ts_only
available_drinks none = recipe_id_enum.members
available_drinks (some MachineType.barista_t) = without_ts_only recipe_id_enum.members
available_drinks (some MachineType.barista_ts) = recipe_id_enum.members

-- `sorted(profile_names.items())`: by profile, as the keys of a dict differ.
pub put_in_order : ℕ × Text → Dict Text → Dict Text
put_in_order e [] = e ∷ []
put_in_order e (d ∷ rest) = if ltb d.0 e.0 then d ∷ put_in_order e rest else e ∷ d ∷ rest

unfoldable pub sorted : Dict Text → Dict Text
unfolding put_in_order
sorted [] = []
sorted (e ∷ rest) = put_in_order e (sorted rest)

-- `name in seen`
abbrev pub is_seen : Text → List Text → Bool
is_seen name [] = false
is_seen name (s ∷ seen) = bytes_eq s name || is_seen name seen

abbrev pub numbered : Text → ℕ → Text
numbered name profile = name ++ text " (" ++ decimal profile ++ text ")"

-- The loop of `profile_options` over the sorted items, with the names seen so far.
unfoldable pub label_loop : List Text → Dict Text → List Text
label_loop seen [] = []
label_loop seen ((profile, name) ∷ rest) =
    (if is_seen name seen then numbered name profile else name) ∷ label_loop (name ∷ seen) rest

unfoldable pub profile_options : Dict Text → List Text
unfolding label_loop sorted
profile_options names = label_loop [] (sorted names)

-- `zip(..., strict=True)`: the two lists have the same length.
unfoldable pub find_label : Text → Dict Text → List Text → Option ℕ
find_label option [] labels = none
find_label option (e ∷ rest) [] = none
find_label option ((profile, name) ∷ rest) (label ∷ labels) =
    let later = find_label option rest labels in
    if bytes_eq label option then some profile else later

unfoldable pub profile_for_option : Text → Dict Text → Option ℕ
unfolding find_label profile_options
profile_for_option option names = find_label option (sorted names) (profile_options names)

unfoldable pub label_of : ℕ → Dict Text → List Text → Option Text
label_of profile [] labels = none
label_of profile (e ∷ rest) [] = none
label_of profile ((p, name) ∷ rest) (label ∷ labels) =
    let later = label_of profile rest labels in if p == profile then some label else later

unfoldable pub selected_profile_option : ℕ → Dict Text → Option Text
unfolding label_of profile_options
selected_profile_option profile names = label_of profile (sorted names) (profile_options names)

abbrev or_text : Option Text → Text → Text
or_text none t = t
or_text (some s) t = s

pub selected_profile_name : ℕ → Dict Text → Text
selected_profile_name profile names =
    or_text (lookup profile names) (text "Profile " ++ decimal profile)
