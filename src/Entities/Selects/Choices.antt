-- ===== src/Entities/Selects/Choices.antt =====
-- What a choice is shown as, and what it leaves alone.
use hass_melitta_barista_ts.Prelude.{ℕ, suc, ◌≡◌, refl, ap, Bool, some}
use hass_melitta_barista_ts.Const.Brewing.{
  Intensity, intensity_slugs, slug_to_intensity-intensity_slugs, BrewTemperature, temperature_slugs,
  slug_to_temperature-temperature_slugs, Blend, blend_slugs, slug_to_blend-blend_slugs,
}
use hass_melitta_barista_ts.Const.Recipes.{RecipeId, recipe_slugs, slug_to_recipe-recipe_slugs}
use hass_melitta_barista_ts.Const.DirectKeys.{
  DirectKeyCategory, directkey_slugs, slug_to_directkey-directkey_slugs,
}
use hass_melitta_barista_ts.Client.Text.{Text}
use hass_melitta_barista_ts.Client.Connect.{World, done}
use hass_melitta_barista_ts.Coordinator.State.{Coordinator}
use hass_melitta_barista_ts.Coordinator.Commands.{
  async_select_drink, async_select_profile, async_select_profile_drink,
}
use hass_melitta_barista_ts.Coordinator.Commands.Selection.{Keeps, selection_lem}
use hass_melitta_barista_ts.Coordinator.Profiles.{sorted, selected_profile_option}
use hass_melitta_barista_ts.Coordinator.Profiles.Labels.{AreDistinct, names_of, profile_options_lem}
use hass_melitta_barista_ts.Entities.Selects.{
  current_drink, select_drink, current_intensity, select_intensity, current_temperature,
  select_temperature, current_hopper, select_hopper, is_on, turn, current_profile, select_profile,
  current_profile_drink, select_profile_drink,
}

-- A choice that is staged is what is shown afterwards, the other settings stay, and the entities are
-- told once. It never fails.
pub staged_choices :
    (i : Intensity) (t : BrewTemperature) (b : Blend) (two : Bool) (s : Coordinator)
    → let told : Coordinator → Coordinator = λ c. record c { updates = suc c.updates } in
      let settings = s.brew_settings in
      (select_intensity (intensity_slugs i) s
        ≡ (done tt, told (record s { brew_settings = record settings { intensity = i } })))
      × (current_intensity (select_intensity (intensity_slugs i) s).1 ≡ intensity_slugs i)
      × (select_temperature (temperature_slugs t) s
          ≡ (done tt, told (record s { brew_settings = record settings { temperature = t } })))
      × (current_temperature (select_temperature (temperature_slugs t) s).1 ≡ temperature_slugs t)
      × (select_hopper (blend_slugs b) s
          ≡ (done tt, told (record s { brew_settings = record settings { blend = b } })))
      × (current_hopper (select_hopper (blend_slugs b) s).1 ≡ blend_slugs b)
      × (turn two s
          ≡ (done tt, told (record s { brew_settings = record settings { two_cups = two } })))
      × (is_on (turn two s).1 ≡ two)
unfolding current_intensity select_intensity current_temperature select_temperature current_hopper
    select_hopper is_on turn
staged_choices i t b two s =
    rw
      (
        slug_to_intensity-intensity_slugs i,
        slug_to_temperature-temperature_slugs t,
        slug_to_blend-blend_slugs b,
      )
      (refl, refl, refl, refl, refl, refl, refl, refl)

-- A drink, a direct key or a profile that is chosen by what it is shown as is shown afterwards, also
-- when the machine does not answer or the call raises: the choice is made before the machine is asked
-- for the stored recipe. For a profile its name must be shown for it and no other profile, which holds
-- when the names differ.
pub machine_choices :
    (world : World) (recipe : RecipeId) (category : DirectKeyCategory) (profile : ℕ) (label : Text)
    (s : Coordinator)
    → (current_drink (select_drink world (recipe_slugs recipe) s).1 ≡ recipe_slugs recipe)
      × (current_profile_drink (select_profile_drink world (directkey_slugs category) s).1
          ≡ directkey_slugs category)
      × (AreDistinct (names_of (sorted s.content.profile_names))
          → selected_profile_option profile s.content.profile_names ≡ some label
          → (current_profile (select_profile world label s).1 ≡ some label)
            × ((select_profile world label s).1.selected_profile ≡ profile))
unfolding current_drink select_drink current_profile_drink select_profile_drink current_profile
    select_profile
machine_choices world recipe category profile label s = (
  rw (slug_to_recipe-recipe_slugs recipe) (ap recipe_slugs ((kept DirectKeyCategory.milk).0.drink)),
  rw (slug_to_directkey-directkey_slugs category)
      (ap directkey_slugs ((kept category).2.profile_drink)),
  λ distinct shown.
      let known = (profile_options_lem s.content.profile_names distinct).1 profile label shown in
      let k = (kept category).1 in rw known (rw (k.profile, k.content) shown, k.profile),
)
  where
    kept :
        (c : DirectKeyCategory)
        → Keeps (record s { selected_drink = recipe }) (async_select_drink world recipe s).1
          × Keeps (record s { selected_profile = profile }) (async_select_profile world profile s).1
          × Keeps (record s { selected_profile_drink = c }) (async_select_profile_drink world c s).1
    kept c = selection_lem world recipe profile c s
