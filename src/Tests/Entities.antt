-- ===== src/Tests/Entities.antt =====
-- Concrete runs of the entities.
use hass_melitta_barista_ts.Prelude.{ℕ, ◌+◌, ◌*◌, ◌≤◌, ◌≡◌, refl, some, arith}
use hass_melitta_barista_ts.Prelude.Int.{pos}
use hass_melitta_barista_ts.Const.DirectKeys.{DirectKeyCategory, directkey_slugs}
use hass_melitta_barista_ts.Const.Recipes.{RecipeId, recipe_id_enum, recipe_slugs}
use hass_melitta_barista_ts.Const.Status.{
  machine_process_enum, sub_process_enum, manipulation_enum as manipulation_class,
}
use hass_melitta_barista_ts.Protocol.Recipe.{RecipeComponent}
use hass_melitta_barista_ts.Protocol.Status.{process_enum, sub_process_enum_of, manipulation_enum}
use hass_melitta_barista_ts.Machine.Overrides.{apply_overrides}
use hass_melitta_barista_ts.Client.Text.{text}
use hass_melitta_barista_ts.Coordinator.Commands.{filled}
use hass_melitta_barista_ts.Coordinator.Commands.Staging.{nothing_given}
use hass_melitta_barista_ts.Coordinator.Profiles.{sorted, selected_profile_option}
use hass_melitta_barista_ts.Coordinator.Profiles.Labels.{AreDistinct, names_of}
use hass_melitta_barista_ts.Entities.Selects.{
  current_drink, select_drink, current_profile, select_profile, current_profile_drink,
  select_profile_drink,
}
use hass_melitta_barista_ts.Entities.Selects.Choices.{machine_choices}
use hass_melitta_barista_ts.Entities.Numbers.{set_portion, portion_value}
use hass_melitta_barista_ts.Entities.Numbers.Portions.{set_portion_lem}
use hass_melitta_barista_ts.Entities.Sensors.{
  process_slugs, sub_process_slugs, manipulation_slugs, process, sub_process, attention,
}
use hass_melitta_barista_ts.Entities.Sensors.Values.{Shows, sensors_lem}
use hass_melitta_barista_ts.Tests.Barista.{kitchen, grinding, world}

machine_choices_example :
    (current_drink (select_drink world (recipe_slugs RecipeId.lungo) kitchen).1
      ≡ recipe_slugs RecipeId.lungo)
    × (current_profile_drink
          (select_profile_drink world (directkey_slugs DirectKeyCategory.milk) kitchen).1
        ≡ directkey_slugs DirectKeyCategory.milk)
    × (AreDistinct (names_of (sorted kitchen.content.profile_names))
        → selected_profile_option 2 kitchen.content.profile_names ≡ some (text "Ben")
        → (current_profile (select_profile world (text "Ben") kitchen).1 ≡ some (text "Ben"))
          × ((select_profile world (text "Ben") kitchen).1.selected_profile ≡ 2))
machine_choices_example =
    machine_choices world RecipeId.lungo DirectKeyCategory.milk 2 (text "Ben") kitchen

abbrev component : RecipeComponent
component = record {
  process = 1;
  shots = 1;
  blend = 0;
  intensity = 3;
  aroma = 0;
  temperature = 1;
  portion = 8;
  reserve = 0;
}

-- 82.5 ml.
set_portion_example :
    let t = (set_portion 165 2 kitchen).1 in
    (steps : ℕ) × (portion_value t ≡ pos (steps * 5))
    × (2 * (steps * (2 * 5)) ≤ 2 * 165 + 2 * 5)
    × (2 * 165 ≤ 2 * (steps * (2 * 5)) + 2 * 5)
    × (5 * 2 ≤ 165
        → 165 ≤ 400 * 2
        → (1 ≤ steps)
          × (steps ≤ 80)
          × ((apply_overrides component (filled nothing_given t.brew_settings)).portion ≡ steps))
set_portion_example = set_portion_lem 165 2 component kitchen (omega arith)

sensors_example :
    Shows machine_process_enum process_slugs (process kitchen.content) (process_enum grinding)
    × Shows sub_process_enum sub_process_slugs
        (sub_process kitchen.content)
        (sub_process_enum_of grinding)
    × Shows manipulation_class manipulation_slugs
        (attention kitchen.content)
        (manipulation_enum grinding)
sensors_example = sensors_lem kitchen.content grinding refl
