-- ===== src/Tests/Barista.antt =====
-- Concrete runs of coordinator.py and of the register arithmetic in const.py.
use hass_melitta_barista_ts.Prelude.{
  ℕ, ◌≡◌, ◌≢◌, refl, true, false, [], ◌∷◌, some, none, arith, bytes_eq,
}
use hass_melitta_barista_ts.Prelude.Int.{pos}
use hass_melitta_barista_ts.Prelude.Dict.{Dict}
use hass_melitta_barista_ts.Const.Brewing.{Intensity, BrewTemperature}
use hass_melitta_barista_ts.Const.DirectKeys.{DirectKeyCategory}
use hass_melitta_barista_ts.Const.Recipes.{RecipeId}
use hass_melitta_barista_ts.Const.Settings.{MachineType}
use hass_melitta_barista_ts.Const.Status.{machine_process_enum}
use hass_melitta_barista_ts.Const.Slots.{
  directkey_recipe_id, profile_name_id, temp_recipe_id, freestyle_name_id, user_profile_count,
}
use hass_melitta_barista_ts.Const.Slots.Registers.{directkey_recipe_id_separate}
use hass_melitta_barista_ts.Protocol.Recipe.{RecipeComponent}
use hass_melitta_barista_ts.Protocol.Status.{MachineStatus}
use hass_melitta_barista_ts.Machine.Brew.{decimal}
use hass_melitta_barista_ts.Machine.Overrides.{apply_overrides}
use hass_melitta_barista_ts.Client.Text.{Text, text}
use hass_melitta_barista_ts.Client.Adapters.{many}
use hass_melitta_barista_ts.Client.State.{Client, no_advice}
use hass_melitta_barista_ts.Client.Connect.{World}
use hass_melitta_barista_ts.Coordinator.State.{default_brew_settings, seed_from, Coordinator}
use hass_melitta_barista_ts.Coordinator.Commands.{filled}
use hass_melitta_barista_ts.Coordinator.Commands.Staging.{nothing_given, seed_from_neutral}
use hass_melitta_barista_ts.Coordinator.Profiles.{
  sorted, profile_options, selected_profile_option, profile_for_option,
}
use hass_melitta_barista_ts.Coordinator.Profiles.Labels.{AreDistinct, names_of, profile_options_lem}
use hass_melitta_barista_ts.Coordinator.Polling.{Clock}

abbrev first_profile : ℕ
first_profile = 1

directkey_recipe_id_example :
    (directkey_recipe_id 1 DirectKeyCategory.milk ≡ directkey_recipe_id 2 DirectKeyCategory.espresso
      → (first_profile ≡ 2) × (DirectKeyCategory.milk ≡ DirectKeyCategory.espresso))
    × (profile_name_id 2 ≡ some 320 → directkey_recipe_id 1 DirectKeyCategory.milk ≢ 320)
    × (directkey_recipe_id 1 DirectKeyCategory.milk ≢ temp_recipe_id)
    × (directkey_recipe_id 1 DirectKeyCategory.milk ≢ freestyle_name_id)
directkey_recipe_id_example =
    directkey_recipe_id_separate (some MachineType.barista_t) 1 2 320 DirectKeyCategory.milk
      DirectKeyCategory.espresso (unfold user_profile_count in omega arith)

abbrev espresso : RecipeComponent
espresso = record {
  process = 1;
  shots = 1;
  blend = 0;
  intensity = 3;
  aroma = 0;
  temperature = 1;
  portion = 8;
  reserve = 0;
}

seed_from_neutral_example :
    apply_overrides espresso (filled nothing_given (seed_from espresso default_brew_settings))
    ≡ espresso
seed_from_neutral_example =
    seed_from_neutral espresso default_brew_settings Intensity.strong BrewTemperature.medium refl
      refl (omega arith) (omega arith) refl

abbrev pub family : Dict Text
family = (1, text "Anna") ∷ (0, text "My Coffee") ∷ (2, text "Ben") ∷ []

family-AreDistinct : AreDistinct (names_of (sorted family))
unfolding sorted
family-AreDistinct = (unfold bytes_eq in refl, (unfold bytes_eq in refl, (refl, tt)))

profile_options_example :
    (profile_options family ≡ names_of (sorted family))
    × ((profile : ℕ) (label : Text)
        → selected_profile_option profile family ≡ some label
        → profile_for_option label family ≡ some profile)
profile_options_example = profile_options_lem family family-AreDistinct

-- Names that look like numbered ones defeat the numbering: two options are the same, and the second
-- cannot be chosen.
abbrev namesakes : Dict Text
namesakes = (1, text "Anna") ∷ (2, text "Anna") ∷ (3, text "Anna (2)") ∷ []

namesakes_collide :
    (selected_profile_option 3 namesakes ≡ some (text "Anna (2)"))
    × (profile_for_option (text "Anna (2)") namesakes ≡ some 2)
unfolding selected_profile_option profile_for_option bytes_eq decimal
namesakes_collide = (refl, refl)

abbrev pub world : World
world = record {
  urandom = λ n. 1 ∷ 2 ∷ 3 ∷ 4 ∷ [];
  describe = λ e. [];
  name = text "Barista";
  connect_timeout = text "60";
}

abbrev pub unreachable : Client
unreachable = record {
  session = record {
    key_prefix = none;
    challenge = none;
    script = [];
    sent = [];
    writes = [];
    notified = [];
  };
  link = none;
  write_char = none;
  notify_chars = [];
  closing = false;
  last_good_source = none;
  rotation = 0;
  candidates = 0;
  refused_sources = [];
  advice = no_advice;
  provided = many [];
  openings = [];
  asked = [];
  drawn = 0;
}

abbrev pub grinding : MachineStatus
grinding = record {
  process = pos 4;
  sub_process = pos 1;
  info_messages = 0;
  manipulation = 0;
  progress = pos 10;
}

abbrev pub kitchen : Coordinator
kitchen = record {
  client = unreachable;
  content = record {
    status = some grinding;
    firmware = none;
    machine_type = none;
    total_cups = none;
    cup_counters = [];
    clock_minutes = none;
    care_counts = [];
    care_due = [];
    care_since = [];
    auto_off_after = none;
    water_hardness = none;
    profile_names = family;
  };
  brew_settings = default_brew_settings;
  selected_drink = RecipeId.espresso;
  selected_profile = 5;
  selected_profile_drink = DirectKeyCategory.espresso;
  settings_read_at = none;
  last_success_at = some 100;
  counters_due = true;
  first_refresh_done = true;
  last_update_success = true;
  refreshes = 0;
  updates = 0;
}

abbrev clock : Clock
clock = record { at_due = 150; at_settings = 151; at_success = 152 }
