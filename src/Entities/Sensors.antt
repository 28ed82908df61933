-- ===== src/Entities/Sensors.antt =====
-- sensor.py: the tables of slugs, and the values. `none` is unknown.
pub mod Values
pub mod Counters
use Prim.Native.String.{String}
use hass_melitta_barista_ts.Prelude.{
  ℕ, ◌+◌, ◌-◌, ◌*◌, ◌/◌, ◌%◌, ◌<◌, ltb, Bool, if◌then◌else◌, List, [], ◌∷◌, ◌++◌, Option, none,
  some, map,
}
use hass_melitta_barista_ts.Prelude.Int.{ℤ, pos, negsuc}
use hass_melitta_barista_ts.Prelude.Dict.{lookup}
use hass_melitta_barista_ts.Const.Enum.{int}
use hass_melitta_barista_ts.Const.Status.{
  MachineProcess, machine_process_enum, SubProcess, sub_process_enum, Manipulation,
  manipulation_enum as manipulation_class,
}
use hass_melitta_barista_ts.Const.Recipes.{RecipeId, recipe_id_enum}
use hass_melitta_barista_ts.Const.Settings.{CareProgramme, care_programme_enum}
use hass_melitta_barista_ts.Client.Text.{Text, text}
use hass_melitta_barista_ts.Protocol.Status.{
  MachineStatus, process_enum, sub_process_enum_of, manipulation_enum,
}
use hass_melitta_barista_ts.Coordinator.State.{MelittaData}
use hass_melitta_barista_ts.Entities.Binary.{of_status}

abbrev pub unknown : String
unknown = "unknown_state"

abbrev pub process_slugs : MachineProcess → String
process_slugs MachineProcess.ready = "ready"
process_slugs MachineProcess.product = "brewing"
process_slugs MachineProcess.cleaning = "cleaning"
process_slugs MachineProcess.descaling = "descaling"
process_slugs MachineProcess.filter_insert = "filter_insert"
process_slugs MachineProcess.filter_replace = "filter_replace"
process_slugs MachineProcess.filter_remove = "filter_remove"
process_slugs MachineProcess.switch_off = "switching_off"
process_slugs MachineProcess.easy_clean = "easy_clean"
process_slugs MachineProcess.intensive_clean = "intensive_clean"
process_slugs MachineProcess.evaporating = "evaporating"
process_slugs MachineProcess.busy = "busy"

abbrev pub sub_process_slugs : SubProcess → String
sub_process_slugs SubProcess.none = "idle"
sub_process_slugs SubProcess.grinding = "grinding"
sub_process_slugs SubProcess.coffee = "extracting"
sub_process_slugs SubProcess.steam = "steaming"
sub_process_slugs SubProcess.water = "dispensing_water"
sub_process_slugs SubProcess.prepare = "preparing"

abbrev pub manipulation_slugs : Manipulation → String
manipulation_slugs Manipulation.none = "none"
manipulation_slugs Manipulation.bu_removed = "brew_unit_removed"
manipulation_slugs Manipulation.trays_missing = "trays_missing"
manipulation_slugs Manipulation.empty_trays = "empty_trays"
manipulation_slugs Manipulation.fill_water = "fill_water"
manipulation_slugs Manipulation.close_powder_lid = "close_powder_lid"
manipulation_slugs Manipulation.fill_powder = "fill_powder"

-- `options=[*TABLE.values(), UNKNOWN]`; the tables have all members, in the order of the classes.
pub options_of : {A : Type 0} → (A → String) → List A → List String
options_of slugs members = map slugs members ++ unknown ∷ []

-- `TABLE.get(member, UNKNOWN)`, of the table that has every member. No process has the number 0, for
-- which `if member` of `_process` would fail.
abbrev pub slug_or_unknown : {A : Type 0} → (A → String) → Option A → String
slug_or_unknown slugs none = unknown
slug_or_unknown slugs (some a) = slugs a

unfoldable pub process : MelittaData → Option String
process d = of_status (λ status. slug_or_unknown process_slugs (process_enum status)) d.status

unfoldable pub sub_process : MelittaData → Option String
sub_process d =
    of_status (λ status. slug_or_unknown sub_process_slugs (sub_process_enum_of status)) d.status

unfoldable pub attention : MelittaData → Option String
attention d =
    of_status (λ status. slug_or_unknown manipulation_slugs (manipulation_enum status)) d.status

unfoldable pub progress : MelittaData → Option ℤ
progress d = of_status (λ status. status.progress) d.status

-- `f"{n:02d}"`, of a number below 100.
abbrev pub two_digits : ℕ → Text
two_digits n = (b'0' + n / 10) ∷ (b'0' + n % 10) ∷ []

abbrev clock_text : ℕ → Option Text
clock_text minutes =
    if ltb minutes (24 * 60)
    then some (two_digits (minutes / 60) ++ b':' ∷ two_digits (minutes % 60))
    else none

abbrev clock_of : Option ℤ → Option Text
clock_of none = none
clock_of (some (negsuc n)) = none
clock_of (some (pos minutes)) = clock_text minutes

unfoldable pub clock : MelittaData → Option Text
clock d = clock_of d.clock_minutes

-- `_care_count`
unfoldable pub care_count : CareProgramme → MelittaData → Option ℤ
care_count programme d = lookup (int ⦃e = care_programme_enum⦄ programme) d.care_counts

-- `int(recipe) - int(RecipeId.ESPRESSO)`, the least of the numbers.
unfoldable pub counter_of : RecipeId → ℕ
counter_of recipe = int ⦃e = recipe_id_enum⦄ recipe - int ⦃e = recipe_id_enum⦄ RecipeId.espresso

-- `MelittaCupCounter.native_value`
unfoldable pub cups : RecipeId → MelittaData → Option ℤ
unfolding counter_of
cups recipe d = lookup (counter_of recipe) d.cup_counters
