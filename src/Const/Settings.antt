-- ===== src/Const/Settings.antt =====
-- const.py, "Numerical registers": the registers and the values of some of them.
use Prim.Native.String.{String}
use hass_melitta_barista_ts.Prelude.{ℕ, ◌≡◌, refl, List, [], ◌∷◌, some}
use hass_melitta_barista_ts.Const.Enum.{IntEnum, find_member}

-- The numerical registers.
pub data SettingId : Type 0 where
  machine_type water_hardness energy_saving auto_off_after auto_off_when : SettingId
  language auto_bean_select rinsing_off clock clock_set temperature filter : SettingId

abbrev setting_id_value : SettingId → ℕ
setting_id_value SettingId.machine_type = 6
setting_id_value SettingId.water_hardness = 11
setting_id_value SettingId.energy_saving = 12
setting_id_value SettingId.auto_off_after = 13
setting_id_value SettingId.auto_off_when = 14
setting_id_value SettingId.language = 15
setting_id_value SettingId.auto_bean_select = 16
setting_id_value SettingId.rinsing_off = 18
setting_id_value SettingId.clock = 20
setting_id_value SettingId.clock_set = 21
setting_id_value SettingId.temperature = 22
setting_id_value SettingId.filter = 91

abbrev setting_id_members : List SettingId
setting_id_members =
    SettingId.machine_type ∷ SettingId.water_hardness ∷ SettingId.energy_saving
    ∷ SettingId.auto_off_after ∷ SettingId.auto_off_when ∷ SettingId.language
    ∷ SettingId.auto_bean_select ∷ SettingId.rinsing_off ∷ SettingId.clock ∷ SettingId.clock_set
    ∷ SettingId.temperature ∷ SettingId.filter ∷ []

pub setting_id_found :
    (a : SettingId) → find_member setting_id_value setting_id_members (setting_id_value a) ≡ some a
setting_id_found SettingId.machine_type = refl
setting_id_found SettingId.water_hardness = refl
setting_id_found SettingId.energy_saving = refl
setting_id_found SettingId.auto_off_after = refl
setting_id_found SettingId.auto_off_when = refl
setting_id_found SettingId.language = refl
setting_id_found SettingId.auto_bean_select = refl
setting_id_found SettingId.rinsing_off = refl
setting_id_found SettingId.clock = refl
setting_id_found SettingId.clock_set = refl
setting_id_found SettingId.temperature = refl
setting_id_found SettingId.filter = refl

instance abbrev pub setting_id_enum : IntEnum SettingId
setting_id_enum = record {
  value = setting_id_value;
  members = setting_id_members;
  found = setting_id_found;
}

-- What the machine type register holds.
pub data MachineType : Type 0 where
  barista_t barista_ts : MachineType

abbrev machine_type_value : MachineType → ℕ
machine_type_value MachineType.barista_t = 258
machine_type_value MachineType.barista_ts = 259

abbrev machine_type_members : List MachineType
machine_type_members = MachineType.barista_t ∷ MachineType.barista_ts ∷ []

pub machine_type_found :
    (a : MachineType)
    → find_member machine_type_value machine_type_members (machine_type_value a) ≡ some a
machine_type_found MachineType.barista_t = refl
machine_type_found MachineType.barista_ts = refl

instance abbrev pub machine_type_enum : IntEnum MachineType
machine_type_enum = record {
  value = machine_type_value;
  members = machine_type_members;
  found = machine_type_found;
}

-- Registers that count the care programmes run.
pub data CareProgramme : Type 0 where
  coffee_system_cleaning descaling filter_change milk_system_cleaning : CareProgramme

abbrev care_programme_value : CareProgramme → ℕ
care_programme_value CareProgramme.coffee_system_cleaning = 161
care_programme_value CareProgramme.descaling = 162
care_programme_value CareProgramme.filter_change = 163
care_programme_value CareProgramme.milk_system_cleaning = 164

abbrev care_programme_members : List CareProgramme
care_programme_members =
    CareProgramme.coffee_system_cleaning ∷ CareProgramme.descaling ∷ CareProgramme.filter_change
    ∷ CareProgramme.milk_system_cleaning ∷ []

pub care_programme_found :
    (a : CareProgramme)
    → find_member care_programme_value care_programme_members (care_programme_value a) ≡ some a
care_programme_found CareProgramme.coffee_system_cleaning = refl
care_programme_found CareProgramme.descaling = refl
care_programme_found CareProgramme.filter_change = refl
care_programme_found CareProgramme.milk_system_cleaning = refl

instance abbrev pub care_programme_enum : IntEnum CareProgramme
care_programme_enum = record {
  value = care_programme_value;
  members = care_programme_members;
  found = care_programme_found;
}

-- Registers that ask for a care programme.
pub data CareDue : Type 0 where
  descaling coffee_system_cleaning milk_system_cleaning : CareDue

abbrev care_due_value : CareDue → ℕ
care_due_value CareDue.descaling = 51
care_due_value CareDue.coffee_system_cleaning = 61
care_due_value CareDue.milk_system_cleaning = 71

abbrev care_due_members : List CareDue
care_due_members =
    CareDue.descaling ∷ CareDue.coffee_system_cleaning ∷ CareDue.milk_system_cleaning ∷ []

pub care_due_found :
    (a : CareDue) → find_member care_due_value care_due_members (care_due_value a) ≡ some a
care_due_found CareDue.descaling = refl
care_due_found CareDue.coffee_system_cleaning = refl
care_due_found CareDue.milk_system_cleaning = refl

instance abbrev pub care_due_enum : IntEnum CareDue
care_due_enum = record {
  value = care_due_value;
  members = care_due_members;
  found = care_due_found;
}

abbrev pub machine_type_names : MachineType → String
machine_type_names MachineType.barista_t = "Barista T Smart"
machine_type_names MachineType.barista_ts = "Barista TS Smart"

abbrev pub care_due_slugs : CareDue → String
care_due_slugs CareDue.descaling = "descaling_due"
care_due_slugs CareDue.coffee_system_cleaning = "coffee_system_cleaning_due"
care_due_slugs CareDue.milk_system_cleaning = "milk_system_cleaning_due"

abbrev pub care_slugs : CareProgramme → String
care_slugs CareProgramme.milk_system_cleaning = "milk_system_cleanings"
care_slugs CareProgramme.coffee_system_cleaning = "coffee_system_cleanings"
care_slugs CareProgramme.descaling = "descalings"
care_slugs CareProgramme.filter_change = "filter_changes"

abbrev pub cup_counter_base_id : ℕ
cup_counter_base_id = 100

abbrev pub total_cups_id : ℕ
total_cups_id = 150

abbrev pub auto_off_min_minutes : ℕ
auto_off_min_minutes = 5

abbrev pub auto_off_max_minutes : ℕ
auto_off_max_minutes = 480

abbrev pub minutes_per_day : ℕ
minutes_per_day = 1440
