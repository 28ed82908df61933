-- ===== src/Const/Status.antt =====
-- const.py, "Machine status enums": what the HX status frame carries.
use hass_melitta_barista_ts.Prelude.{ℕ, ◌≡◌, refl, List, [], ◌∷◌, some}
use hass_melitta_barista_ts.Const.Enum.{IntEnum, find_member}

-- The top-level process of a status frame.
pub data MachineProcess : Type 0 where
  ready product cleaning descaling filter_insert filter_replace filter_remove : MachineProcess
  switch_off easy_clean intensive_clean evaporating busy : MachineProcess

abbrev machine_process_value : MachineProcess → ℕ
machine_process_value MachineProcess.ready = 2
machine_process_value MachineProcess.product = 4
machine_process_value MachineProcess.cleaning = 9
machine_process_value MachineProcess.descaling = 10
machine_process_value MachineProcess.filter_insert = 11
machine_process_value MachineProcess.filter_replace = 12
machine_process_value MachineProcess.filter_remove = 13
machine_process_value MachineProcess.switch_off = 16
machine_process_value MachineProcess.easy_clean = 17
machine_process_value MachineProcess.intensive_clean = 19
machine_process_value MachineProcess.evaporating = 20
machine_process_value MachineProcess.busy = 99

abbrev machine_process_members : List MachineProcess
machine_process_members =
    MachineProcess.ready ∷ MachineProcess.product ∷ MachineProcess.cleaning
    ∷ MachineProcess.descaling ∷ MachineProcess.filter_insert ∷ MachineProcess.filter_replace
    ∷ MachineProcess.filter_remove ∷ MachineProcess.switch_off ∷ MachineProcess.easy_clean
    ∷ MachineProcess.intensive_clean ∷ MachineProcess.evaporating ∷ MachineProcess.busy ∷ []

pub machine_process_found :
    (a : MachineProcess)
    → find_member machine_process_value machine_process_members (machine_process_value a) ≡ some a
machine_process_found MachineProcess.ready = refl
machine_process_found MachineProcess.product = refl
machine_process_found MachineProcess.cleaning = refl
machine_process_found MachineProcess.descaling = refl
machine_process_found MachineProcess.filter_insert = refl
machine_process_found MachineProcess.filter_replace = refl
machine_process_found MachineProcess.filter_remove = refl
machine_process_found MachineProcess.switch_off = refl
machine_process_found MachineProcess.easy_clean = refl
machine_process_found MachineProcess.intensive_clean = refl
machine_process_found MachineProcess.evaporating = refl
machine_process_found MachineProcess.busy = refl

instance abbrev pub machine_process_enum : IntEnum MachineProcess
machine_process_enum = record {
  value = machine_process_value;
  members = machine_process_members;
  found = machine_process_found;
}

-- The second-level detail.
pub data SubProcess : Type 0 where
  none grinding coffee steam water prepare : SubProcess

abbrev sub_process_value : SubProcess → ℕ
sub_process_value SubProcess.none = 0
sub_process_value SubProcess.grinding = 1
sub_process_value SubProcess.coffee = 2
sub_process_value SubProcess.steam = 3
sub_process_value SubProcess.water = 4
sub_process_value SubProcess.prepare = 5

abbrev sub_process_members : List SubProcess
sub_process_members =
    SubProcess.none ∷ SubProcess.grinding ∷ SubProcess.coffee ∷ SubProcess.steam ∷ SubProcess.water
    ∷ SubProcess.prepare ∷ []

pub sub_process_found :
    (a : SubProcess)
    → find_member sub_process_value sub_process_members (sub_process_value a) ≡ some a
sub_process_found SubProcess.none = refl
sub_process_found SubProcess.grinding = refl
sub_process_found SubProcess.coffee = refl
sub_process_found SubProcess.steam = refl
sub_process_found SubProcess.water = refl
sub_process_found SubProcess.prepare = refl

instance abbrev pub sub_process_enum : IntEnum SubProcess
sub_process_enum = record {
  value = sub_process_value;
  members = sub_process_members;
  found = sub_process_found;
}

-- What the machine waits for somebody to do.
pub data Manipulation : Type 0 where
  none bu_removed trays_missing empty_trays fill_water close_powder_lid : Manipulation
  fill_powder : Manipulation

abbrev manipulation_value : Manipulation → ℕ
manipulation_value Manipulation.none = 0
manipulation_value Manipulation.bu_removed = 1
manipulation_value Manipulation.trays_missing = 2
manipulation_value Manipulation.empty_trays = 3
manipulation_value Manipulation.fill_water = 4
manipulation_value Manipulation.close_powder_lid = 5
manipulation_value Manipulation.fill_powder = 6

abbrev manipulation_members : List Manipulation
manipulation_members =
    Manipulation.none ∷ Manipulation.bu_removed ∷ Manipulation.trays_missing
    ∷ Manipulation.empty_trays ∷ Manipulation.fill_water ∷ Manipulation.close_powder_lid
    ∷ Manipulation.fill_powder ∷ []

pub manipulation_found :
    (a : Manipulation)
    → find_member manipulation_value manipulation_members (manipulation_value a) ≡ some a
manipulation_found Manipulation.none = refl
manipulation_found Manipulation.bu_removed = refl
manipulation_found Manipulation.trays_missing = refl
manipulation_found Manipulation.empty_trays = refl
manipulation_found Manipulation.fill_water = refl
manipulation_found Manipulation.close_powder_lid = refl
manipulation_found Manipulation.fill_powder = refl

instance abbrev pub manipulation_enum : IntEnum Manipulation
manipulation_enum = record {
  value = manipulation_value;
  members = manipulation_members;
  found = manipulation_found;
}

-- The flags of the info byte, each with its bit; NONE is no flag.
pub data InfoMessage : Type 0 where
  fill_beans_1 fill_beans_2 easy_clean powder_filled preparation_cancelled : InfoMessage

abbrev pub info_message_value : InfoMessage → ℕ
info_message_value InfoMessage.fill_beans_1 = 1
info_message_value InfoMessage.fill_beans_2 = 2
info_message_value InfoMessage.easy_clean = 4
info_message_value InfoMessage.powder_filled = 8
info_message_value InfoMessage.preparation_cancelled = 16

-- Iterating over the flag class gives its five single bits.
abbrev pub info_message_members : List InfoMessage
info_message_members =
    InfoMessage.fill_beans_1 ∷ InfoMessage.fill_beans_2 ∷ InfoMessage.easy_clean
    ∷ InfoMessage.powder_filled ∷ InfoMessage.preparation_cancelled ∷ []
