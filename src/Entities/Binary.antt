-- ===== src/Entities/Binary.antt =====
-- binary_sensor.py: the values, by their sources' names. `none` is unknown.
pub mod Conditions
use Prim.Native.Nat.{bit_and}
use hass_melitta_barista_ts.Prelude.{
  ℕ, Bool, true, false, not, ◌||◌, ◌==◌, List, [], ◌∷◌, Option, none, some,
}
use hass_melitta_barista_ts.Prelude.Int.{ℤ, pos, eq_ℤ}
use hass_melitta_barista_ts.Prelude.Dict.{lookup}
use hass_melitta_barista_ts.Const.Enum.{int}
use hass_melitta_barista_ts.Const.Status.{
  MachineProcess, machine_process_enum, Manipulation, manipulation_enum, InfoMessage,
  info_message_value,
}
use hass_melitta_barista_ts.Const.Settings.{CareDue, care_due_enum}
use hass_melitta_barista_ts.Protocol.Status.{MachineStatus, info_flags}
use hass_melitta_barista_ts.Coordinator.State.{MelittaData}

-- `None if data.status is None else ...`
abbrev pub of_status : {A : Type 0} → (MachineStatus → A) → Option MachineStatus → Option A
of_status f none = none
of_status f (some status) = some (f status)

unfoldable pub manipulation_is : Manipulation → MelittaData → Option Bool
manipulation_is target d =
    of_status (λ status. status.manipulation == int ⦃e = manipulation_enum⦄ target) d.status

unfoldable pub info_flag : InfoMessage → MelittaData → Option Bool
info_flag flag d =
    of_status (λ status. not (bit_and (info_flags status) (info_message_value flag) == 0)) d.status

abbrev pub is_process : MachineProcess → MachineStatus → Bool
is_process p status = eq_ℤ status.process (pos (int ⦃e = machine_process_enum⦄ p))

unfoldable pub brewing : MelittaData → Option Bool
brewing d = of_status (is_process MachineProcess.product) d.status

abbrev is_one_of : List MachineProcess → MachineStatus → Bool
is_one_of [] status = false
is_one_of (p ∷ ps) status = is_process p status || is_one_of ps status

unfoldable pub maintenance : MelittaData → Option Bool
maintenance d =
    of_status
      (is_one_of (
        MachineProcess.cleaning ∷ MachineProcess.descaling ∷ MachineProcess.easy_clean
        ∷ MachineProcess.intensive_clean ∷ MachineProcess.evaporating ∷ []))
      d.status

-- `_care_due`
unfoldable pub care_due_value : CareDue → MelittaData → Option Bool
care_due_value programme d = lookup (int ⦃e = care_due_enum⦄ programme) d.care_due
