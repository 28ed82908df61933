-- ===== src/Coordinator/Polling.antt =====
-- coordinator.py, `_async_update_data` and the reads that it makes.
pub mod Marks
pub mod Freshness
use hass_melitta_barista_ts.Prelude.{
  ℕ, zero, suc, ◌+◌, ◌-◌, Bool, true, false, not, ◌&&◌, ◌==◌, ltb, if◌then◌else◌, List, [], ◌∷◌,
  ◌++◌, Option, none, some,
}
use hass_melitta_barista_ts.Prelude.Int.{ℤ, pos, eq_ℤ}
use hass_melitta_barista_ts.Prelude.Dict.{Dict, insert}
use hass_melitta_barista_ts.Errors.{
  Exception, connection_error, update_failed, value_error, Result, ok, err,
}
use hass_melitta_barista_ts.Const.Enum.{IntEnum, int, enum_of_int}
use hass_melitta_barista_ts.Const.Settings.{
  SettingId, setting_id_enum, CareProgramme, care_programme_enum, CareDue, care_due_enum,
  MachineType, machine_type_enum, cup_counter_base_id, total_cups_id,
}
use hass_melitta_barista_ts.Const.Slots.{profile_name_id, user_profile_count, my_coffee_profile}
use hass_melitta_barista_ts.Protocol.Status.{MachineStatus}
use hass_melitta_barista_ts.Machine.Brew.{decimal}
use hass_melitta_barista_ts.Machine.Reads.{
  read_status, read_firmware, read_numerical, read_alphanumeric,
}
use hass_melitta_barista_ts.Client.Text.{Text, text, strip}
use hass_melitta_barista_ts.Client.State.{Failure}
use hass_melitta_barista_ts.Client.Connect.{World, Outcome, done, failed, async_connect}
use hass_melitta_barista_ts.Coordinator.State.{
  MelittaData, Coordinator, C, pure, raise, ◌>>=◌, ◌>>◌, modify, run, absorb,
  is_communication_error,
}

abbrev pub settings_refresh_seconds : ℕ
settings_refresh_seconds = 300

abbrev pub stale_after_seconds : ℕ
stale_after_seconds = 180

-- `data_is_fresh` and `_settings_due`, with the clock's reading.
unfoldable pub data_is_fresh : ℕ → Coordinator → Bool
data_is_fresh now s = elim s.last_success_at [
  | none ↦ s.last_update_success
  | some t ↦ if s.last_update_success then true else ltb (now - t) stale_after_seconds
]

unfoldable pub settings_due : ℕ → Coordinator → Bool
settings_due now s = elim s.settings_read_at [
  | none ↦ true
  | some t ↦ not (ltb (now - t) settings_refresh_seconds)
]

abbrev pub change : (MelittaData → MelittaData) → C (Unit {0})
change f = modify (λ s. record s { content = f s.content })

abbrev pub stored : {A : Type 0} → Option A → (A → MelittaData → MelittaData) → C (Unit {0})
stored none f = pure tt
stored (some a) f = change (f a)

-- The three readings of the clock during one poll.
pub record Clock : Type 0 where
  pub at_due : ℕ
  pub at_settings : ℕ
  pub at_success : ℕ

abbrev pub up_to : ℕ → ℕ → List ℕ
up_to zero from = []
up_to (suc n) from = from ∷ up_to n (suc from)

abbrev name_or_placeholder : Text → ℕ → Text
name_or_placeholder [] profile = text "Profile " ++ decimal profile
name_or_placeholder (c ∷ cs) profile = c ∷ cs

-- `(stored or "").strip() or f"Profile {profile}"`
pub profile_label : Option Text → ℕ → Text
profile_label none profile = name_or_placeholder [] profile
profile_label (some t) profile = name_or_placeholder (strip t) profile

abbrev pub as_machine_type : Option ℤ → Option MachineType
as_machine_type none = none
as_machine_type (some raw) = enum_of_int raw

module _ (world : World) where
  pub safe_read_numerical : ℤ → C (Option ℤ)
  safe_read_numerical value_id = absorb (run world (read_numerical value_id))

  pub safe_read_firmware : C (Option Text)
  safe_read_firmware = absorb (run world read_firmware)

  pub safe_read_machine_type : C (Option MachineType)
  unfolding safe_read_numerical
  safe_read_machine_type = do
    raw ← safe_read_numerical (pos (int ⦃e = setting_id_enum⦄ SettingId.machine_type))
    pure (as_machine_type raw)

  -- The name of a profile; a profile without a register is the ValueError, which is not caught.
  abbrev pub read_name : ℕ → C (Option Text)
  read_name profile = elim (profile_name_id profile) [
    | none ↦
        raise (record { exception = value_error; message = text "profile has no name register" })
    | some id ↦ absorb (run world (read_alphanumeric (pos id)))
  ]

  pub name_loop : List ℕ → Dict Text → C (Dict Text)
  unfolding profile_label
  name_loop [] names = pure names
  name_loop (profile ∷ rest) names = do
    name ← read_name profile
    name_loop rest (insert profile (profile_label name profile) names)

  pub refresh_profiles : C (Unit {0})
  unfolding name_loop
  refresh_profiles s =
      (do
        names ←
            name_loop (up_to (user_profile_count s.content.machine_type) 1)
              ((my_coffee_profile, text "My Coffee") ∷ [])
        change (λ d. record d { profile_names = names }))
        s

  pub care_loop : List CareProgramme → C (Unit {0})
  unfolding safe_read_numerical
  care_loop [] = pure tt
  care_loop (p ∷ rest) = do
    value ← safe_read_numerical (pos (int p))
    stored value (λ v d. record d { care_counts = insert (int p) v d.care_counts })
    care_loop rest

  -- `int(due) + CARE_SINCE_OFFSET`, which is -1; the members are above 0.
  pub due_loop : List CareDue → C (Unit {0})
  unfolding safe_read_numerical
  due_loop [] = pure tt
  due_loop (due ∷ rest) = do
    value ← safe_read_numerical (pos (int due))
    stored value (λ v d. record d { care_due = insert (int due) (not (eq_ℤ v (pos 0))) d.care_due })
    since ← safe_read_numerical (pos (int due - 1))
    stored since (λ v d. record d { care_since = insert (int due) v d.care_since })
    due_loop rest

  -- `data.<field> = await self._safe_read_numerical(<register>)`
  abbrev pub read_into : SettingId → (Option ℤ → MelittaData → MelittaData) → C (Unit {0})
  read_into register f = do
    value ← safe_read_numerical (pos (int ⦃e = setting_id_enum⦄ register))
    change (f value)

  -- The loops over the care registers, and then the profiles.
  abbrev pub refresh_care : C (Unit {0})
  refresh_care = do
    care_loop care_programme_enum.members
    due_loop care_due_enum.members
    refresh_profiles

  pub refresh_settings : C (Unit {0})
  unfolding care_loop due_loop refresh_profiles safe_read_numerical
  refresh_settings = do
    read_into SettingId.clock (λ v d. record d { clock_minutes = v })
    read_into SettingId.auto_off_after (λ v d. record d { auto_off_after = v })
    read_into SettingId.water_hardness (λ v d. record d { water_hardness = v })
    refresh_care

  pub counter_loop : List ℕ → C (Unit {0})
  unfolding safe_read_numerical
  counter_loop [] = pure tt
  counter_loop (recipe_type ∷ rest) = do
    value ← safe_read_numerical (pos (cup_counter_base_id + recipe_type))
    stored value (λ v d. record d { cup_counters = insert recipe_type v d.cup_counters })
    counter_loop rest

  pub refresh_counters : C (Unit {0})
  unfolding counter_loop safe_read_numerical
  refresh_counters = do
    total ← safe_read_numerical (pos total_cups_id)
    change (λ d. record d { total_cups = total })
    counter_loop (up_to 24 0)

  abbrev pub connect : C (Unit {0})
  connect s = let (r, c) = async_connect world s.client in (r, record s { client = c })

  abbrev pub fill_firmware : Option Text → C (Unit {0})
  fill_firmware (some t) = pure tt
  fill_firmware none = do
    firmware ← safe_read_firmware
    change (λ d. record d { firmware = firmware })

  abbrev pub fill_machine_type : Option MachineType → C (Unit {0})
  fill_machine_type (some t) = pure tt
  fill_machine_type none = do
    machine_type ← safe_read_machine_type
    change (λ d. record d { machine_type = machine_type })

  abbrev pub slow_settings : Clock → Bool → C (Unit {0})
  slow_settings clock false = pure tt
  slow_settings clock true = do
    refresh_settings
    modify (λ s. record s { settings_read_at = some clock.at_settings })

  abbrev pub slow_counters : Bool → C (Unit {0})
  slow_counters false = pure tt
  slow_counters true = do refresh_counters; modify (λ s. record s { counters_due = false })

  abbrev pub settings_step : Clock → C (Unit {0})
  settings_step clock s = slow_settings clock (settings_due clock.at_due s) s

  abbrev pub counters_step : C (Unit {0})
  counters_step s = slow_counters s.counters_due s

  abbrev pub slow_registers : Clock → Bool → C (Unit {0})
  slow_registers clock false = pure tt
  slow_registers clock true = do settings_step clock; counters_step

  abbrev pub firmware_step : C (Unit {0})
  firmware_step s = fill_firmware s.content.firmware s

  abbrev pub machine_type_step : C (Unit {0})
  machine_type_step s = fill_machine_type s.content.machine_type s

  abbrev pub slow_step : Clock → C (Unit {0})
  slow_step clock s = slow_registers clock s.first_refresh_done s

  abbrev pub after_status : Clock → C (Unit {0})
  after_status clock = do firmware_step; machine_type_step; slow_step clock

  -- The body of the `try`.
  pub poll : Clock → C (Unit {0})
  unfolding refresh_settings refresh_counters safe_read_firmware safe_read_machine_type settings_due
  poll clock = do
    connect
    status ← run world read_status
    change (λ d. record d { status = some status })
    after_status clock

  abbrev as_update_failed : Failure → Failure
  as_update_failed f = elim f.exception [
    | Exception.connection_error ↦ record { exception = update_failed; message = f.message }
    | _ ↦
        if is_communication_error f.exception
        then record {
          exception = update_failed;
          message = text "communication error: " ++ f.message;
        }
        else f
  ]

  abbrev finish : Clock → Outcome (Unit {0}) → Coordinator → Outcome (Unit {0}) × Coordinator
  finish clock (failed f) s = (failed (as_update_failed f), s)
  finish clock (done u) s =
      (done u, record s { first_refresh_done = true; last_success_at = some clock.at_success })

  -- `_async_update_data`; the data that it returns is the coordinator's own.
  unfoldable pub async_update_data : Clock → C (Unit {0})
  unfolding poll
  async_update_data clock s = let (r, s') = poll clock s in finish clock r s'

-- `self.data.status != status`: the fields are compared.
abbrev pub is_status : Option MachineStatus → MachineStatus → Bool
is_status none status = false
is_status (some old) status =
    eq_ℤ old.process status.process
    && eq_ℤ old.sub_process status.sub_process
    && old.info_messages == status.info_messages
    && old.manipulation == status.manipulation
    && eq_ℤ old.progress status.progress

-- `_handle_pushed_status`
pub handle_pushed_status : MachineStatus → Coordinator → Coordinator
handle_pushed_status status s =
    if is_status s.content.status status
    then s
    else record s { content = record s.content { status = some status }; updates = suc s.updates }
