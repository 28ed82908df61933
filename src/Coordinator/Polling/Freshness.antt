-- ===== src/Coordinator/Polling/Freshness.antt =====
-- What a poll does to the time of the last success, and so to whether the readings still show.
use hass_melitta_barista_ts.Prelude.{
  ℕ, ◌-◌, ◌≡◌, refl, ap, ◌∙◌, true, false, Bool, ltb, Option, none, some, inl, inr,
}
use hass_melitta_barista_ts.Prelude.Int.{pos}
use hass_melitta_barista_ts.Const.Settings.{
  SettingId, setting_id_enum, care_programme_enum, care_due_enum, MachineType,
}
use hass_melitta_barista_ts.Const.Enum.{int}
use hass_melitta_barista_ts.Protocol.Status.{MachineStatus}
use hass_melitta_barista_ts.Machine.Reads.{read_firmware, read_status}
use hass_melitta_barista_ts.Client.Text.{Text}
use hass_melitta_barista_ts.Client.State.{Failure}
use hass_melitta_barista_ts.Client.Connect.{World, done, failed}
use hass_melitta_barista_ts.Client.Connect.Outcomes.{Outcome-cases}
use hass_melitta_barista_ts.Coordinator.State.{Coordinator, C, modify, pure, ◌>>=◌, ◌>>◌, run}
use hass_melitta_barista_ts.Coordinator.Polling.{
  Clock, safe_read_numerical, safe_read_firmware, safe_read_machine_type, refresh_settings,
  refresh_counters, poll, async_update_data, data_is_fresh, change, connect, fill_firmware,
  fill_machine_type, slow_settings, slow_counters, slow_registers, settings_step, counters_step,
  firmware_step, machine_type_step, slow_step, after_status, as_machine_type, settings_due,
}
use hass_melitta_barista_ts.Coordinator.Polling.Marks.{
  Keeps, Keeps-bind, Keeps-absorb, Keeps-read, Keeps-then, Keeps-refresh_settings,
  Keeps-refresh_counters,
}

module _ (world : World) where
  Keeps-fill_firmware : (o : Option Text) → Keeps (fill_firmware world o)
  Keeps-fill_firmware (some t) = record { kept = λ s. refl }
  Keeps-fill_firmware none =
      Keeps-bind (safe_read_firmware world) (λ o. change (λ d. record d { firmware = o }))
        (unfold safe_read_firmware in
          Keeps-absorb (run world read_firmware) (record { kept = λ s. refl }))
        (λ o. record { kept = λ s. refl })

  Keeps-safe_read_machine_type : Keeps (safe_read_machine_type world)
  unfolding safe_read_machine_type
  Keeps-safe_read_machine_type =
      Keeps-bind
        (safe_read_numerical world (pos (int ⦃e = setting_id_enum⦄ SettingId.machine_type)))
        (λ raw. pure (as_machine_type raw)) (Keeps-read world _)
        (λ raw. record { kept = λ s. refl })

  Keeps-fill_machine_type : (o : Option MachineType) → Keeps (fill_machine_type world o)
  Keeps-fill_machine_type (some t) = record { kept = λ s. refl }
  Keeps-fill_machine_type none =
      Keeps-bind (safe_read_machine_type world) (λ o. change (λ d. record d { machine_type = o }))
        Keeps-safe_read_machine_type (λ o. record { kept = λ s. refl })

  Keeps-slow_settings : (clock : Clock) (due : Bool) → Keeps (slow_settings world clock due)
  Keeps-slow_settings clock false = record { kept = λ s. refl }
  Keeps-slow_settings clock true =
      Keeps-then world (refresh_settings world)
        (modify (λ s. record s { settings_read_at = some clock.at_settings }))
        (Keeps-refresh_settings world) (record { kept = λ s. refl })

  Keeps-slow_counters : (due : Bool) → Keeps (slow_counters world due)
  Keeps-slow_counters false = record { kept = λ s. refl }
  Keeps-slow_counters true =
      Keeps-then world (refresh_counters world) (modify (λ s. record s { counters_due = false }))
        (Keeps-refresh_counters world) (record { kept = λ s. refl })

  Keeps-slow_registers : (clock : Clock) (due : Bool) → Keeps (slow_registers world clock due)
  Keeps-slow_registers clock false = record { kept = λ s. refl }
  Keeps-slow_registers clock true =
      Keeps-then world (settings_step world clock) (counters_step world)
        (record { kept = λ s. (Keeps-slow_settings clock (settings_due clock.at_due s)).kept s })
        (record { kept = λ s. (Keeps-slow_counters s.counters_due).kept s })

  Keeps-after_status : (clock : Clock) → Keeps (after_status world clock)
  Keeps-after_status clock =
      Keeps-then world (firmware_step world) (machine_type_step world >> slow_step world clock)
        (record { kept = λ s. (Keeps-fill_firmware s.content.firmware).kept s })
        (Keeps-then world (machine_type_step world) (slow_step world clock)
          (record { kept = λ s. (Keeps-fill_machine_type s.content.machine_type).kept s })
          (record { kept = λ s. (Keeps-slow_registers clock s.first_refresh_done).kept s }))

  abbrev status_step : MachineStatus → C (Unit {0})
  status_step status = change (λ d. record d { status = some status })

  Keeps-poll : (clock : Clock) → Keeps (poll world clock)
  unfolding poll
  Keeps-poll clock =
      Keeps-then world (connect world)
        (run world read_status >>= λ status. status_step status >> after_status world clock)
        (record { kept = λ s. refl })
        (Keeps-bind (run world read_status)
          (λ status. status_step status >> after_status world clock) (record { kept = λ s. refl })
          (λ status.
            Keeps-then world (status_step status) (after_status world clock)
              (record { kept = λ s. refl }) (Keeps-after_status clock)))

  pub async_update_data_lem :
      (clock : Clock) (s : Coordinator)
      → let (o, s') = async_update_data world clock s in
        (o ≡ done tt
          → (s'.last_success_at ≡ some clock.at_success) × (s'.first_refresh_done ≡ true))
        × ((f : Failure)
            → o ≡ failed f
            → (s'.last_success_at ≡ s.last_success_at)
              × (s'.first_refresh_done ≡ s.first_refresh_done)
              × ((now t : ℕ)
                  → s.last_success_at ≡ some t
                  → data_is_fresh now (record s' { last_update_success = false })
                    ≡ ltb (now - t) 180))
  unfolding async_update_data data_is_fresh
  async_update_data_lem clock s = elim (Outcome-cases (poll world clock s).0) [
    | inl (u, h) ↦ rw (h, async_update_data) (λ e. (refl, refl), λ f e. absurd (cc))
    | inr (g, h) ↦
        rw (h, async_update_data)
          (
            λ e. absurd (cc),
            λ f e. (
              ap (λ (m : Option ℕ × Bool). m.0) ((Keeps-poll clock).kept s),
              ap (λ (m : Option ℕ × Bool). m.1) ((Keeps-poll clock).kept s),
              λ now t k.
                  rw
                    (
                      ap (λ (m : Option ℕ × Bool). m.0) ((Keeps-poll clock).kept s) ∙ k,
                      data_is_fresh,
                    )
                    refl,
            ),
          )
  ]
