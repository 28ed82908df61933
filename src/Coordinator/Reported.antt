-- ===== src/Coordinator/Reported.antt =====
-- How the services and the entities report what the machine layer raises.
use hass_melitta_barista_ts.Prelude.{◌++◌, if◌then◌else◌}
use hass_melitta_barista_ts.Errors.{home_assistant_error, is_machine_error}
use hass_melitta_barista_ts.Client.Text.{Text}
use hass_melitta_barista_ts.Client.State.{Failure}
use hass_melitta_barista_ts.Client.Connect.{Outcome, done, failed}
use hass_melitta_barista_ts.Coordinator.State.{C}

-- `except MachineError as err: raise HomeAssistantError(f"{prefix}: {err}") from err`
abbrev pub as_reported : Text → Failure → Failure
as_reported prefix f =
    if is_machine_error f.exception
    then record { exception = home_assistant_error; message = prefix ++ f.message }
    else f

abbrev pub reported_outcome : {A : Type 0} → Text → Outcome A → Outcome A
reported_outcome prefix (done a) = done a
reported_outcome prefix (failed f) = failed (as_reported prefix f)

abbrev pub reported : {A : Type 0} → Text → C A → C A
reported prefix action s = let (r, s') = action s in (reported_outcome prefix r, s')
