-- ===== src/Entities/Base.antt =====
-- entity.py: when an entity of the machine is available. One whose value lives in Home Assistant is always.
use hass_melitta_barista_ts.Prelude.{ℕ, Bool, true, false, ◌&&◌, Option, none, some}
use hass_melitta_barista_ts.Protocol.Status.{MachineStatus}
use hass_melitta_barista_ts.Coordinator.State.{Coordinator}
use hass_melitta_barista_ts.Coordinator.Polling.{data_is_fresh}

abbrev pub is_known : Option MachineStatus → Bool
is_known none = false
is_known (some status) = true

unfoldable pub available : ℕ → Coordinator → Bool
available now s = data_is_fresh now s && is_known s.content.status
