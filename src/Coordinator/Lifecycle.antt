-- ===== src/Coordinator/Lifecycle.antt =====
-- coordinator.py: repairing the connection, and shutting down.
use hass_melitta_barista_ts.Client.Text.{Text, text}
use hass_melitta_barista_ts.Client.Connect.{World, Outcome, failed, connection_failed}
use hass_melitta_barista_ts.Client.Bond.{Clearing, async_clear_bond, async_close}
use hass_melitta_barista_ts.Coordinator.State.{Coordinator, C, ◌>>◌, request_refresh}

abbrev clear_bond : World → Clearing → C (Unit {0})
clear_bond world x s =
    let (o, c) = async_clear_bond world x s.client in (o, record s { client = c })

unfoldable pub async_repair_connection : World → Clearing → C (Unit {0})
async_repair_connection world x = do clear_bond world x; request_refresh

-- What of `async_shutdown` is not Home Assistant's.
unfoldable pub async_shutdown : Coordinator → Coordinator
unfolding async_close
async_shutdown s = record s { client = async_close s.client }

abbrev pub refused : {A : Type 0} → Outcome A
refused = failed (connection_failed (text "client is shutting down"))
