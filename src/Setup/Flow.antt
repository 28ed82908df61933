-- ===== src/Setup/Flow.antt =====
-- config_flow.py, `MelittaConfigFlow`. The unique ids that are configured come in with each step.
pub mod Entries
pub mod Unique
use hass_melitta_barista_ts.Prelude.{
  ℕ, Bool, true, false, not, ◌&&◌, ◌||◌, if◌then◌else◌, bytes_eq, take, List, [], ◌∷◌, ◌++◌, Option,
  none, some, map,
}
use hass_melitta_barista_ts.Errors.{Exception, key_error}
use hass_melitta_barista_ts.Client.Text.{Text, text, lower}
use hass_melitta_barista_ts.Services.Targets.{is_among}

-- What the code reads of a `BluetoothServiceInfoBleak`.
pub record Info : Type 0 where
  pub address : Text
  pub name : Option Text
  pub service_uuids : List Text

abbrev service_uuid : Text
service_uuid = text "0000ad00-b35c-11e4-9813-0002a5d5c51b"

abbrev ble_name_prefixes_t : List Text
ble_name_prefixes_t = text "8301" ∷ text "8311" ∷ text "8401" ∷ []

abbrev ble_name_prefixes_ts : List Text
ble_name_prefixes_ts = text "8501" ∷ text "8601" ∷ text "8604" ∷ []

-- `name[:4]`; of no name, the empty text, which is no prefix.
abbrev name_prefix : Option Text → Text
name_prefix none = []
name_prefix (some name) = take 4 name

unfoldable pub is_supported : Info → Bool
is_supported info =
    is_among (lower service_uuid) (map lower info.service_uuids)
    || is_among (name_prefix info.name) (ble_name_prefixes_t ++ ble_name_prefixes_ts)

unfoldable pub suggested_title : Info → Text
suggested_title info =
    if is_among (name_prefix info.name) ble_name_prefixes_t
    then text "Melitta Barista T Smart"
    else text "Melitta Barista TS Smart"

-- What a step of a flow gives Home Assistant.
pub data FlowResult : Type 0 where
  already_in_progress already_configured not_supported no_devices_found : FlowResult
  confirm_form : Text → Text → FlowResult
  user_form : List (Text × Text) → FlowResult
  entry : Text → Text → FlowResult
  raised : Exception → FlowResult
  failed_assertion : FlowResult

-- `unique_id` is Home Assistant's attribute of a flow.
pub record Flow : Type 0 where
  pub unique_id : Option Text
  pub discovery : Option Info
  pub discovered : List Info

abbrev pub new_flow : Flow
new_flow = record { unique_id = none; discovery = none; discovered = [] }

-- The test of `_abort_if_unique_id_configured`. That of `async_set_unique_id`, whether another flow is at
-- work on the same unique id, comes in with the step.
abbrev pub is_configured : List Text → Option Text → Bool
is_configured configured none = false
is_configured configured (some id) = is_among id configured

abbrev pub confirm_info : List Text → Bool → Flow → Option Info → FlowResult × Flow
confirm_info configured submitted flow none = (failed_assertion, flow)
confirm_info configured submitted flow (some info) =
    if submitted
    then (if is_configured configured flow.unique_id
        then (already_configured, flow)
        else (entry (suggested_title info) info.address, flow))
    else (confirm_form (suggested_title info) info.address, flow)

unfoldable pub async_step_confirm : List Text → Bool → Flow → FlowResult × Flow
async_step_confirm configured submitted flow = confirm_info configured submitted flow flow.discovery

unfoldable pub async_step_bluetooth : List Text → Bool → Info → Flow → FlowResult × Flow
unfolding async_step_confirm is_supported
async_step_bluetooth configured in_progress info flow =
    let identified : Flow = record flow { unique_id = some info.address } in
    if in_progress
    then (already_in_progress, flow)
    else if is_configured configured identified.unique_id
    then (already_configured, identified)
    else if not (is_supported info)
    then (not_supported, identified)
    else async_step_confirm configured false (record identified { discovery = some info })

-- The dict of the machines in range, by address: a later one takes the place of an earlier one.
pub enter : Info → List Info → List Info
enter info [] = info ∷ []
enter info (i ∷ rest) = if bytes_eq i.address info.address then info ∷ rest else i ∷ enter info rest

pub machines_in_range : List Text → List Info → List Info → List Info
machines_in_range configured found [] = found
machines_in_range configured found (info ∷ rest) =
    machines_in_range configured
      (if not (is_among info.address configured) && is_supported info
        then enter info found
        else found)
      rest

abbrev choice : Info → Text × Text
choice info = (info.address, suggested_title info ++ text " (" ++ info.address ++ text ")")

abbrev pub offered : List Info → FlowResult
offered [] = no_devices_found
offered (i ∷ rest) = user_form (map choice (i ∷ rest))

-- `async_step_user` without input, with what Home Assistant has discovered.
unfoldable pub async_step_user : List Text → List Info → Flow → FlowResult × Flow
unfolding machines_in_range
async_step_user configured infos flow =
    let discovered : List Info = machines_in_range configured [] infos in
    (offered discovered, record flow { discovered = discovered })

pub at_address : Text → List Info → Option Info
at_address address [] = none
at_address address (i ∷ rest) =
    if bytes_eq i.address address then some i else at_address address rest

abbrev pub picked : Text → Option Info → FlowResult
picked address none = raised key_error
picked address (some info) = entry (suggested_title info) address

-- `async_step_user` with the chosen address.
unfoldable pub async_submit_user : List Text → Text → Flow → FlowResult × Flow
unfolding at_address
async_submit_user configured address flow =
    let identified : Flow = record flow { unique_id = some address } in
    if is_configured configured identified.unique_id
    then (already_configured, identified)
    else (picked address (at_address address flow.discovered), identified)
