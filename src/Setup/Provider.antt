-- ===== src/Setup/Provider.antt =====
-- __init__.py, the `_device_provider` of `async_setup_entry`.
pub mod Choices
use hass_melitta_barista_ts.Prelude.{
  Bool, true, false, not, if◌then◌else◌, List, [], ◌∷◌, Option, none, some,
}
use hass_melitta_barista_ts.Client.Text.{Text}
use hass_melitta_barista_ts.Client.Adapters.{Device, scanner_source}
use hass_melitta_barista_ts.Services.Targets.{is_among, listed}

-- The machine as each connectable scanner hears it, or else as Home Assistant's one device.
abbrev pub heard_devices : List Device → Option Device → List Device
heard_devices [] single = listed single
heard_devices (d ∷ ds) single = d ∷ ds

-- The devices of adapters that are not refused.
pub usable : List Text → List Device → List Device
usable refused [] = []
usable refused (d ∷ ds) =
    if is_among (scanner_source d) refused then usable refused ds else d ∷ usable refused ds

abbrev pub or_start_over : List Device → List Device → List Text → List Device × List Text
or_start_over [] devices refused = elim devices [ [] ↦ ([], refused) | d ∷ ds ↦ (d ∷ ds, []) ]
or_start_over (u ∷ us) devices refused = (u ∷ us, refused)

-- What the provider gives, and the refused adapters after it.
unfoldable pub device_provider : List Device → Option Device → List Text → List Device × List Text
unfolding usable
device_provider heard single refused =
    let devices : List Device = heard_devices heard single in
    or_start_over (usable refused devices) devices refused
