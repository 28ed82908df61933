-- ===== src/Tests/Services.antt =====
-- Concrete runs of services.py.
use hass_melitta_barista_ts.Prelude.{
  ℕ, ◌≡◌, ◌↔◌, refl, List, [], ◌∷◌, some, none, bytes_eq, if◌then◌else◌,
}
use hass_melitta_barista_ts.Prelude.In.{In}
use hass_melitta_barista_ts.Prelude.Int.{pos}
use hass_melitta_barista_ts.Errors.{Exception, ok, err, service_validation_error}
use hass_melitta_barista_ts.Const.Framing.{cmd_read_numerical}
use hass_melitta_barista_ts.Machine.Session.{frame, silence, request}
use hass_melitta_barista_ts.Machine.Reads.{read_numerical}
use hass_melitta_barista_ts.Protocol.Words.{pack_i16, unpack_i16, unpack_i32}
use hass_melitta_barista_ts.Protocol.Frame.{chunk_for_ble}
use hass_melitta_barista_ts.Protocol.Values.{numerical_from_payload}
use hass_melitta_barista_ts.Client.Text.{text}
use hass_melitta_barista_ts.Client.State.{connected}
use hass_melitta_barista_ts.Client.Connect.{World, done, async_run}
use hass_melitta_barista_ts.Client.Bond.{Clearing}
use hass_melitta_barista_ts.Coordinator.Commands.{async_read_setting}
use hass_melitta_barista_ts.Coordinator.State.{Coordinator}
use hass_melitta_barista_ts.Services.Store.{Store}
use hass_melitta_barista_ts.Services.Targets.{
  Hass, Target, coordinators, one_coordinator, domain_name,
}
use hass_melitta_barista_ts.Services.Targets.Entries.{WalksSets}
use hass_melitta_barista_ts.Services.Targets.Found.{NoneTwice}
use hass_melitta_barista_ts.Services.Targets.Resolved.{Reaches, coordinators_lem}
use hass_melitta_barista_ts.Services.Requests.{BrewCall}
use hass_melitta_barista_ts.Services.Contained.{Contained}
use hass_melitta_barista_ts.Services.Scan.{Scan, scan_settings_service}
use hass_melitta_barista_ts.Services.Scan.Ledger.{Scanned, scan_settings_service_lem}
use hass_melitta_barista_ts.Tests.Barista.{kitchen, unreachable, world}

-- One machine with an entity and a device, and an entry of another integration on the same device.
abbrev hass : Hass
hass = record {
  devices =
      λ id. if bytes_eq id (text "machine") then some (text "entry" ∷ text "other" ∷ []) else none;
  entities = λ id.
      if bytes_eq id (text "select.drink")
      then some
          (record { device_id = some (text "machine"); config_entry_id = some (text "entry") })
      else none;
  devices_in_area = λ area. [];
  entities_in_area =
      λ area. if bytes_eq area (text "kitchen") then text "select.drink" ∷ [] else [];
  entries = λ id.
      if bytes_eq id (text "entry")
      then some (record { domain = domain_name; runtime_data = some 7 })
      else some (record { domain = text "bluetooth"; runtime_data = none });
  walk = λ xs. xs;
}

walks : WalksSets hass
walks xs a = ((λ h. h), (λ h. h))

abbrev in_kitchen : Target
in_kitchen = record { device_id = []; entity_id = []; area_id = text "kitchen" ∷ [] }

kitchen_machine : coordinators hass in_kitchen ≡ ok (7 ∷ [])
unfolding coordinators bytes_eq
kitchen_machine = refl

coordinators_example :
    ((found : List ℕ)
      → coordinators hass in_kitchen ≡ ok found
      → NoneTwice found × ((c : ℕ) → In c found ↔ Reaches hass in_kitchen c))
    × ((e : Exception)
        → coordinators hass in_kitchen ≡ err e
        → (e ≡ service_validation_error) × ((c : ℕ) → ¬ Reaches hass in_kitchen c))
coordinators_example = coordinators_lem hass walks in_kitchen

-- The machine is connected; it answers for register 11 and not for register 12.
abbrev ready : Coordinator
ready = record kitchen {
  client = record unreachable {
    session = record {
      key_prefix = some (7 ∷ 8 ∷ []);
      challenge = none;
      script =
          record {
            failure = none;
            events = frame cmd_read_numerical (0 ∷ 11 ∷ 0 ∷ 0 ∷ 0 ∷ 2 ∷ []) ∷ [];
          }
          ∷ silence
          ∷ [];
      sent = [];
      writes = [];
      notified = [];
    };
    link = some (record { service = none });
  };
}

abbrev store : Store
store c = ready

abbrev worlds : ℕ → World
worlds c = world

abbrev scan : Scan
scan = record { values = (11, pos 2) ∷ []; unreadable = 12 ∷ [] }

abbrev after_scan : Store
after_scan = (scan_settings_service hass worlds in_kitchen 11 12 store).1

scan_lem : scan_settings_service hass worlds in_kitchen 11 12 store ≡ (done scan, after_scan)
unfolding scan_settings_service one_coordinator bytes_eq async_read_setting async_run connected
    read_numerical pack_i16 request chunk_for_ble numerical_from_payload unpack_i16 unpack_i32
scan_lem = refl

scan_settings_service_example : Scanned hass worlds in_kitchen 11 12 scan store after_scan
scan_settings_service_example =
    scan_settings_service_lem hass worlds in_kitchen 11 12 store after_scan scan scan_lem

abbrev strong_cappuccino : BrewCall
strong_cappuccino = record {
  target = in_kitchen;
  drink = some "cappuccino";
  two_cups = none;
  intensity = some "strong";
  temperature = none;
  portion_ml = some (pos 120);
  bean_hopper = none;
  profile = some 1;
}

abbrev clearing : Clearing
clearing = record { reach = none; unpair = none; leave = none }
