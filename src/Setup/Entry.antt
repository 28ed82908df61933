-- ===== src/Setup/Entry.antt =====
-- __init__.py, `async_setup_entry` and `async_unload_entry`, with the constructors of a client and of a
-- coordinator. The first refresh of Home Assistant's coordinator is a parameter.
pub mod Outcomes
use hass_melitta_barista_ts.Prelude.{
  ℕ, Bool, true, false, if◌then◌else◌, List, [], ◌∷◌, ◌++◌, Option, none, some,
}
use hass_melitta_barista_ts.Errors.{Exception, config_entry_not_ready}
use hass_melitta_barista_ts.Const.Recipes.{RecipeId}
use hass_melitta_barista_ts.Const.DirectKeys.{DirectKeyCategory}
use hass_melitta_barista_ts.Const.Slots.{my_coffee_profile}
use hass_melitta_barista_ts.Machine.Session.{Exchange, Session}
use hass_melitta_barista_ts.Client.Text.{Text, text}
use hass_melitta_barista_ts.Client.Adapters.{Device, Provided, many}
use hass_melitta_barista_ts.Client.State.{Failure, Opening, Advice, Client}
use hass_melitta_barista_ts.Client.Connect.{World, Outcome, done, failed}
use hass_melitta_barista_ts.Client.Bond.{async_close}
use hass_melitta_barista_ts.Coordinator.State.{C, Coordinator, MelittaData, default_brew_settings}
use hass_melitta_barista_ts.Coordinator.Lifecycle.{async_shutdown}
use hass_melitta_barista_ts.Coordinator.Polling.{Clock, async_update_data}
use hass_melitta_barista_ts.Services.Targets.{is_among}
use hass_melitta_barista_ts.Setup.Provider.{device_provider}

-- What the scanners hear of the machine at one time.
pub record Heard : Type 0 where
  pub scanned : List Device
  pub single : Option Device

-- What a new client will meet.
pub record Ahead : Type 0 where
  pub openings : List Opening
  pub script : List Exchange

-- `MelittaMachine.__init__`
abbrev pub new_session : List Exchange → Session
new_session script = record {
  key_prefix = none;
  challenge = none;
  script = script;
  sent = [];
  writes = [];
  notified = [];
}

-- `MelittaBleClient.__init__`, with what its provider gives.
abbrev pub new_client : List Device → Ahead → Client
new_client devices ahead = record {
  session = new_session ahead.script;
  link = none;
  write_char = none;
  notify_chars = [];
  closing = false;
  last_good_source = none;
  rotation = 0;
  candidates = 0;
  refused_sources = [];
  advice = Advice.no_advice;
  provided = many devices;
  openings = ahead.openings;
  asked = [];
  drawn = 0;
}

abbrev pub no_data : MelittaData
no_data = record {
  status = none;
  firmware = none;
  machine_type = none;
  total_cups = none;
  cup_counters = [];
  clock_minutes = none;
  care_counts = [];
  care_due = [];
  care_since = [];
  auto_off_after = none;
  water_hardness = none;
  profile_names = [];
}

-- `MelittaCoordinator.__init__`; a coordinator of Home Assistant starts with no failure noted.
unfoldable pub new_coordinator : Client → Coordinator
new_coordinator client = record {
  client = client;
  content = no_data;
  brew_settings = default_brew_settings;
  selected_drink = RecipeId.espresso;
  selected_profile = my_coffee_profile;
  selected_profile_drink = DirectKeyCategory.espresso;
  settings_read_at = none;
  last_success_at = none;
  counters_due = true;
  first_refresh_done = false;
  last_update_success = true;
  refreshes = 0;
  updates = 0;
}

-- What becomes of an entry: its coordinator, or the exception with the coordinator that was made, if one
-- was.
pub data SetUp : Type 0 where
  loaded : Coordinator → SetUp
  not_found : Failure → SetUp
  abandoned : Failure → Coordinator → SetUp

-- `except ConfigEntryNotReady`
abbrev pub is_not_ready : Exception → Bool
is_not_ready Exception.config_entry_not_ready = true
is_not_ready _ = false

abbrev pub closed : Coordinator → Coordinator
closed s = record s { client = async_close s.client }

abbrev pub after_refresh : Outcome (Unit {0}) → Coordinator → SetUp
after_refresh (done u) s = SetUp.loaded s
after_refresh (failed f) s = SetUp.abandoned f (if is_not_ready f.exception then closed s else s)

-- `refused.add` for each source that the client reported.
pub add_refused : List Text → List Text → List Text
add_refused refused [] = refused
add_refused refused (t ∷ rest) =
    add_refused (if is_among t refused then refused else refused ++ t ∷ []) rest

abbrev not_in_range : Text → Failure
not_in_range address = record {
  exception = config_entry_not_ready;
  message =
      text "Could not find "
      ++ address
      ++ text
          ". Make sure the machine is switched on and in range of a Bluetooth adapter or proxy.";
}

abbrev pub with_coordinator : List Text → Outcome (Unit {0}) × Coordinator → SetUp × List Text
with_coordinator refused r =
    let (o, s) = r in (after_refresh o s, add_refused refused s.client.refused_sources)

module _ (first_refresh : C (Unit {0}) → C (Unit {0})) (world : World) (clock : Clock) where
  -- The first refresh of a new coordinator, whose client asks the provider for its devices.
  abbrev pub refreshed : Heard → Ahead → List Text → SetUp × List Text
  refreshed heard ahead refused =
      let (devices, refused') = device_provider heard.scanned heard.single refused in
      with_coordinator refused'
        (first_refresh (async_update_data world clock) (new_coordinator (new_client devices ahead)))

  abbrev pub if_in_range : Text → List Device × List Text → Heard → Ahead → SetUp × List Text
  if_in_range address ([], refused) heard ahead = (SetUp.not_found (not_in_range address), refused)
  if_in_range address (d ∷ ds, refused) heard ahead = refreshed heard ahead refused

  -- The scanners are heard before the client is made and when it connects. The second part of the
  -- result is the set of refused adapters after the set-up.
  unfoldable pub async_setup_entry : Text → Heard → Heard → Ahead → List Text → SetUp × List Text
  unfolding add_refused
  async_setup_entry address before during ahead refused =
      if_in_range address (device_provider before.scanned before.single refused) during ahead

-- `unloaded` is what Home Assistant's unloading of the platforms gives.
unfoldable pub async_unload_entry : Bool → Coordinator → Bool × Coordinator
async_unload_entry unloaded s = (unloaded, if unloaded then async_shutdown s else s)
