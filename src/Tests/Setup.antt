-- ===== src/Tests/Setup.antt =====
-- Concrete runs of the set-up, the waiter table, and the end of a session.
use hass_melitta_barista_ts.Prelude.{ℕ, ◌≡◌, refl, true, false, List, [], ◌∷◌, some, none}
use hass_melitta_barista_ts.Prelude.In.{In}
use hass_melitta_barista_ts.Const.Framing.{Command, cmd_read_numerical, cmd_ack}
use hass_melitta_barista_ts.Client.Text.{text}
use hass_melitta_barista_ts.Client.Adapters.{Device, scanner_source, many, pick_device}
use hass_melitta_barista_ts.Client.State.{Failure}
use hass_melitta_barista_ts.Client.Connect.{failed}
use hass_melitta_barista_ts.Client.Bond.{Clearing, async_clear_bond}
use hass_melitta_barista_ts.Client.Bond.Shutdown.{Cleared, async_clear_bond_lem}
use hass_melitta_barista_ts.Machine.Session.{Key, resolves}
use hass_melitta_barista_ts.Machine.Waiters.{
  Future, Request, Waiting, idle, on_frame, begin, finish, reset, Step, Reach,
}
use hass_melitta_barista_ts.Machine.Waiters
use hass_melitta_barista_ts.Machine.Waiters.Exclusive.{IsExclusive, waiters_lem}
use hass_melitta_barista_ts.Setup.Provider.{device_provider, heard_devices}
use hass_melitta_barista_ts.Errors.{Exception}
use hass_melitta_barista_ts.Client.Connect.{Outcome, done, failed}
use hass_melitta_barista_ts.Client.State.{Opening}
use hass_melitta_barista_ts.Coordinator.State.{C, Coordinator}
use hass_melitta_barista_ts.Coordinator.Polling.{Clock}
use hass_melitta_barista_ts.Setup.Entry.{Heard, Ahead, async_setup_entry}
use hass_melitta_barista_ts.Setup.Entry.Outcomes.{raised, Refreshes, Decided, async_setup_entry_lem}
use hass_melitta_barista_ts.Setup.Provider.Choices.{Provides, device_provider_lem}
use hass_melitta_barista_ts.Setup.Flow.{Info, new_flow, async_step_bluetooth}
use hass_melitta_barista_ts.Setup.Flow.Entries
use hass_melitta_barista_ts.Setup.Flow.Entries.{Stage, System}
use hass_melitta_barista_ts.Setup.Flow.Unique.{IsSound, Reach-IsSound}
use hass_melitta_barista_ts.Setup.Agent.{Bus, no_agent, async_ensure_agent}
use hass_melitta_barista_ts.Setup.Agent.Lifetime.{Call, run_calls, Holds, agent_lem}
use hass_melitta_barista_ts.Tests.Barista.{unreachable, world}

-- A request waits for register 11, and the acknowledgement of another write arrives.
abbrev asked : Waiting
asked = on_frame cmd_ack [] (begin (Key.reply cmd_read_numerical) idle)

waiters_example :
    IsExclusive asked
    × ((r : Request)
        → asked.holder ≡ some r
        → r.future ≡ Future.pending
        → (command : Command) (payload p : List ℕ) → resolves command payload ≡ (r.key, p)
        → (t : Request) × ((on_frame command payload asked).holder ≡ some t)
          × (t.future ≡ Future.answered p)
          × (t.number ≡ r.number))
waiters_example = waiters_lem asked (
    Waiters.Reach.next
      (Waiters.Reach.next Waiters.Reach.here
        (Waiters.Step.begins (Key.reply cmd_read_numerical) refl))
      (Waiters.Step.arrives cmd_ack []))

abbrev proxy : Device
proxy = record {
  address = text "FC";
  details = some (record { source = some (text "proxy"); path = none });
}

device_provider_example :
    let (given, after) = device_provider (proxy ∷ []) none (text "hci0" ∷ []) in
    Provides (proxy ∷ []) given (text "hci0" ∷ []) after
    × ((d : Device) × ((pick_device (many given) (some (text "hci0")) 3).0 ≡ some d)
        × In d (proxy ∷ [])
        × (¬ In (scanner_source d) after))
device_provider_example =
    device_provider_lem proxy [] none (text "hci0" ∷ []) (some (text "hci0")) 3

abbrev advert : Info
advert = record { address = text "FC"; name = some (text "860400E2"); service_uuids = [] }

abbrev nobody : System
nobody = record { entries = []; flows = λ i. (Stage.over, new_flow) }

abbrev discovered : System
discovered = Entries.settle nobody 0 (async_step_bluetooth [] false advert new_flow)

nobody-IsSound : IsSound nobody
nobody-IsSound = record { unique = tt; waits = λ i. tt }

Reach-IsSound_example : IsSound discovered
Reach-IsSound_example =
    Reach-IsSound nobody-IsSound
      (Entries.Reach.next Entries.Reach.here (Entries.Step.discovers 0 false advert))

abbrev works : Bus
works = record { importable = true; reachable = true; registers = true }

abbrev no_bluez : Bus
no_bluez = record { importable = true; reachable = true; registers = false }

agent_example :
    let a = run_calls no_agent (Call.ensure no_bluez ∷ Call.ensure works ∷ Call.release ∷ []) in
    Holds a × ((async_ensure_agent works a).0 ≡ (async_ensure_agent works a).1.registered)
agent_example = agent_lem (Call.ensure no_bluez ∷ Call.ensure works ∷ Call.release ∷ []) works

abbrev clearing : Clearing
clearing = record { reach = none; unpair = none; leave = none }

async_clear_bond_example :
    let (o, c') = async_clear_bond world clearing unreachable in
    ((d : Device) → (pick_device (many []) none 0).0 ≡ some d → Cleared o unreachable c')
    × ((pick_device (many []) none 0).0 ≡ none
        → ((f : Failure) × (o ≡ failed f))
          × (c'.link ≡ unreachable.link)
          × (c'.session ≡ unreachable.session))
async_clear_bond_example = async_clear_bond_lem world clearing unreachable

-- The first refresh of Home Assistant, as far as it is relied on.
abbrev noted : Outcome (Unit {0}) → Coordinator → Outcome (Unit {0}) × Coordinator
noted (done u) s = (done u, record s { last_update_success = true })
noted (failed f) s = (
  failed (record { exception = raised f.exception; message = f.message }),
  record s { last_update_success = false },
)

abbrev first_refresh : C (Unit {0}) → C (Unit {0})
first_refresh update s = let (o, s') = update s in noted o s'

first_refresh-Refreshes : Refreshes first_refresh
first_refresh-Refreshes = record {
  succeeds = λ update s e. rw e refl;
  fails = λ update s f e. rw e (_, refl, refl, refl);
}

abbrev near : Heard
near = record { scanned = proxy ∷ []; single = none }

-- A machine that is heard and refuses the link.
abbrev asleep : Ahead
asleep = record {
  openings = Opening.no_link (record { exception = Exception.bleak_error; message = [] }) ∷ [];
  script = [];
}

abbrev noon : Clock
noon = record { at_due = 5; at_settings = 6; at_success = 7 }

async_setup_entry_example :
    Decided first_refresh world noon
      (heard_devices near.scanned near.single)
      []
      (device_provider near.scanned near.single [])
      (async_setup_entry first_refresh world noon (text "FC") near near asleep [])
      near
      asleep
async_setup_entry_example =
    async_setup_entry_lem first_refresh world noon (text "FC") near near asleep []
      first_refresh-Refreshes
