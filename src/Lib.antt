-- ===== src/Lib.antt =====
-- The Melitta Barista TS integration for Home Assistant, custom_components/melitta_barista_ts: the wire
-- protocol of the coffee machine, the request layer, the Bluetooth client, the coordinator, the services,
-- the entities and the set-up.
--
-- The parts, from the machine up. Paths are below custom_components/melitta_barista_ts.
--
--   const.py        Const: frame table and cipher material (Framing, Crypto), the enumerations with their
--                   numbers, slugs and labels (Enum, Status, Recipes, DirectKeys, Brewing, Settings), and
--                   the register arithmetic (Slots).
--   protocol.py     Protocol: `rc4` (Rc4), `checksum` and `hu_verifier` (Checksum), `struct` packing
--                   (Words), the payload classes (Recipe, Status, Values), `build_frame` and
--                   `chunk_for_ble` (Frame), and `FrameParser` (Parser).
--   machine.py      Machine: the session with `_request` and `_on_frame` (Session), `handshake`, the reads
--                   (Reads), the writes (Writes), `_apply_overrides` (Overrides) and `brew` (Brew), each
--                   request as one call; and `_waiters` with `_request_lock` under several tasks, frames
--                   and resets, as a step relation (Waiters).
--   client.py       Client: `_pick_device` (Adapters), the characteristics to use (Characteristics),
--                   `async_connect` and `async_run` (Connect) on the state in State, and
--                   `async_clear_bond` and `async_close` (Bond).
--   coordinator.py  Coordinator: the state (State), the profile picker (Profiles), the commands
--                   (Commands), `_async_update_data` (Polling), `async_repair_connection` and
--                   `async_shutdown` (Lifecycle).
--   services.py     Services: which coordinators a call is about (Targets), the handlers' state (Store),
--                   the brew service with its schema (Requests), the other handlers (Calls), and the scan
--                   of registers (Scan).
--   entity.py, select.py, switch.py, number.py, button.py, sensor.py, binary_sensor.py
--                   Entities: availability (Base), Selects, Numbers, Buttons, Sensors and Binary.
--   __init__.py, config_flow.py, pairing.py
--                   Setup: the device provider (Provider), setting an entry up and unloading it (Entry),
--                   the steps of the config flow (Flow) with Home Assistant around them (Flow/Entries),
--                   and the pairing agent (Agent).
--
-- A service or an entity calls the coordinator; the coordinator passes an action to the client's
-- `async_run`, which connects with the devices of the provider and gives the action the machine; the
-- machine builds and parses frames by the protocol.
--
-- Prelude holds shared lists, integers, bit operations and dicts, Errors the exceptions, Tests runs at
-- concrete inputs.
--
-- A class is a record and its methods are functions on that record, under the source's names without
-- leading underscores. The two classes of payloads that have a `from_payload` each keep it in their own
-- module. A method that may raise returns `Result` or, with a message, `Outcome`; an exception passes on
-- with the state that it was raised in. A byte is a number below 256 and a byte string a list; a text is
-- a list of code points. The integers of `struct` are `ℤ` with the bounds that packing checks.
--
-- What the program meets is data. A request takes the next `Exchange` of the session's script: whether a
-- write fails, and the frames that arrive until it is answered, or the loss of the link. The script that
-- ends is silence, which is the timeout. Requests come one at a time, as the request lock makes them. A
-- connect takes the next `Opening` of the client's script. `World` holds what `os.urandom` gives and the
-- texts of exceptions. The clock is a number that a byte arrives with, or that a poll reads.
--
-- Home Assistant and the system's Bluetooth stack are parameters: the registries with the order in which
-- Python walks a set (`Hass`), the devices that the scanners hear, what the message bus of the pairing
-- agent allows (`Bus`), what clearing a bond meets (`Clearing`), and the first refresh of a coordinator.
-- What Home Assistant does with the result of a flow's step is a step relation.
--
-- Loops run over the list that they consume, and a scan over its number of registers. Three have fuel:
-- the cutting of a frame, with a round for each byte; the digits of a number, with more rounds than it
-- can have; and a register read, whose two attempts are the source's own bound.
--
-- Not modelled: the decoding of UTF-8 with replacement, and white space beyond ASCII; registering
-- listeners, entities and services; the number ranges that voluptuous checks for the services other than
-- brewing, and the writing of a payload in hexadecimal; the descriptions of entities; what the set-up of
-- an entry does after its first refresh, and the options flow, which pass values to Home Assistant;
-- brand.py, which serves files; diagnostics.py, which dumps fields; and the scheduling of polls, which is
-- Home Assistant's.
pub mod Prelude
pub mod Errors
pub mod Const
pub mod Protocol
pub mod Machine
pub mod Entities
pub mod Services
pub mod Setup
pub mod Tests
pub mod Client
pub mod Coordinator
