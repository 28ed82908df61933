-- ===== src/Client/Bond.antt =====
-- client.py: clearing a bond, and shutting down.
pub mod Shutdown
use hass_melitta_barista_ts.Prelude.{
  Bool, true, false, ◌||◌, if◌then◌else◌, Option, none, some, ◌++◌,
}
use hass_melitta_barista_ts.Errors.{Exception}
use hass_melitta_barista_ts.Client.Text.{text}
use hass_melitta_barista_ts.Client.Adapters.{Device, pick_device}
use hass_melitta_barista_ts.Client.State.{Failure, Client, disconnected}
use hass_melitta_barista_ts.Client.Connect.{
  World, Outcome, done, failed, connection_failed, is_bleak, is_timeout,
}

abbrev is_os_error : Exception → Bool
is_os_error Exception.os_error = true
is_os_error _ = false

-- What the three calls of the Bluetooth stack come to while a bond is cleared: the connection, the
-- unpairing and the disconnection. None is a call that returns.
pub record Clearing : Type 0 where
  pub reach : Option Failure
  pub unpair : Option Failure
  pub leave : Option Failure

abbrev is_suppressed : Failure → Bool
is_suppressed f = is_bleak f.exception || is_os_error f.exception || is_timeout f.exception

-- The `except` clause of the unpairing; a TimeoutError is an OSError. A stack that has no such call
-- raises NotImplementedError or AttributeError, which is caught with these and left out here.
abbrev after_unpair : Option Failure → Outcome (Unit {0})
after_unpair none = done tt
after_unpair (some f) = if is_suppressed f then done tt else failed f

-- The `finally` clause: what disconnecting raises takes the place of what went before.
abbrev left : Option Failure → Outcome (Unit {0}) → Outcome (Unit {0})
left none before = before
left (some f) before = if is_suppressed f then before else failed f

-- `_async_clear_bond`
unfoldable pub forget_bond : Clearing → Outcome (Unit {0})
forget_bond x = elim x.reach [
  | some f ↦ if is_suppressed f then done tt else failed f
  | none ↦ left x.leave (after_unpair x.unpair)
]

abbrev pub after_clearing : Outcome (Unit {0}) → Client → Outcome (Unit {0}) × Client
after_clearing (done u) c = (done tt, record c { last_good_source = none })
after_clearing (failed f) c = (failed f, c)

unfoldable pub async_clear_bond : World → Clearing → Client → Outcome (Unit {0}) × Client
unfolding forget_bond
async_clear_bond world x c =
    let (device, n) = pick_device c.provided c.last_good_source c.rotation in
    let c' : Client = record c { candidates = n } in
    elim device [
      | none ↦ (
        failed (
            connection_failed
              (world.name ++ text " is not currently visible to any Bluetooth adapter")),
        c',
      )
      | some d ↦ after_clearing (forget_bond x) (disconnected c')
    ]

-- `async_disconnect`; `_async_disconnect_locked` swallows what the disconnection raises.
unfoldable pub async_disconnect : Client → Client
async_disconnect c = disconnected c

unfoldable pub async_close : Client → Client
unfolding async_disconnect
async_close c = async_disconnect (record c { closing = true })
