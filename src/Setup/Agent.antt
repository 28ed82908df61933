-- ===== src/Setup/Agent.antt =====
-- pairing.py, the agent's registration, and brand.py. What the system bus does is an argument.
pub mod Lifetime
use hass_melitta_barista_ts.Prelude.{
  ℕ, suc, Bool, true, false, ◌&&◌, if◌then◌else◌, List, [], ◌∷◌, ◌==◌, not, Option, none, some,
}

-- Whether dbus-fast is there, and which steps of a registration raise; suppressed are a refusal as
-- default agent and what is raised while the bus is left.
pub record Bus : Type 0 where
  pub importable : Bool
  pub reachable : Bool
  pub registers : Bool

-- `_registered` and `_bus`, which numbers the connection; what was opened and not closed again, and the
-- connections that hold an agent.
pub record Agent : Type 0 where
  pub registered : Bool
  pub bus : Option ℕ
  pub connections : List ℕ
  pub opened : ℕ

abbrev pub no_agent : Agent
no_agent = record { registered = false; bus = none; connections = []; opened = 0 }

-- The connection that is made next, once it is made.
abbrev with_connection : Agent → Agent
with_connection a = record a { connections = a.opened ∷ a.connections; opened = suc a.opened }

-- `bus.disconnect()`
abbrev pub dropped : ℕ → List ℕ → List ℕ
dropped c [] = []
dropped c (d ∷ ds) = if c == d then ds else d ∷ dropped c ds

-- `async_ensure_agent`, under the lock.
unfoldable pub async_ensure_agent : Bus → Agent → Bool × Agent
async_ensure_agent x a =
    if a.registered
    then (true, a)
    else if not (x.importable && x.reachable)
    then (false, a)
    else if x.registers
    then (true, record (with_connection a) { registered = true; bus = some a.opened })
    else (
      false,
      record (with_connection a) { connections = dropped a.opened (with_connection a).connections },
    )

abbrev release : Agent → Option ℕ → Agent
release a none = a
release a (some c) = record a {
  registered = false;
  bus = none;
  connections = dropped c a.connections;
}

-- `async_release_agent`, under the lock.
unfoldable pub async_release_agent : Agent → Agent
async_release_agent a = if not a.registered then a else release a a.bus
