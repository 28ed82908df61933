-- ===== src/Machine/Session.antt =====
-- machine.py: the session, `_on_frame`, `_send` and `_request`, one request at a time, as the request
-- lock makes them. What happens while a request waits is a script: for each request whether a write
-- fails, and what arrives until it is answered. The script that ends means silence.
pub mod Laws
pub mod Acknowledge
use hass_melitta_barista_ts.Prelude.{
  ℕ, ◌+◌, Bool, true, false, if◌then◌else◌, List, [], ◌∷◌, ◌++◌, Option, none, some, bytes_eq, take,
}
use hass_melitta_barista_ts.Errors.{
  Exception, command_timeout, timeout_error, cancelled_error, Result, ok, err, not_acknowledged,
}
use hass_melitta_barista_ts.Const.Framing.{Command, cmd_ack, cmd_nack, cmd_read_status, ble_mtu}
use hass_melitta_barista_ts.Protocol.Frame.{build_frame, chunk_for_ble}
use hass_melitta_barista_ts.Protocol.Status
use hass_melitta_barista_ts.Protocol.Status.{MachineStatus}

-- What a waiter waits for: an acknowledgement (`_ACK_KEY`), or the frame of a command.
pub data Key : Type 0 where
  ack : Key
  reply : Command → Key

pub data Event : Type 0 where
  frame : Command → List ℕ → Event
  link_lost : Event

-- One request's part of the script. `failure` is the number of writes that went out before one raised.
pub record Exchange : Type 0 where
  pub failure : Option (ℕ × Exception)
  pub events : List Event

pub record Session : Type 0 where
  pub key_prefix : Option (List ℕ)
  pub challenge : Option (List ℕ)
  pub script : List Exchange
  -- Requests in the order in which they were sent, and the writes that carried them.
  pub sent : List (Command × List ℕ)
  pub writes : List (List ℕ)
  -- What the status listeners were called with.
  pub notified : List MachineStatus

-- `ready`
abbrev pub ready : Session → Bool
ready s = elim s.key_prefix [ none ↦ false | some k ↦ true ]

abbrev pub M : Type 0 → Type 0
M A = Session → Result A × Session

abbrev pub pure : {A : Type 0} → A → M A
pure a s = (ok a, s)

abbrev pub raise : {A : Type 0} → Exception → M A
raise e s = (err e, s)

abbrev pub lift : {A : Type 0} → Result A → M A
lift r s = (r, s)

abbrev continue : {A B : Type 0} → Result A → (A → M B) → Session → Result B × Session
continue (ok a) f s = f a s
continue (err e) f s = (err e, s)

infixl 5 ◌>>=◌ ◌>>◌
abbrev pub ◌>>=◌ : {A B : Type 0} → M A → (A → M B) → M B
◌>>=◌ m f s = let (r, s') = m s in continue r f s'

abbrev pub ◌>>◌ : {A B : Type 0} → M A → M B → M B
m >> n = m >>= λ _. n

-- `MelittaMachine.reset`: the pending request, if any, is cancelled where the event is met.
unfoldable pub reset : Session → Session
reset s = record s { key_prefix = none; challenge = none }

-- `_on_frame`: the key that a frame resolves, and with what.
unfoldable pub resolves : Command → List ℕ → Key × List ℕ
resolves command payload =
    if bytes_eq command cmd_ack
    then (ack, 1 ∷ [])
    else if bytes_eq command cmd_nack
    then (ack, [])
    else (reply command, payload)

abbrev pub key_eq : Key → Key → Bool
key_eq ack ack = true
key_eq ack (reply d) = false
key_eq (reply c) ack = false
key_eq (reply c) (reply d) = bytes_eq c d

-- `_notify_status`: a payload that does not decode is ignored.
pub notify_status : Command → List ℕ → Session → Session
notify_status command payload s =
    if bytes_eq command cmd_read_status
    then elim (Status.from_payload payload) [
      | ok status ↦ record s { notified = s.notified ++ status ∷ [] }
      | err e ↦ s
    ]
    else s

-- The wait for the future under `key`. The list that ends is the timeout; a lost link cancels the
-- future, and the CancelledError reaches the caller.
unfoldable pub wait_for : Key → List Event → M (List ℕ)
unfolding notify_status resolves reset
wait_for key [] s = (err command_timeout, s)
wait_for key (link_lost ∷ rest) s = (err cancelled_error, reset s)
wait_for key (frame command payload ∷ rest) s =
    let s' : Session = notify_status command payload s in
    let (k, answer) = resolves command payload in
    let later = wait_for key rest s' in if key_eq k key then (ok answer, s') else later

-- `except TimeoutError`: also one that a write raised.
abbrev as_command_timeout : Exception → Exception
as_command_timeout Exception.timeout_error = command_timeout
as_command_timeout e = e

-- The writes of one frame and the wait. A failure of a write ends the request there.
unfoldable pub exchange : Key → List (List ℕ) → Exchange → M (List ℕ)
unfolding wait_for
exchange key chunks x s = elim x.failure [
  | some (n, e) ↦ (err (as_command_timeout e), record s { writes = s.writes ++ take n chunks })
  | none ↦ wait_for key x.events (record s { writes = s.writes ++ chunks })
]

abbrev pub silence : Exchange
silence = record { failure = none; events = [] }

-- The next part of the script.
abbrev pub next_exchange : Session → Exchange × Session
next_exchange s = elim s.script [ [] ↦ (silence, s) | x ∷ rest ↦ (x, record s { script = rest }) ]

abbrev pub or_none : Bool → Option (List ℕ) → Option (List ℕ)
or_none handshake key_prefix = if handshake then none else key_prefix

-- `_request`, with `_send` in it.
unfoldable pub request : Command → List ℕ → Key → Bool → M (List ℕ)
unfolding exchange
request command payload key handshake s =
    let built : List ℕ = build_frame command (some payload) (or_none handshake s.key_prefix) true in
    let (x, s') = next_exchange s in
    let s'' : Session = record s' { sent = s'.sent ++ (command, payload) ∷ [] } in
    elim (chunk_for_ble built ble_mtu) [
      | err e ↦ (err e, s)
      | ok chunks ↦ exchange key chunks x s''
    ]

abbrev is_empty : List ℕ → Bool
is_empty [] = true
is_empty (b ∷ bs) = false

-- `_request_ack`
unfoldable pub request_ack : Command → List ℕ → M (Unit {0})
unfolding request
request_ack command payload = do
  answer ← request command payload ack false
  if is_empty answer then raise not_acknowledged else pure tt

-- What goes on while the caller sleeps.
pub idle_events : List Event → Session → Session
unfolding notify_status reset
idle_events [] s = s
idle_events (link_lost ∷ rest) s = idle_events rest (reset s)
idle_events (frame command payload ∷ rest) s = idle_events rest (notify_status command payload s)

-- `asyncio.sleep`
unfoldable pub sleep : M (Unit {0})
unfolding idle_events
sleep s = let (x, s') = next_exchange s in (ok tt, idle_events x.events s')
