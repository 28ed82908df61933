-- ===== src/Client/Connect.antt =====
-- client.py, `async_connect` and `async_run` with what they call. A link lost while a request waits is
-- in the session's script; one lost while writing shows as the failure of that write.
pub mod Outcomes
pub mod Running
use hass_melitta_barista_ts.Prelude.{
  ℕ, suc, ◌+◌, Bool, true, false, if◌then◌else◌, ltb, List, [], ◌∷◌, ◌++◌, Option, none, some, ◌||◌,
  ◌&&◌, bytes_eq,
}
use hass_melitta_barista_ts.Errors.{
  Exception, connection_error, bleak_error, timeout_error, cancelled_error, Result, ok, err,
  is_machine_error,
}
use hass_melitta_barista_ts.Machine.Session
use hass_melitta_barista_ts.Machine.Session.{M}
use hass_melitta_barista_ts.Machine.Handshake.{handshake}
use hass_melitta_barista_ts.Client.Text.{Text, text, lower, contains}
use hass_melitta_barista_ts.Client.Adapters.{Device, scanner_source, pick_device}
use hass_melitta_barista_ts.Client.Characteristics.{
  Characteristic, write_char_candidates, notify_chars,
}
use hass_melitta_barista_ts.Client.State.{
  Failure, Link, Opening, no_link, link_up, Advice, try_other_adapters, only_adapter_refused,
  enable_pairing, no_advice, Client, connected, disconnected,
}

-- `os.urandom`, the texts of the machine layer's exceptions, and the client's name and timeout as text.
pub record World : Type 0 where
  pub urandom : ℕ → List ℕ
  pub describe : Exception → Text
  pub name : Text
  pub connect_timeout : Text

pub data Outcome (A : Type 0) : Type 0 where
  done : A → Outcome A
  failed : Failure → Outcome A

abbrev pub is_timeout : Exception → Bool
is_timeout Exception.timeout_error = true
is_timeout _ = false

abbrev pub is_cancelled : Exception → Bool
is_cancelled Exception.cancelled_error = true
is_cancelled _ = false

abbrev pub is_bleak : Exception → Bool
is_bleak Exception.bleak_error = true
is_bleak _ = false

-- `', '.join(...)`
pub joined : List Characteristic → Text
joined [] = []
joined (c ∷ []) = c.uuid
joined (c ∷ d ∷ rest) = c.uuid ++ text ", " ++ joined (d ∷ rest)

abbrev silence_message : Text
silence_message = text "no handshake on any writable characteristic"

-- `_went_silent`
pub went_silent : Failure → Bool
went_silent f = contains silence_message f.message

abbrev pub any_in : List Text → Text → Bool
any_in [] message = false
any_in (marker ∷ markers) message = contains marker message || any_in markers message

-- `_is_pairing_refused`
pub is_pairing_refused : Failure → Bool
is_pairing_refused f =
    any_in
      (text "pairing failed"
        ∷ text "authentication failed"
        ∷ text "authenticationfailed"
        ∷ text "authentication rejected"
        ∷ text "authenticationrejected"
        ∷ [])
      (lower f.message)

abbrev pub connection_failed : Text → Failure
connection_failed message = record { exception = connection_error; message = message }

-- `except Exception as err: raise MelittaConnectionError(f"session setup failed: {err}")`, which a
-- MelittaConnectionError and a CancelledError pass by.
abbrev pub setup_failed : Failure → Failure
setup_failed f = elim f.exception [
  | Exception.connection_error ↦ f
  | Exception.cancelled_error ↦ f
  | _ ↦ connection_failed (text "session setup failed: " ++ f.message)
]

-- The state of a client on which a failure was met: a cancelled request has lost its link.
abbrev pub after_failure : Exception → Client → Client
after_failure e c = if is_cancelled e then disconnected c else c

-- The script that ends means a timeout.
abbrev pub next_opening : Client → Opening × Client
next_opening c = elim c.openings [
  | [] ↦ (no_link (record { exception = timeout_error; message = [] }), c)
  | o ∷ rest ↦ (o, record c { openings = rest })
]

module _ (world : World) where
  -- The client that tries the next characteristic, and what the handshake on it comes to.
  abbrev pub tried : Characteristic → Client → Result (Unit {0}) × Client
  tried char c =
      let (r, s) = handshake (world.urandom c.drawn) (Session.reset c.session) in
      (r, record c { session = s; write_char = some char; drawn = suc c.drawn })

  -- `_async_handshake_on_a_working_char`, with the characteristics left and the last error's text.
  unfoldable pub handshake_loop :
      List Characteristic → List Characteristic → Text → Client → Outcome (Unit {0}) × Client
  handshake_loop every [] last_error c = (
    failed (
        connection_failed
          (silence_message ++ text " (" ++ joined every ++ text "): " ++ last_error)),
    record c { write_char = none },
  )
  handshake_loop every (char ∷ chars) last_error c =
      let (r, c') = tried char c in
      elim r [
        | ok u ↦ (done u, c')
        | err e ↦
            let next = handshake_loop every chars (world.describe e) c' in
            if is_machine_error e || is_timeout e then next else (
              failed (setup_failed (record { exception = e; message = world.describe e })),
              after_failure e c',
            )
      ]

  -- The two `except` clauses round `establish_connection`.
  abbrev pub link_failure : Device → Failure → Failure
  link_failure device f = elim f.exception [
    | Exception.timeout_error ↦ connection_failed (
        text "connect via "
        ++ scanner_source device
        ++ text " timed out after "
        ++ world.connect_timeout
        ++ text "s")
    | Exception.bleak_error ↦ connection_failed (text "could not connect: " ++ f.message)
    | _ ↦ f
  ]

  abbrev pub service_message : Link → Text → Text
  service_message link message = elim link.service [
    | none ↦ text "service 0000ad00-b35c-11e4-9813-0002a5d5c51b not found on the device"
    | some chars ↦ message
  ]

  -- What follows once the link is up.
  pub set_up : Link → Option Failure → Client → Outcome (Unit {0}) × Client
  unfolding handshake_loop
  set_up link subscription c = elim (write_char_candidates link.service) [
    | err e ↦ (
      failed (
          connection_failed
            (service_message link (text "no writable characteristic in the vendor service"))),
      c,
    )
    | ok chars ↦ elim (notify_chars link.service) [
      | err e ↦ (
        failed (
            connection_failed
              (service_message link (text "no notify characteristic in the vendor service"))),
        c,
      )
      | ok uuids ↦ elim subscription [
        | some f ↦
            (failed (setup_failed f), after_failure f.exception (record c { notify_chars = uuids }))
        | none ↦ handshake_loop chars chars (text "None") (record c { notify_chars = uuids })
      ]
    ]
  ]

  -- `_async_open_session`
  unfoldable pub open_session : Device → Bool → Client → Outcome (Unit {0}) × Client
  unfolding set_up
  open_session device pair c =
      let (o, c') = next_opening c in
      let c'' : Client = record c' { asked = c'.asked ++ pair ∷ [] } in
      elim o [
        | no_link f ↦ (failed (link_failure device f), c'')
        | link_up link subscription ↦ set_up link subscription (record c'' { link = some link })
      ]

  abbrev same_source : Option Text → Text → Bool
  same_source none source = false
  same_source (some t) source = bytes_eq t source

  abbrev advise : Bool → Bool → ℕ → Advice
  advise refused silent_machine candidates =
      if refused && ltb 1 candidates
      then try_other_adapters candidates
      else if refused
      then only_adapter_refused
      else if silent_machine
      then enable_pairing
      else no_advice

  -- The end of `async_connect`, when no attempt came through.
  unfoldable pub give_up : Device → Failure → Bool → Bool → Client → Outcome (Unit {0}) × Client
  give_up device last_error silent_machine refused c =
      let source : Text = scanner_source device in
      (
        failed (
            connection_failed (
              text "could not establish a session with "
              ++ world.name
              ++ text ": "
              ++ last_error.message)),
        record c {
          rotation = suc c.rotation;
          advice = advise refused silent_machine c.candidates;
          last_good_source =
              if refused && same_source c.last_good_source source then none else c.last_good_source;
          refused_sources = if refused then c.refused_sources ++ source ∷ [] else c.refused_sources;
        },
      )

  -- The attempts, with the `pair` arguments left.
  unfoldable pub ladder :
      Device → List Bool → Failure → Bool → Bool → Client → Outcome (Unit {0}) × Client
  unfolding open_session give_up went_silent is_pairing_refused
  ladder device [] last_error silent_machine refused c =
      give_up device last_error silent_machine refused c
  ladder device (pair ∷ pairs) last_error silent_machine refused c =
      let (r, c') = open_session device pair c in
      elim r [
        | done u ↦ (done u, record c' { last_good_source = some (scanner_source device) })
        | failed f ↦
            let next =
              ladder device pairs f (silent_machine || went_silent f)
                (refused || is_pairing_refused f) (disconnected c') in
            if is_machine_error f.exception || is_bleak f.exception then next else (failed f, c')
      ]

  abbrev pub no_error : Failure
  no_error = connection_failed (text "None")

  unfoldable pub async_connect : Client → Outcome (Unit {0}) × Client
  unfolding ladder
  async_connect c =
      let c' : Client = disconnected c in
      let (device, n) = pick_device c'.provided c'.last_good_source c'.rotation in
      let c'' : Client = record c' { candidates = n } in
      if connected c then (done tt, c) else elim device [
        | none ↦ (
          failed (
              connection_failed
                (world.name ++ text " is not currently visible to any Bluetooth adapter")),
          c'',
        )
        | some d ↦ ladder d (false ∷ true ∷ []) no_error false false c''
      ]

  -- The action of `async_run`, and its `except` clause.
  unfoldable pub run_action : {A : Type 0} → M A → Client → Outcome A × Client
  run_action action c =
      let (r, s) = action c.session in
      let c' : Client = record c { session = s } in
      elim r [
        | ok a ↦ (done a, c')
        | err e ↦
            if is_bleak e || is_timeout e
            then (
              failed (connection_failed (text "transport error: " ++ world.describe e)),
              disconnected c',
            )
            else (failed (record { exception = e; message = world.describe e }), after_failure e c')
      ]

  -- What is refused while the client shuts down.
  abbrev pub shut : {A : Type 0} → Client → Outcome A × Client
  shut c = (failed (connection_failed (text "client is shutting down")), c)

  -- `async_run` after its connect.
  unfoldable pub resume : {A : Type 0} → M A → Outcome (Unit {0}) → Client → Outcome A × Client
  unfolding run_action
  resume action (done u) c = run_action action c
  resume action (failed f) c = (failed f, c)

  unfoldable pub async_run : {A : Type 0} → M A → Client → Outcome A × Client
  unfolding async_connect resume
  async_run action c =
      let (r, c') = async_connect c in if c.closing then shut c else resume action r c'
