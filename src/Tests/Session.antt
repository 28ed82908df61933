-- ===== src/Tests/Session.antt =====
-- Concrete runs of machine.py.
use hass_melitta_barista_ts.Prelude.{
  ℕ, ◌≤◌, ◌≡◌, ◌≢◌, ◌⊎◌, refl, true, false, List, [], ◌∷◌, ◌++◌, some, none, take, arith, bytes_eq,
}
use hass_melitta_barista_ts.Prelude.Int.{pos}
use hass_melitta_barista_ts.Errors.{
  Exception, command_timeout, not_acknowledged, timeout_error, cancelled_error, ok, err,
}
use hass_melitta_barista_ts.Const.Framing.{
  cmd_handshake, cmd_read_numerical, cmd_read_recipe, cmd_write_recipe, cmd_ack, cmd_nack,
}
use hass_melitta_barista_ts.Machine.Session.Acknowledge.{request_ack_lem}
use hass_melitta_barista_ts.Protocol.Checksum.{hu_verifier}
use hass_melitta_barista_ts.Protocol.Frame.{chunk_for_ble}
use hass_melitta_barista_ts.Protocol.Recipe
use hass_melitta_barista_ts.Protocol.Recipe.{MachineRecipe, RecipeComponent}
use hass_melitta_barista_ts.Protocol.Values.{numerical_from_payload}
use hass_melitta_barista_ts.Protocol.Words.{pack_i16, pack_u16, unpack_i16, unpack_i32}
use hass_melitta_barista_ts.Machine.Session.{
  Session, Exchange, Event, frame, link_lost, silence, request, request_ack, sleep, resolves,
}
use hass_melitta_barista_ts.Machine.Handshake.{accept_response, handshake}
use hass_melitta_barista_ts.Machine.Handshake.Install.{
  Installed, handshake_outcome, handshake_completes, accept_response_tampered,
}
use hass_melitta_barista_ts.Machine.Reads.{pack_id, read_numerical, read_recipe}
use hass_melitta_barista_ts.Machine.Reads.Matching.{
  ask, Own, read_numerical_retries, read_numerical-Own,
}
use hass_melitta_barista_ts.Machine.Writes.{write_recipe, write_alphanumeric, start_process}
use hass_melitta_barista_ts.Machine.Overrides.{Overrides}
use hass_melitta_barista_ts.Machine.Brew.{brew}
use hass_melitta_barista_ts.Machine.Brew.Sequence.{brew_steps, brew-Sends}

abbrev answers : Event → Exchange
answers e = record { failure = none; events = e ∷ [] }

abbrev session : List Exchange → Session
session script = record {
  key_prefix = some (9 ∷ 8 ∷ []);
  challenge = none;
  script = script;
  sent = [];
  writes = [];
  notified = [];
}

abbrev good_answer : Exchange
good_answer = answers (frame cmd_handshake (1 ∷ 2 ∷ 3 ∷ 4 ∷ 9 ∷ 8 ∷ 244 ∷ 180 ∷ []))

good_verifier : hu_verifier (1 ∷ 2 ∷ 3 ∷ 4 ∷ 9 ∷ 8 ∷ []) ≡ ok (244 ∷ 180 ∷ [])
unfolding hu_verifier
good_verifier = refl

handshake_completes_example :
    ((handshake (1 ∷ 2 ∷ 3 ∷ 4 ∷ []) (session (good_answer ∷ []))).0 ≡ ok tt)
    × ((handshake (1 ∷ 2 ∷ 3 ∷ 4 ∷ []) (session (good_answer ∷ []))).1.key_prefix
        ≡ some (9 ∷ 8 ∷ []))
handshake_completes_example =
    handshake_completes 1 2 3 4 9 8 244 180 (session (good_answer ∷ [])) [] [] good_verifier refl

handshake_outcome_example :
    Installed (1 ∷ 2 ∷ 3 ∷ 4 ∷ []) (session (good_answer ∷ []))
    ⊎ ((e : Exception) × ((handshake (1 ∷ 2 ∷ 3 ∷ 4 ∷ []) (session (good_answer ∷ []))).0 ≡ err e)
        × ((handshake (1 ∷ 2 ∷ 3 ∷ 4 ∷ []) (session (good_answer ∷ []))).1.key_prefix ≡ none))
handshake_outcome_example = handshake_outcome (1 ∷ 2 ∷ 3 ∷ 4 ∷ []) (session (good_answer ∷ []))

accept_response_tampered_example :
    accept_response (1 ∷ 2 ∷ 3 ∷ 4 ∷ []) (1 ∷ 2 ∷ 3 ∷ 4 ∷ 7 ∷ 8 ∷ 244 ∷ 180 ∷ []) ≢ ok (7 ∷ 8 ∷ [])
accept_response_tampered_example =
    accept_response_tampered (1 ∷ 2 ∷ 3 ∷ 4 ∷ []) (1 ∷ 2 ∷ 3 ∷ 4 ∷ []) (8 ∷ []) (7 ∷ 8 ∷ []) 9 7 244
      180 (omega arith) (omega arith) (omega arith, tt) (λ e. absurd (omega arith)) refl
      good_verifier

-- A late answer for register 10, and then the one for register 11.
abbrev late : List Exchange
late =
    answers (frame cmd_read_numerical (0 ∷ 10 ∷ 0 ∷ 0 ∷ 0 ∷ 1 ∷ []))
    ∷ answers (frame cmd_read_numerical (0 ∷ 11 ∷ 0 ∷ 0 ∷ 0 ∷ 2 ∷ []))
    ∷ []

abbrev after_late : Session
after_late = (ask (0 ∷ 11 ∷ []) (session late)).1

abbrev after_fresh : Session
after_fresh = (ask (0 ∷ 11 ∷ []) after_late).1

ask-late : ask (0 ∷ 11 ∷ []) (session late) ≡ (ok (0 ∷ 10 ∷ 0 ∷ 0 ∷ 0 ∷ 1 ∷ []), after_late)
unfolding request chunk_for_ble bytes_eq
ask-late = refl

ask-fresh : ask (0 ∷ 11 ∷ []) after_late ≡ (ok (0 ∷ 11 ∷ 0 ∷ 0 ∷ 0 ∷ 2 ∷ []), after_fresh)
unfolding request chunk_for_ble bytes_eq
ask-fresh = refl

read_numerical_retries_example :
    (pos 11 ≡ pos 11 → read_numerical (pos 11) (session late) ≡ (ok (pos 2), after_fresh))
    × (true ≡ false → read_numerical (pos 11) (session late) ≡ (err command_timeout, after_fresh))
unfolding pack_i16 unpack_i16 unpack_i32
read_numerical_retries_example =
    read_numerical_retries (pos 11) (0 ∷ 11 ∷ []) (0 ∷ 10 ∷ 0 ∷ 0 ∷ 0 ∷ 1 ∷ [])
      (0 ∷ 11 ∷ 0 ∷ 0 ∷ 0 ∷ 2 ∷ []) (record { value_id = pos 10; value = pos 1 })
      (record { value_id = pos 11; value = pos 2 }) (session late) after_late after_fresh
      (unfold pack_id in refl) ask-late (unfold numerical_from_payload in refl) refl ask-fresh
      (unfold numerical_from_payload in refl)

read_numerical-Own_example : Own (pos 11) (pos 2) after_fresh
unfolding bytes_eq pack_i16 unpack_i16 unpack_i32
read_numerical-Own_example =
    read_numerical-Own (pos 11) (pos 2) (session late) after_fresh
      (unfold read_numerical pack_id pack_i16 request chunk_for_ble numerical_from_payload in refl)

-- The machine reads a recipe and acknowledges all that follows.
abbrev recipe_bytes : List ℕ
recipe_bytes = 0 ∷ 201 ∷ 0 ∷ 1 ∷ 1 ∷ 0 ∷ 2 ∷ 3 ∷ 1 ∷ 8 ∷ 0 ∷ 2 ∷ 0 ∷ 0 ∷ 0 ∷ 0 ∷ 1 ∷ 0 ∷ 0 ∷ []

abbrev recipe : MachineRecipe
recipe = record {
  recipe_id = pos 201;
  recipe_type = 0;
  component1 = record {
    process = 1;
    shots = 1;
    blend = 0;
    intensity = 2;
    aroma = 3;
    temperature = 1;
    portion = 8;
    reserve = 0;
  };
  component2 = record {
    process = 2;
    shots = 0;
    blend = 0;
    intensity = 0;
    aroma = 0;
    temperature = 1;
    portion = 0;
    reserve = 0;
  };
}

abbrev brewing : List Exchange
brewing =
    answers (frame cmd_read_recipe recipe_bytes)
    ∷ answers (frame cmd_ack [])
    ∷ silence
    ∷ answers (frame cmd_ack [])
    ∷ silence
    ∷ answers (frame cmd_ack [])
    ∷ []

abbrev after_recipe : Session
after_recipe = (read_recipe (pos 201) (session brewing)).1

abbrev as_stored : Overrides
as_stored = record { intensity = none; temperature = none; portion_ml = none; blend = none }

recipe_read : read_recipe (pos 201) (session brewing) ≡ (ok recipe, after_recipe)
unfolding read_recipe request pack_i16 chunk_for_ble bytes_eq Recipe.from_payload Recipe.from_bytes
    unpack_i16
recipe_read = refl

brew-Sends_example :
    (count : ℕ) × (count ≤ 4)
    × ((brew 201 none false as_stored (session brewing)).1.sent
        ≡ []
          ++ take count
              ((cmd_read_recipe, 0 ∷ 201 ∷ []) ∷ brew_steps recipe 201 none false as_stored))
    × ((brew 201 none false as_stored (session brewing)).0 ≡ ok tt → count ≡ 4)
brew-Sends_example =
    brew-Sends recipe 201 none false as_stored (session brewing) after_recipe (omega arith)
      recipe_read

brewed : (brew 201 none false as_stored (session brewing)).0 ≡ ok tt
unfolding brew read_recipe pack_i16 request chunk_for_ble bytes_eq Recipe.from_payload
    Recipe.from_bytes write_recipe request_ack sleep write_alphanumeric start_process pack_u16
brewed = refl

unread :
    read_recipe (pos 201) (session [])
    ≡ (err command_timeout, (read_recipe (pos 201) (session [])).1)
unfolding read_recipe request pack_i16 chunk_for_ble bytes_eq
unread = refl

-- The machine refuses.
abbrev refusing : Session
refusing = session (answers (frame cmd_nack []) ∷ [])

request_ack_example :
    (refusing.script ≡ record { failure = none; events = frame cmd_ack [] ∷ [] } ∷ []
      → (request_ack cmd_write_recipe [] refusing).0 ≡ ok tt)
    × (refusing.script ≡ record { failure = none; events = frame cmd_nack [] ∷ [] } ∷ []
        → (request_ack cmd_write_recipe [] refusing).0 ≡ err not_acknowledged)
    × (refusing.script ≡ [] → (request_ack cmd_write_recipe [] refusing).0 ≡ err command_timeout)
    × (refusing.script ≡ record { failure = some (1, timeout_error); events = [] } ∷ []
        → (request_ack cmd_write_recipe [] refusing).0 ≡ err command_timeout)
    × (refusing.script ≡ record { failure = none; events = link_lost ∷ [] } ∷ []
        → (request_ack cmd_write_recipe [] refusing).0 ≡ err cancelled_error)
request_ack_example = request_ack_lem cmd_write_recipe [] refusing [] [] [] 1

refused : (request_ack cmd_write_recipe [] refusing).0 ≡ err not_acknowledged
unfolding request_ack request chunk_for_ble bytes_eq resolves
refused = refl
