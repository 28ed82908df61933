-- ===== src/Machine/Handshake.antt =====
-- machine.py, `handshake`. The four random bytes of `os.urandom` are an argument.
pub mod Install
use hass_melitta_barista_ts.Prelude.{
  ℕ, true, ltb, if◌then◌else◌, bytes_eq, List, [], ◌∷◌, ◌++◌, Option, none, some, length, take,
  drop,
}
use hass_melitta_barista_ts.Errors.{handshake_error, Result, ok, err}
use hass_melitta_barista_ts.Const.Framing.{cmd_handshake}
use hass_melitta_barista_ts.Protocol.Checksum.{hu_verifier}
use hass_melitta_barista_ts.Machine.Session.{
  Session, M, pure, raise, lift, ◌>>=◌, ◌>>◌, reply, request,
}

abbrev start_challenge : List ℕ → M (Unit {0})
start_challenge bytes s = (ok tt, record s { key_prefix = none; challenge = some bytes })

abbrev install_key : List ℕ → M (Unit {0})
install_key key s = (ok tt, record s { key_prefix = some key })

-- The three tests on the answer, and the key in it.
unfoldable pub accept_response : List ℕ → List ℕ → Result (List ℕ)
accept_response challenge response =
    if ltb (length response) 8
    then err handshake_error
    else if bytes_eq (take 4 response) challenge
    then elim (hu_verifier (take 6 response)) [
      | err e ↦ err e
      | ok expected ↦
          if bytes_eq (drop 6 (take 8 response)) expected
          then ok (drop 4 (take 6 response))
          else err handshake_error
    ]
    else err handshake_error

unfoldable pub handshake : List ℕ → M (Unit {0})
unfolding accept_response
handshake challenge = do
  start_challenge challenge
  verifier ← lift (hu_verifier challenge)
  response ← request cmd_handshake (challenge ++ verifier) (reply cmd_handshake) true
  key ← lift (accept_response challenge response)
  install_key key
