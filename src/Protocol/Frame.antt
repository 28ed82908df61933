-- ===== src/Protocol/Frame.antt =====
-- protocol.py, `build_frame` and `chunk_for_ble`.
pub mod Chunks
use hass_melitta_barista_ts.Prelude.{
  ℕ, zero, suc, Bool, if◌then◌else◌, List, [], ◌∷◌, ◌++◌, Option, none, some, length, take, drop,
}
use hass_melitta_barista_ts.Errors.{Result, ok, err, value_error}
use hass_melitta_barista_ts.Const.Framing.{Command, frame_start, frame_end}
use hass_melitta_barista_ts.Protocol.Rc4.{rc4}
use hass_melitta_barista_ts.Protocol.Checksum.{checksum}

-- `if b: body.extend(b)`: None and no bytes at all add nothing.
abbrev pub or_empty : Option (List ℕ) → List ℕ
or_empty none = []
or_empty (some bs) = bs

-- The part behind the command always holds the checksum, so `encrypt and encrypted_part` is `encrypt`.
unfoldable pub build_frame : Command → Option (List ℕ) → Option (List ℕ) → Bool → List ℕ
build_frame command payload key_prefix encrypt =
    let rest : List ℕ = or_empty key_prefix ++ or_empty payload in
    let part : List ℕ = rest ++ checksum (command ++ rest) ∷ [] in
    frame_start ∷ command ++ (if encrypt then rc4 part else part) ++ frame_end ∷ []

-- Each round takes a byte at least, so a frame has no more pieces than bytes.
pub chunk_loop : ℕ → List ℕ → ℕ → List (List ℕ)
chunk_loop zero frame mtu = []
chunk_loop (suc fuel) [] mtu = []
chunk_loop (suc fuel) (b ∷ rest) mtu =
    take mtu (b ∷ rest) ∷ chunk_loop fuel (drop mtu (b ∷ rest)) mtu

-- `range` refuses a step of zero.
unfoldable pub chunk_for_ble : List ℕ → ℕ → Result (List (List ℕ))
unfolding chunk_loop
chunk_for_ble frame zero = err value_error
chunk_for_ble frame (suc m) = ok (chunk_loop (length frame) frame (suc m))
