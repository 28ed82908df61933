-- ===== src/Protocol/Parser/Emit.antt =====
-- What the parser makes of a complete frame.
use mathlib.Core.List.{append_assoc}
use hass_melitta_barista_ts.Prelude.{
  ℕ, ◌+◌, ◌-◌, suc, ◌≡◌, ◌≤◌, ==_iff, refl, ap, ◌∙◌, ◌==◌, if◌then◌else◌, List, [], ◌∷◌, ◌++◌, none,
  some, length, length-append, take, drop, take-length-append, drop-length-append,
  get_or-length-append, arith, Bool,
}
use hass_melitta_barista_ts.Const.Framing.{Command, lookup_inbound}
use hass_melitta_barista_ts.Protocol.Rc4.{rc4}
use hass_melitta_barista_ts.Protocol.Checksum.{checksum}
use hass_melitta_barista_ts.Protocol.Parser.{is_encrypted, verify, emit}

pub is_encrypted_lem :
    (command : Command) (size : ℕ) (encrypted : Bool)
    → lookup_inbound command ≡ some (size, encrypted)
    → is_encrypted command ≡ encrypted
unfolding is_encrypted
is_encrypted_lem command size encrypted h = ground arith

verify_lem :
    (s : ℕ) (command payload tail : List ℕ) (r : ℕ)
    → verify (s ∷ command ++ tail) command (length command) (payload ++ r ∷ [])
      ≡ (if r == checksum (command ++ payload) then some (command, payload) else none)
unfolding verify
verify_lem s command payload tail r =
    let e : length (payload ++ r ∷ []) - 1 ≡ length payload =
      omega (arith, length-append payload (r ∷ [])) in
    let k : 1 + length command ≡ suc (length command) = omega arith in
    rw
      (
        e,
        k,
        take-length-append payload (r ∷ []),
        get_or-length-append payload r 0,
        take-length-append command tail,
      )
      refl

-- `frame[1 + command_length : -1]`
body_lem :
    (s z : ℕ) (command part : List ℕ)
    → drop
        (1 + length command)
        (take (length (s ∷ command ++ part ++ z ∷ []) - 1) (s ∷ command ++ part ++ z ∷ []))
      ≡ part
body_lem s z command part =
    let e : length (s ∷ command ++ part ++ z ∷ []) - 1 ≡ length (s ∷ command ++ part) =
      omega (arith, length-append (s ∷ command ++ part) (z ∷ [])) in
    let k : 1 + length command ≡ length (s ∷ command) = omega arith in
    rw k (
      ap (λ (n : ℕ). drop (length (s ∷ command)) (take n (s ∷ command ++ part ++ z ∷ []))) e
      ∙ ap (drop (length (s ∷ command))) (take-length-append (s ∷ command ++ part) (z ∷ []))
      ∙ drop-length-append (s ∷ command) part)

-- A frame is handed on exactly if the byte before its end is the checksum of what stands before it.
pub emit_lem :
    (s z b : ℕ) (command bs payload : List ℕ) (r : ℕ)
    → (if is_encrypted command then rc4 (b ∷ bs) else b ∷ bs) ≡ payload ++ r ∷ []
    → emit (s ∷ command ++ b ∷ bs ++ z ∷ []) command (length command)
      ≡ (if r == checksum (command ++ payload) then some (command, payload) else none)
unfolding emit
emit_lem s z b command bs payload r e =
    rw (body_lem s z command (b ∷ bs), emit)
      (rw (e, append_assoc (s ∷ command) (b ∷ bs) (z ∷ []))
        (verify_lem s command payload ((b ∷ bs) ++ z ∷ []) r))

-- The frame of a payload passes the test.
pub emit_sealed :
    (s z : ℕ) (command part payload : List ℕ)
    → 1 ≤ length part
    → (if is_encrypted command then rc4 part else part)
      ≡ payload ++ checksum (command ++ payload) ∷ []
    → emit (s ∷ command ++ part ++ z ∷ []) command (length command) ≡ some (command, payload)
emit_sealed s z command [] payload h e = absurd (omega arith)
emit_sealed s z command (b ∷ bs) payload h e =
    emit_lem s z b command bs payload (checksum (command ++ payload)) e
    ∙ rw ((==_iff _ _).1 refl) refl
