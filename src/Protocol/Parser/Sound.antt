-- ===== src/Protocol/Parser/Sound.antt =====
-- The parser hands on nothing but what the machine's own framing gives.
use mathlib.Core.Path.{ap₂}
use mathlib.Core.List.{append_assoc}
use hass_melitta_barista_ts.Prelude.{
  ℕ, ◌+◌, ◌<◌, ◌≡◌, refl, sym, ap, ◌∙◌, if◌then◌else◌, List, [], ◌∷◌, ◌++◌, none, some, length,
  length-append, snoc_view, snoc-cancel, Bool, true, false, arith, Option-cases, inl, inr,
}
use hass_melitta_barista_ts.Const.Framing.{Command, lookup_inbound, frame_start, frame_end}
use hass_melitta_barista_ts.Protocol.Rc4.{rc4}
use hass_melitta_barista_ts.Protocol.Rc4.Involution.{rc4_twice, length-rc4}
use hass_melitta_barista_ts.Protocol.Checksum.{checksum}
use hass_melitta_barista_ts.Protocol.Frame.{build_frame}
use hass_melitta_barista_ts.Protocol.Parser.{FrameParser, Arrival, match_command, emit, feed_byte}
use hass_melitta_barista_ts.Protocol.Parser.Match.{Matched, match_command-Matched}
use hass_melitta_barista_ts.Protocol.Parser.Emit.{is_encrypted_lem, emit_lem}
use hass_melitta_barista_ts.Protocol.Parser.Buffer.{StartsFrame, IsSound}

-- What an accepted frame is: the bytes that `build_frame` makes of it, with a payload of the size that
-- the table gives.
pub record Accepted (raw : List ℕ) (command : Command) (payload : List ℕ) : Type 0 where
  pub size : ℕ
  pub encrypted : Bool
  pub found : lookup_inbound command ≡ some (size, encrypted)
  pub sized : length payload ≡ size
  pub built : raw ≡ build_frame command (some payload) none encrypted

unseal :
    (encrypted : Bool) (part body : List ℕ)
    → (if encrypted then rc4 part else part) ≡ body
    → part ≡ (if encrypted then rc4 body else body)
unseal true part body e = sym (rc4_twice part) ∙ ap rc4 e
unseal false part body e = e

length-unseal :
    (encrypted : Bool) (part body : List ℕ)
    → (if encrypted then rc4 part else part) ≡ body
    → length part ≡ length body
length-unseal true part body e = sym (length-rc4 part) ∙ ap length e
length-unseal false part body e = ap length e

-- The body taken apart at its last byte, the checksum.
opened_view :
    (encrypted : Bool) (b : ℕ) (bs : List ℕ)
    → (body : List ℕ) × (r : ℕ) × ((if encrypted then rc4 (b ∷ bs) else b ∷ bs) ≡ body ++ r ∷ [])
opened_view false b bs = snoc_view b bs
opened_view true b bs = go (rc4 (b ∷ bs)) (length-rc4 (b ∷ bs))
  where
    go :
        (out : List ℕ)
        → length out ≡ length (b ∷ bs)
        → (body : List ℕ) × (r : ℕ) × (out ≡ body ++ r ∷ [])
    go [] e = absurd (omega arith)
    go (x ∷ out) e = snoc_view x out

module _ (command : Command) (size : ℕ) (encrypted : Bool)
    (found : lookup_inbound command ≡ some (size, encrypted)) where
  emit-Accepted :
      (b : ℕ) (bs payload : List ℕ) (body out : List ℕ) (r : ℕ)
      → (if encrypted then rc4 (b ∷ bs) else b ∷ bs) ≡ body ++ r ∷ []
      → length (b ∷ bs) ≡ size + 1
      → emit (frame_start ∷ command ++ b ∷ bs ++ frame_end ∷ []) command (length command)
        ≡ some (out, payload)
      → (out ≡ command)
        × Accepted (frame_start ∷ command ++ b ∷ bs ++ frame_end ∷ []) command payload
  unfolding build_frame
  emit-Accepted b bs payload body out r e k h =
      let q =
        emit_lem frame_start frame_end b command bs body r
          (rw (is_encrypted_lem command size encrypted found) e) in
      let same : r ≡ checksum (command ++ body) = ground arith in
      let p : body ≡ payload = ground arith in
      (
        ground arith,
        record {
          size = size;
          encrypted = encrypted;
          found = found;
          sized = omega (
            arith,
            length-unseal encrypted (b ∷ bs) (body ++ r ∷ []) e,
            length-append body (r ∷ []),
            ap length p,
          );
          built =
              ap (λ (part : List ℕ). frame_start ∷ command ++ part ++ frame_end ∷ [])
                (unseal encrypted (b ∷ bs) (payload ++ checksum (command ++ payload) ∷ []) (
                  e
                  ∙ ap₂ (λ x y. x ++ y ∷ []) p
                      (same ∙ ap (λ (x : List ℕ). checksum (command ++ x)) p)));
        },
      )

-- The same, with the frame cut at the byte that ended it.
from_parts :
    (w command payload before : List ℕ) (first z size : ℕ) (encrypted : Bool) (part : List ℕ)
    → lookup_inbound w ≡ some (size, encrypted)
    → length part ≡ size + 1
    → first ∷ w ++ part ++ z ∷ [] ≡ frame_start ∷ before ++ frame_end ∷ []
    → emit (first ∷ w ++ part ++ z ∷ []) w (length w) ≡ some (command, payload)
    → Accepted (first ∷ w ++ part ++ z ∷ []) command payload
from_parts w command payload before first z size encrypted [] found k er h = absurd (omega arith)
from_parts w command payload before first z size encrypted (b ∷ bs) found k er h =
    let (front, ez) = snoc-cancel (first ∷ w ++ b ∷ bs) (frame_start ∷ before) z frame_end er in
    let ef : first ≡ frame_start = cc in
    let (body, r, es) = opened_view encrypted b bs in
    let raw_eq : first ∷ w ++ b ∷ bs ++ z ∷ [] ≡ frame_start ∷ w ++ b ∷ bs ++ frame_end ∷ [] =
      rw (ef, ez) refl in
    let hit =
      emit-Accepted w size encrypted found b bs payload body command r es k (rw raw_eq at h) in
    rw raw_eq (rw hit.0 hit.1)

-- From a found end of frame to the frame.
from_match :
    (raw w command payload : List ℕ) (n : ℕ) (before : List ℕ)
    → Matched raw w n
    → raw ≡ frame_start ∷ before ++ frame_end ∷ []
    → emit raw w n ≡ some (command, payload)
    → Accepted raw command payload
from_match raw w command payload n before m er h = go m.rest refl
  where
    go : (rest : List ℕ) → m.rest ≡ rest → Accepted raw command payload
    go [] e = absurd (omega (arith, m.sized, ap length e))
    go (x ∷ rest) e =
        let (part, z, cut) = snoc_view x rest in
        let whole : raw ≡ m.first ∷ w ++ part ++ z ∷ [] =
          m.split
          ∙ ap (λ (t : List ℕ). m.first ∷ w ++ t) (e ∙ cut)
          ∙ sym (append_assoc (m.first ∷ w) part (z ∷ [])) in
        let len : length part ≡ m.size + 1 =
          omega (arith, m.sized, ap length (e ∙ cut), length-append part (z ∷ [])) in
        let g : emit (m.first ∷ w ++ part ++ z ∷ []) w (length w) ≡ some (command, payload) =
          ap (λ (t : List ℕ). emit t w (length w)) (sym whole) ∙ ap (emit raw w) m.word ∙ h in
        rw whole (
          from_parts w command payload before m.first z m.size m.encrypted part m.found len
            (sym whole ∙ er) g)

abbrev parser_at : ℕ → ℕ → List ℕ → FrameParser
parser_at t w buf = record { assembly_timeout = t; buffer = buf; started_at = w }

-- What a byte that hands on a frame has passed.
frame_ended :
    (t w b c d : ℕ) (xs : List ℕ) (a : Arrival) (q : FrameParser) (command payload : List ℕ)
    → feed_byte (parser_at t w (b ∷ c ∷ d ∷ xs)) a ≡ (q, some (command, payload))
    → (v : List ℕ) × (n : ℕ) × (match_command (b ∷ c ∷ d ∷ xs ++ a.byte ∷ []) ≡ some (v, n))
      × (emit (b ∷ c ∷ d ∷ xs ++ a.byte ∷ []) v n ≡ some (command, payload))
      × (a.byte ≡ frame_end)
      × (q.buffer ≡ [])
unfolding feed_byte
frame_ended t w b c d xs a q command payload h =
    elim (Option-cases (match_command (b ∷ c ∷ d ∷ xs ++ a.byte ∷ []))) [
      | inl e ↦ absurd (ground arith)
      | inr ((v, n), e) ↦ (v, n, e, ground arith, ground arith, ground arith)
    ]

too_short :
    (t w : ℕ) (buf : List ℕ) (a : Arrival) (q : FrameParser) (command payload : List ℕ)
    → length buf < 3
    → ¬ (feed_byte (parser_at t w buf) a ≡ (q, some (command, payload)))
unfolding feed_byte
too_short t w [] a q command payload l h = ground arith
too_short t w (b ∷ bs) a q command payload l h = ground (arith, length-append bs (a.byte ∷ []))

-- A frame is only handed on when the buffer with the new byte is just what `build_frame` makes of that
-- command and payload, of the size in the table; the buffer is empty then.
pub feed_byte-Accepted :
    (p q : FrameParser) (a : Arrival) (command payload : List ℕ)
    → IsSound p
    → feed_byte p a ≡ (q, some (command, payload))
    → Accepted (p.buffer ++ a.byte ∷ []) command payload × (q.buffer ≡ [])
feed_byte-Accepted p q a command payload v h =
    by_buffer p.assembly_timeout p.started_at p.buffer v.starts h
  where
    by_buffer :
        (t w : ℕ) (buf : List ℕ)
        → StartsFrame buf
        → feed_byte (parser_at t w buf) a ≡ (q, some (command, payload))
        → Accepted (buf ++ a.byte ∷ []) command payload × (q.buffer ≡ [])
    by_buffer t w [] s h = absurd (too_short t w [] a q command payload (omega arith) h)
    by_buffer t w (b ∷ []) s h = absurd (too_short t w (b ∷ []) a q command payload (omega arith) h)
    by_buffer t w (b ∷ c ∷ []) s h =
        absurd (too_short t w (b ∷ c ∷ []) a q command payload (omega arith) h)
    by_buffer t w (b ∷ c ∷ d ∷ xs) s h =
        let (v', n, em, ee, ea, eq) = frame_ended t w b c d xs a q command payload h in
        (
          from_match (b ∷ c ∷ d ∷ xs ++ a.byte ∷ []) v' command payload n (c ∷ d ∷ xs)
              (match_command-Matched b c d (xs ++ a.byte ∷ []) v' n em) (rw (s, ea) refl) ee,
          eq,
        )
