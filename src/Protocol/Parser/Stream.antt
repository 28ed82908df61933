-- ===== src/Protocol/Parser/Stream.antt =====
-- What the parser hands on over a whole stream.
use mathlib.Core.Path.{subst}
use mathlib.Core.List.{append_assoc, append-nil}
use hass_melitta_barista_ts.Prelude.{
  ℕ, ◌≡◌, ◌⊎◌, inl, inr, sym, ap, ◌∙◌, List, [], ◌∷◌, ◌++◌, Option, some, Option-cases, arith,
}
use hass_melitta_barista_ts.Const.Framing.{Command}
use hass_melitta_barista_ts.Protocol.Parser.{
  FrameParser, Arrival, start_frame, finish_byte, feed_byte, feed,
}
use hass_melitta_barista_ts.Protocol.Parser.Buffer.{IsSound, buffer-IsSound}
use hass_melitta_barista_ts.Protocol.Parser.Collect.{bytes_of}
use hass_melitta_barista_ts.Protocol.Parser.Sound.{Accepted, feed_byte-Accepted}

-- That the frames stand in the stream one after the other, as their encodings, with any bytes between
-- them.
abbrev pub Carries : List ℕ → List (Command × List ℕ) → Type 0
Carries stream [] = Unit
Carries stream ((command, payload) ∷ frames) =
    (skipped : List ℕ) × (raw : List ℕ) × (rest : List ℕ) × (skipped ++ (raw ++ rest) ≡ stream)
    × Accepted raw command payload
    × Carries rest frames

Carries-skip :
    (before stream : List ℕ) (frames : List (Command × List ℕ))
    → Carries stream frames
    → Carries (before ++ stream) frames
Carries-skip before stream [] c = tt
Carries-skip before stream ((command, payload) ∷ frames) (skipped, raw, rest, e, a, c) = (
  before ++ skipped,
  raw,
  rest,
  append_assoc before skipped (raw ++ rest) ∙ ap (λ (l : List ℕ). before ++ l) e,
  a,
  c,
)

start_frame-buffer :
    (p : FrameParser) (a : Arrival)
    → ((start_frame p a).buffer ≡ []) ⊎ ((start_frame p a).buffer ≡ a.byte ∷ [])
unfolding start_frame
start_frame-buffer p a = ground arith

finish_byte-buffer :
    (p : FrameParser) (byte : ℕ)
    → ((finish_byte p byte).0.buffer ≡ []) ⊎ ((finish_byte p byte).0.buffer ≡ p.buffer)
unfolding finish_byte
finish_byte-buffer p byte = ground arith

-- What is in the buffer after a byte: nothing, the byte, or the byte behind what was there.
feed_byte-buffer :
    (p : FrameParser) (a : Arrival)
    → ((feed_byte p a).0.buffer ≡ [])
      ⊎ (((feed_byte p a).0.buffer ≡ a.byte ∷ [])
          ⊎ ((feed_byte p a).0.buffer ≡ p.buffer ++ a.byte ∷ []))
unfolding feed_byte
feed_byte-buffer p a = ground (
  arith,
  start_frame-buffer p a,
  finish_byte-buffer (record p { buffer = p.buffer ++ a.byte ∷ [] }) a.byte,
)

feed_byte-suffix :
    (p : FrameParser) (a : Arrival)
    → (before : List ℕ) × (before ++ (feed_byte p a).0.buffer ≡ p.buffer ++ a.byte ∷ [])
feed_byte-suffix p a = elim (feed_byte-buffer p a) [
  | inl e ↦ (
    p.buffer ++ a.byte ∷ [],
    ap (λ (l : List ℕ). (p.buffer ++ a.byte ∷ []) ++ l) e ∙ append-nil _,
  )
  | inr (inl e) ↦ (p.buffer, ap (λ (l : List ℕ). p.buffer ++ l) e)
  | inr (inr e) ↦ ([], e)
]

feed_byte-IsSound : (p : FrameParser) (a : Arrival) → IsSound p → IsSound (feed_byte p a).0
feed_byte-IsSound p a v = buffer-IsSound p.assembly_timeout p.started_at p.buffer a v

-- Over any stream, with any timing, a parser whose buffer has at most 128 bytes and is empty or
-- starts with a start byte stays like that, and the frames that it hands on stand in the bytes of
-- its buffer and the stream, in this order and without overlap, each as `build_frame` makes it
-- with a payload of its command's size.
pub feed-Carries :
    (p : FrameParser) (arrivals : List Arrival)
    → IsSound p
    → Carries (p.buffer ++ bytes_of arrivals) (feed p arrivals).1 × IsSound (feed p arrivals).0
unfolding feed
feed-Carries p [] v = (tt, v)
feed-Carries p (a ∷ rest) v =
    let (c, w) = feed-Carries (feed_byte p a).0 rest (feed_byte-IsSound p a v) in
    elim (Option-cases (feed_byte p a).1) [
      | inl e ↦ (rw (e) (quiet c), w)
      | inr ((command, payload), e) ↦ (rw (e) (hit command payload e c), w)
    ]
  where
    q : FrameParser
    q = (feed_byte p a).0

    quiet :
        Carries (q.buffer ++ bytes_of rest) (feed q rest).1
        → Carries (p.buffer ++ a.byte ∷ bytes_of rest) (feed q rest).1
    quiet c =
        let (before, k) = feed_byte-suffix p a in
        subst (λ (l : List ℕ). Carries l (feed q rest).1)
          (sym (append_assoc before q.buffer (bytes_of rest))
            ∙ ap (λ (l : List ℕ). l ++ bytes_of rest) k
            ∙ append_assoc p.buffer (a.byte ∷ []) (bytes_of rest))
          (Carries-skip before (q.buffer ++ bytes_of rest) (feed q rest).1 c)

    hit :
        (command payload : List ℕ)
        → (feed_byte p a).1 ≡ some (command, payload)
        → Carries (q.buffer ++ bytes_of rest) (feed q rest).1
        → Carries (p.buffer ++ a.byte ∷ bytes_of rest) ((command, payload) ∷ (feed q rest).1)
    hit command payload e c =
        let (accepted, empty) =
          feed_byte-Accepted p q a command payload v
            (ap (λ (o : Option (Command × List ℕ)). (q, o)) e) in
        (
          [],
          p.buffer ++ a.byte ∷ [],
          bytes_of rest,
          append_assoc p.buffer (a.byte ∷ []) (bytes_of rest),
          accepted,
          subst (λ (l : List ℕ). Carries l (feed q rest).1)
              (ap (λ (l : List ℕ). l ++ bytes_of rest) empty) c,
        )
