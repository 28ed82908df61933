-- ===== src/Protocol/Parser.antt =====
-- protocol.py, `_match_command` and `FrameParser`. Times are ticks of one clock. A frame handed to
-- the callback is returned.
pub mod Match
pub mod Emit
pub mod Collect
pub mod Complete
pub mod Sound
pub mod Stream
pub mod Buffer
use hass_melitta_barista_ts.Prelude.{
  ℕ, ◌+◌, ◌-◌, Bool, true, false, not, ◌||◌, ltb, leb, ◌==◌, if◌then◌else◌, List, [], ◌∷◌, ◌++◌,
  Option, none, some, map, length, get_or, take, drop,
}
use hass_melitta_barista_ts.Const.Framing.{
  Command, frame_start, frame_end, rx_buffer_limit, lookup_inbound,
}
use hass_melitta_barista_ts.Protocol.Rc4.{rc4}
use hass_melitta_barista_ts.Protocol.Checksum.{checksum}

-- `bytes.decode("ascii", errors="replace")`, as code points.
abbrev ascii_or_replacement : ℕ → ℕ
ascii_or_replacement b = if ltb b 128 then b else 0xfffd

abbrev decode_ascii : List ℕ → Command
decode_ascii = map ascii_or_replacement

-- Both tests share this: the text is a command, and the length is that of its frame.
abbrev match_length : Command → ℕ → ℕ → Option (Command × ℕ)
match_length word word_length size = elim (lookup_inbound word) [
  | none ↦ none
  | some (payload_size, encrypted) ↦
      if size == 2 + word_length + payload_size + 1 then some (word, word_length) else none
]

pub match_command : List ℕ → Option (Command × ℕ)
match_command buffer =
    elim (match_length (decode_ascii (drop 1 (take 3 buffer))) 2 (length buffer)) [
      | some found ↦ some found
      | none ↦ match_length (decode_ascii (drop 1 (take 2 buffer))) 1 (length buffer)
    ]

pub record FrameParser : Type 0 where
  pub assembly_timeout : ℕ
  pub buffer : List ℕ
  pub started_at : ℕ

-- A byte of the stream, with what the clock says when it is looked at, and when a frame is started
-- with it.
pub record Arrival : Type 0 where
  pub byte : ℕ
  pub seen_at : ℕ
  pub start_at : ℕ

pub reset : FrameParser → FrameParser
reset p = record p { buffer = [] }

pub start_frame : FrameParser → Arrival → FrameParser
start_frame p a =
    if a.byte == frame_start
    then record p { buffer = a.byte ∷ []; started_at = a.start_at }
    else record p { buffer = [] }

-- `INBOUND_COMMANDS[command]`; `_match_command` only gives commands of the table.
unfoldable pub is_encrypted : Command → Bool
is_encrypted command = elim (lookup_inbound command) [
  | none ↦ false
  | some (n, encrypted) ↦ encrypted
]

-- The checksum test on a body that is decrypted.
pub verify : List ℕ → Command → ℕ → List ℕ → Option (Command × List ℕ)
verify frame command command_length body =
    let payload : List ℕ = take (length body - 1) body in
    let received : ℕ = get_or body (length body - 1) 0 in
    if received == checksum (drop 1 (take (1 + command_length) frame) ++ payload)
    then some (command, payload)
    else none

-- `none`: the frame is dropped for its checksum.
pub emit : List ℕ → Command → ℕ → Option (Command × List ℕ)
unfolding verify
emit frame command command_length =
    elim (drop (1 + command_length) (take (length frame - 1) frame)) [
      | [] ↦ some (command, [])
      | b ∷ bs ↦
          verify frame command command_length
            (if is_encrypted command then rc4 (b ∷ bs) else b ∷ bs)
    ]

-- The buffer already holds the byte.
pub finish_byte : FrameParser → ℕ → FrameParser × Option (Command × List ℕ)
unfolding match_command emit
finish_byte p byte =
    if not (byte == frame_end) || ltb (length p.buffer) 4
    then (p, none)
    else elim (match_command p.buffer) [
      | none ↦ (p, none)
      | some (command, command_length) ↦
          (record p { buffer = [] }, emit p.buffer command command_length)
    ]

unfoldable pub feed_byte : FrameParser → Arrival → FrameParser × Option (Command × List ℕ)
unfolding start_frame finish_byte
feed_byte p a = elim p.buffer [
  | [] ↦ (start_frame p a, none)
  | b ∷ bs ↦
      if ltb p.assembly_timeout (a.seen_at - p.started_at)
      then (start_frame p a, none)
      else if leb rx_buffer_limit (length p.buffer)
      then (start_frame p a, none)
      else finish_byte (record p { buffer = p.buffer ++ a.byte ∷ [] }) a.byte
]

abbrev pub append_option :
    Option (Command × List ℕ) → List (Command × List ℕ) → List (Command × List ℕ)
append_option none fs = fs
append_option (some f) fs = f ∷ fs

-- The frames come in the order in which they end.
unfoldable pub feed : FrameParser → List Arrival → FrameParser × List (Command × List ℕ)
unfolding feed_byte
feed p [] = (p, [])
feed p (a ∷ rest) =
    let (q, f) = feed_byte p a in let (r, fs) = feed q rest in (r, append_option f fs)
