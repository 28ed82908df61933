-- ===== src/Protocol/Parser/Buffer.antt =====
-- The receive buffer stays small and starts with a frame.
use hass_melitta_barista_ts.Prelude.{ℕ, ◌≤◌, ◌≡◌, List, [], ◌∷◌, ◌++◌, length, length-append, arith}
use hass_melitta_barista_ts.Const.Framing.{frame_start, rx_buffer_limit}
use hass_melitta_barista_ts.Protocol.Parser.{
  FrameParser, Arrival, start_frame, finish_byte, feed_byte,
}

abbrev pub StartsFrame : List ℕ → Type 0
StartsFrame [] = Unit
StartsFrame (b ∷ bs) = b ≡ frame_start

pub record IsSound (p : FrameParser) : Type 0 where
  pub small : length p.buffer ≤ rx_buffer_limit
  pub starts : StartsFrame p.buffer

start_frame-IsSound : (p : FrameParser) (a : Arrival) → IsSound (start_frame p a)
unfolding start_frame
start_frame-IsSound p a = ground arith

finish_byte-IsSound : (p : FrameParser) (byte : ℕ) → IsSound p → IsSound (finish_byte p byte).0
unfolding finish_byte
finish_byte-IsSound p byte v = ground arith

grow-IsSound :
    (t w b : ℕ) (bs : List ℕ) (byte : ℕ)
    → length (b ∷ bs) ≤ 127
    → b ≡ frame_start
    → IsSound (record { assembly_timeout = t; buffer = b ∷ bs ++ byte ∷ []; started_at = w })
grow-IsSound t w b bs byte h e = record {
  small = omega (arith, length-append bs (byte ∷ []));
  starts = e;
}

pub buffer-IsSound :
    (t w : ℕ) (buf : List ℕ) (a : Arrival)
    → IsSound (record { assembly_timeout = t; buffer = buf; started_at = w })
    → IsSound (feed_byte (record { assembly_timeout = t; buffer = buf; started_at = w }) a).0
unfolding feed_byte
buffer-IsSound t w [] a v =
    start_frame-IsSound (record { assembly_timeout = t; buffer = []; started_at = w }) a
buffer-IsSound t w (b ∷ bs) a v = ground (
  arith,
  start_frame-IsSound (record { assembly_timeout = t; buffer = b ∷ bs; started_at = w }) a,
  finish_byte-IsSound
      (record { assembly_timeout = t; buffer = b ∷ bs ++ a.byte ∷ []; started_at = w }) a.byte,
  grow-IsSound t w b bs a.byte,
)
