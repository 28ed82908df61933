-- ===== src/Tests/Wire.antt =====
-- Concrete runs of protocol.py.
use hass_melitta_barista_ts.Prelude.{ℕ, ◌≡◌, ◌≢◌, refl, true, List, [], ◌∷◌, some, none, arith}
use hass_melitta_barista_ts.Errors.{ok, ◌>>=◌}
use hass_melitta_barista_ts.Const.Framing.{cmd_read_status, cmd_ack, cmd_nack, lookup_inbound}
use hass_melitta_barista_ts.Protocol.Rc4.{rc4_keyed, rc4}
use hass_melitta_barista_ts.Protocol.Rc4.Involution.{rc4_keyed_twice}
use hass_melitta_barista_ts.Protocol.Checksum.{checksum, hu_verifier}
use hass_melitta_barista_ts.Protocol.Checksum.Detection.{checksum_detects, hu_verifier_detects}
use hass_melitta_barista_ts.Protocol.Frame.{build_frame, chunk_for_ble}
use hass_melitta_barista_ts.Protocol.Frame.Chunks.{concat, AreFull, chunk_for_ble_lem}
use hass_melitta_barista_ts.Protocol.Parser.{Arrival, feed, is_encrypted}
use hass_melitta_barista_ts.Protocol.Parser.Collect.{parser_at, OnTime}
use hass_melitta_barista_ts.Protocol.Parser.Complete.{feed-build_frame}
use hass_melitta_barista_ts.Protocol.Parser.Buffer.{IsSound}
use hass_melitta_barista_ts.Protocol.Parser.Stream.{Carries, feed-Carries}

-- A published RC4 vector.
rc4_vector :
    rc4_keyed (80 ∷ 108 ∷ 97 ∷ 105 ∷ 110 ∷ 116 ∷ 101 ∷ 120 ∷ 116 ∷ []) (75 ∷ 101 ∷ 121 ∷ [])
    ≡ ok (187 ∷ 243 ∷ 22 ∷ 232 ∷ 217 ∷ 64 ∷ 175 ∷ 10 ∷ 211 ∷ [])
unfolding rc4_keyed
rc4_vector = refl

-- A status frame, as the machine sends it.
abbrev status_payload : List ℕ
status_payload = 0 ∷ 2 ∷ 0 ∷ 4 ∷ 0 ∷ 0 ∷ 0 ∷ 30 ∷ []

abbrev status_wire : List ℕ
status_wire = 83 ∷ 72 ∷ 88 ∷ 205 ∷ 61 ∷ 94 ∷ 153 ∷ 119 ∷ 92 ∷ 179 ∷ 202 ∷ 45 ∷ 69 ∷ []

status_frame : status_wire ≡ build_frame cmd_read_status (some status_payload) none true
unfolding build_frame rc4 checksum
status_frame = refl

abbrev at : ℕ → ℕ → Arrival
at time b = record { byte = b; seen_at = time; start_at = time }

abbrev all_at : ℕ → List ℕ → List Arrival
all_at time [] = []
all_at time (b ∷ bs) = at time b ∷ all_at time bs

all_at-OnTime : (t w : ℕ) (bs : List ℕ) → OnTime t w (all_at w bs)
all_at-OnTime t w [] = tt
all_at-OnTime t w (b ∷ bs) = (omega arith, all_at-OnTime t w bs)

feed-build_frame_example :
    feed (parser_at 1000 0 []) (all_at 5 status_wire)
    ≡ (parser_at 1000 5 [], (cmd_read_status, status_payload) ∷ [])
feed-build_frame_example =
    feed-build_frame 1000 0 cmd_read_status 8 true status_payload (at 5 83) (at 5 72) (at 5 88)
      (all_at 5 (205 ∷ 61 ∷ 94 ∷ 153 ∷ 119 ∷ 92 ∷ 179 ∷ 202 ∷ 45 ∷ 69 ∷ []))
      (unfold lookup_inbound in refl) refl status_frame
      (all_at-OnTime 1000 5 (72 ∷ 88 ∷ 205 ∷ 61 ∷ 94 ∷ 153 ∷ 119 ∷ 92 ∷ 179 ∷ 202 ∷ 45 ∷ 69 ∷ []))

-- Noise, an acknowledgement, a start that comes to nothing for its checksum, and a refusal.
abbrev noisy_wire : List ℕ
noisy_wire = 7 ∷ 83 ∷ 65 ∷ 190 ∷ 69 ∷ 83 ∷ 65 ∷ 0 ∷ 69 ∷ 83 ∷ 78 ∷ 177 ∷ 69 ∷ []

noisy_fed :
    feed (parser_at 1000 0 []) (all_at 5 noisy_wire)
    ≡ (parser_at 1000 5 [], (cmd_ack, []) ∷ (cmd_nack, []) ∷ [])
unfolding feed checksum lookup_inbound is_encrypted
noisy_fed = refl

feed-Carries_example :
    Carries noisy_wire (feed (parser_at 1000 0 []) (all_at 5 noisy_wire)).1
    × IsSound (feed (parser_at 1000 0 []) (all_at 5 noisy_wire)).0
feed-Carries_example =
    feed-Carries (parser_at 1000 0 []) (all_at 5 noisy_wire)
      (record { small = omega arith; starts = tt })

rc4_keyed_twice_example :
    (rc4_keyed (104 ∷ 105 ∷ []) (75 ∷ 101 ∷ 121 ∷ []) >>= λ c. rc4_keyed c (75 ∷ 101 ∷ 121 ∷ []))
    ≡ ok (104 ∷ 105 ∷ [])
rc4_keyed_twice_example = rc4_keyed_twice 75 (101 ∷ 121 ∷ []) (104 ∷ 105 ∷ [])

abbrev short_key : List ℕ
short_key = 75 ∷ 101 ∷ 121 ∷ []

checksum_detects_example : checksum (72 ∷ 88 ∷ []) ≢ checksum (72 ∷ 89 ∷ [])
checksum_detects_example =
    checksum_detects (72 ∷ []) [] 88 89 (omega arith) (omega arith) (λ e. absurd (omega arith))

hu_verifier_detects_example : hu_verifier (1 ∷ 2 ∷ 3 ∷ []) ≢ hu_verifier (1 ∷ 7 ∷ 3 ∷ [])
hu_verifier_detects_example =
    hu_verifier_detects (1 ∷ []) (3 ∷ []) 2 7 (omega arith) (omega arith) (omega arith, tt)
      (λ e. absurd (omega arith))

chunk_for_ble_example :
    (cs : List (List ℕ)) × (chunk_for_ble (1 ∷ 2 ∷ 3 ∷ []) 2 ≡ ok cs)
    × (concat cs ≡ 1 ∷ 2 ∷ 3 ∷ [])
    × AreFull 2 cs
chunk_for_ble_example = chunk_for_ble_lem (1 ∷ 2 ∷ 3 ∷ []) 1
