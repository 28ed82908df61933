-- ===== src/Protocol/Values.antt =====
-- protocol.py, `NumericalValue` and `AlphanumericValue`.
pub mod RoundTrip
use hass_melitta_barista_ts.Prelude.{
  ℕ, ltb, ◌==◌, if◌then◌else◌, List, [], ◌∷◌, length, get_or, drop,
}
use hass_melitta_barista_ts.Prelude.Int.{ℤ}
use hass_melitta_barista_ts.Errors.{Result, ok, err, protocol_error}
use hass_melitta_barista_ts.Protocol.Words.{unpack_i16, unpack_i32}

pub record NumericalValue : Type 0 where
  pub value_id : ℤ
  pub value : ℤ

unfoldable pub numerical_from_payload : List ℕ → Result NumericalValue
numerical_from_payload raw =
    if ltb (length raw) 6
    then err protocol_error
    else ok (record {
      value_id = unpack_i16 (get_or raw 0 0) (get_or raw 1 0);
      value = unpack_i32 (get_or raw 2 0) (get_or raw 3 0) (get_or raw 4 0) (get_or raw 5 0);
    })

-- `raw.split(b"\x00", 1)[0]`
unfoldable pub before_nul : List ℕ → List ℕ
before_nul [] = []
before_nul (b ∷ rest) = if b == 0 then [] else b ∷ before_nul rest

-- A text is kept as the bytes that the machine sends. The source goes on to decode them as UTF-8 and
-- puts a replacement character for what is none; that step is left out.
pub record AlphanumericValue : Type 0 where
  pub value_id : ℤ
  pub value : List ℕ

unfoldable pub alphanumeric_from_payload : List ℕ → Result AlphanumericValue
unfolding before_nul
alphanumeric_from_payload raw =
    if ltb (length raw) 2
    then err protocol_error
    else ok (record {
      value_id = unpack_i16 (get_or raw 0 0) (get_or raw 1 0);
      value = before_nul (drop 2 raw);
    })
