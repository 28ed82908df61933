-- ===== src/Protocol/Values/RoundTrip.antt =====
-- Register values survive the wire.
use hass_melitta_barista_ts.Prelude.{
  ℕ, ◌≡◌, refl, List, ◌++◌, ◌∷◌, [], arith, ◌<◌, All, replicate, suc,
}
use hass_melitta_barista_ts.Errors.{Result, ok, ◌>>=◌}
use hass_melitta_barista_ts.Protocol.Words.{
  pack_i16, pack_i32, FitsI16, FitsI32, pack_i16-FitsI16, pack_i32-FitsI32,
}
use hass_melitta_barista_ts.Protocol.Values.{NumericalValue, numerical_from_payload, before_nul}

-- How the machine answers a read of a numerical register.
pub encode_numerical : NumericalValue → Result (List ℕ)
encode_numerical v = do p ← pack_i16 v.value_id; q ← pack_i32 v.value; ok (p ++ q)

-- Decoding a register answer gives its id and value again, where these fit 16 and 32 signed bits.
pub numerical_from_payload-encode_numerical :
    (v : NumericalValue)
    → FitsI16 v.value_id
    → FitsI32 v.value
    → (encode_numerical v >>= numerical_from_payload) ≡ ok v
unfolding encode_numerical numerical_from_payload
numerical_from_payload-encode_numerical v hp hq =
    let (a, b, ep, up) = pack_i16-FitsI16 v.value_id hp in
    let (c, d, e, f, eq, uq) = pack_i32-FitsI32 v.value hq in rw (ep, eq) (cc (up, uq))

-- A text that holds no NUL byte is read back up to its padding.
pub before_nul-padded :
    (text : List ℕ) (n : ℕ)
    → All (λ b. 0 < b) text
    → before_nul (text ++ replicate (suc n) 0) ≡ text
unfolding before_nul
before_nul-padded [] n h = refl
before_nul-padded (b ∷ text) n h = ground (arith, before_nul-padded text n h.1)
