-- ===== src/Protocol/Rc4/Involution.antt =====
-- RC4 undoes itself: the keystream does not depend on the data.
use mathlib.Core.Path.{ap₂}
use hass_melitta_barista_ts.Prelude.{ℕ, suc, ap, ◌≡◌, refl, List, [], ◌∷◌, length}
use hass_melitta_barista_ts.Prelude.Bits.{bit_xor_twice}
use hass_melitta_barista_ts.Errors.{ok, ◌>>=◌}
use hass_melitta_barista_ts.Const.Crypto.{rc4_key}
use hass_melitta_barista_ts.Protocol.Rc4.{stream_loop, rc4_keyed, rc4}

stream_loop_twice :
    (plain : List ℕ) (i j : ℕ) (s : List ℕ) → stream_loop (stream_loop plain i j s) i j s ≡ plain
unfolding stream_loop
stream_loop_twice [] i j s = refl
stream_loop_twice (byte ∷ rest) i j s =
    ap₂ ◌∷◌ (bit_xor_twice byte _) (stream_loop_twice rest _ _ _)

pub length-stream_loop :
    (plain : List ℕ) (i j : ℕ) (s : List ℕ) → length (stream_loop plain i j s) ≡ length plain
unfolding stream_loop
length-stream_loop [] i j s = refl
length-stream_loop (byte ∷ rest) i j s = ap suc (length-stream_loop rest _ _ _)

-- Encrypting and decrypting are one function, under every key that is not empty.
pub rc4_keyed_twice :
    (k : ℕ) (ks plain : List ℕ)
    → (rc4_keyed plain (k ∷ ks) >>= λ c. rc4_keyed c (k ∷ ks)) ≡ ok plain
unfolding rc4_keyed
rc4_keyed_twice k ks plain = ap ok (stream_loop_twice plain 0 0 _)

-- The call with the default key.
pub rc4_keyed-rc4_key : (plain : List ℕ) → rc4_keyed plain rc4_key ≡ ok (rc4 plain)
unfolding rc4_keyed rc4
rc4_keyed-rc4_key plain = refl

pub rc4_twice : (plain : List ℕ) → rc4 (rc4 plain) ≡ plain
unfolding rc4
rc4_twice plain = stream_loop_twice plain 0 0 _

pub length-rc4 : (plain : List ℕ) → length (rc4 plain) ≡ length plain
unfolding rc4
length-rc4 plain = length-stream_loop plain 0 0 _
