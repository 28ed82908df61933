-- ===== src/Protocol/Rc4.antt =====
-- protocol.py, `rc4`: the key schedule and the keystream. A byte string is a list of numbers, and
-- `x & 0xFF` is `x % 256`.
pub mod Involution
pub mod Schedule
use Prim.Native.Nat.{bit_xor}
use hass_melitta_barista_ts.Prelude.{
  ℕ, zero, suc, ◌+◌, ◌%◌, List, [], ◌∷◌, get_or, set, length, replicate,
}
use hass_melitta_barista_ts.Errors.{Result, ok, err, zero_division_error}
use hass_melitta_barista_ts.Const.Crypto.{rc4_key}

-- `s[i], s[j] = s[j], s[i]`: both reads come before the writes.
pub swap : List ℕ → ℕ → ℕ → List ℕ
swap s i j = set (set s i (get_or s j 0)) j (get_or s i 0)

abbrev count_up : ℕ → ℕ → List ℕ
count_up zero from = []
count_up (suc n) from = from ∷ count_up n (suc from)

-- `list(range(256))`
pub identity_state : List ℕ
identity_state = count_up 256 0

-- The first loop, with the rounds left.
pub schedule_loop : List ℕ → ℕ → ℕ → ℕ → List ℕ → List ℕ
schedule_loop key zero i j s = s
schedule_loop key (suc rounds) i j s =
    let j' : ℕ = (j + get_or s i 0 + get_or key (i % length key) 0) % 256 in
    schedule_loop key rounds (i + 1) j' (swap s i j')

pub schedule : List ℕ → List ℕ
unfolding schedule_loop identity_state swap
schedule key = schedule_loop key 256 0 0 identity_state

-- The second loop, over the bytes left: each gets its keystream byte.
pub stream_loop : List ℕ → ℕ → ℕ → List ℕ → List ℕ
unfolding swap
stream_loop [] i j s = []
stream_loop (byte ∷ rest) i j s =
    let i' : ℕ = (i + 1) % 256 in
    let j' : ℕ = (j + get_or s i' 0) % 256 in
    let s' : List ℕ = swap s i' j' in
    bit_xor byte (get_or s' ((get_or s' i' 0 + get_or s' j' 0) % 256) 0) ∷ stream_loop rest i' j' s'

-- `rc4(data, key)`. An empty key raises at `i % key_len`.
unfoldable pub rc4_keyed : List ℕ → List ℕ → Result (List ℕ)
unfolding schedule stream_loop
rc4_keyed plain [] = err zero_division_error
rc4_keyed plain (k ∷ ks) = ok (stream_loop plain 0 0 (schedule (k ∷ ks)))

-- `rc4(data)`, with the default key, which has bytes: see `rc4_keyed-rc4_key`.
unfoldable pub rc4 : List ℕ → List ℕ
unfolding schedule stream_loop
rc4 plain = stream_loop plain 0 0 (schedule rc4_key)
