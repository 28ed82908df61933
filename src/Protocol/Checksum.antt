-- ===== src/Protocol/Checksum.antt =====
-- protocol.py, `checksum` and `hu_verifier`.
pub mod Detection
use Prim.Native.Nat.{bit_xor}
use hass_melitta_barista_ts.Prelude.{ℕ, ◌+◌, ◌-◌, ◌%◌, List, [], ◌∷◌, get_or}
use hass_melitta_barista_ts.Errors.{Result, ok, err, protocol_error}
use hass_melitta_barista_ts.Const.Crypto.{hu_table}

pub sum : List ℕ → ℕ
sum [] = 0
sum (x ∷ xs) = x + sum xs

-- `(~sum(payload)) & 0xFF`
unfoldable pub checksum : List ℕ → ℕ
unfolding sum
checksum payload = 255 - sum payload % 256

-- `HU_TABLE[x & 0xFF]`
pub table_at : ℕ → ℕ
table_at x = get_or hu_table (x % 256) 0

-- `for byte in data[1:]: first = HU_TABLE[(first ^ byte) & 0xFF]`
pub hu_fold : ℕ → List ℕ → ℕ
hu_fold state [] = state
hu_fold state (byte ∷ rest) = hu_fold (table_at (bit_xor state byte)) rest

unfoldable pub hu_verifier : List ℕ → Result (List ℕ)
unfolding table_at hu_fold
hu_verifier [] = err protocol_error
hu_verifier (b ∷ rest) =
    let first : ℕ = hu_fold (table_at b) rest in
    let second : ℕ = hu_fold (table_at (b + 1)) rest in
    ok ((first + 93) % 256 ∷ (second + 167) % 256 ∷ [])
