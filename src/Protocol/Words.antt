-- ===== src/Protocol/Words.antt =====
-- The parts of Python's `struct` and `int.to_bytes` that the program uses: big-endian signed integers
-- of two and four bytes. Packing a number that does not fit raises OverflowError.
use hass_melitta_barista_ts.Prelude.{
  ℕ, ◌+◌, ◌-◌, ◌*◌, ◌/◌, ◌%◌, ◌≡◌, ltb, if◌then◌else◌, List, [], ◌∷◌, arith, ◌<◌,
}
use hass_melitta_barista_ts.Prelude.Int.{ℤ, pos, negsuc}
use hass_melitta_barista_ts.Errors.{Result, ok, err, overflow_error}

-- The number that a two-byte pattern stands for in two's complement.
pub signed16 : ℕ → ℤ
signed16 u = if ltb u 32768 then pos u else negsuc (65535 - u)

pub signed32 : ℕ → ℤ
signed32 u = if ltb u 2147483648 then pos u else negsuc (4294967295 - u)

-- `struct.unpack(">h", bytes([a, b]))`
unfoldable pub unpack_i16 : ℕ → ℕ → ℤ
unfolding signed16
unpack_i16 a b = signed16 (a * 256 + b)

unfoldable pub unpack_i32 : ℕ → ℕ → ℕ → ℕ → ℤ
unfolding signed32
unpack_i32 a b c d = signed32 (((a * 256 + b) * 256 + c) * 256 + d)

abbrev bytes_of_u16 : ℕ → List ℕ
bytes_of_u16 u = u / 256 ∷ u % 256 ∷ []

abbrev bytes_of_u32 : ℕ → List ℕ
bytes_of_u32 u = u / 16777216 ∷ u / 65536 % 256 ∷ u / 256 % 256 ∷ u % 256 ∷ []

-- `value.to_bytes(2, "big", signed=True)`
unfoldable pub pack_i16 : ℤ → Result (List ℕ)
pack_i16 (pos n) = if ltb n 32768 then ok (bytes_of_u16 n) else err overflow_error
pack_i16 (negsuc n) = if ltb n 32768 then ok (bytes_of_u16 (65535 - n)) else err overflow_error

-- `value.to_bytes(2, "big")`
unfoldable pub pack_u16 : ℤ → Result (List ℕ)
pack_u16 (pos n) = if ltb n 65536 then ok (bytes_of_u16 n) else err overflow_error
pack_u16 (negsuc n) = err overflow_error

-- `value.to_bytes(4, "big", signed=True)`
unfoldable pub pack_i32 : ℤ → Result (List ℕ)
pack_i32 (pos n) = if ltb n 2147483648 then ok (bytes_of_u32 n) else err overflow_error
pack_i32 (negsuc n) =
    if ltb n 2147483648 then ok (bytes_of_u32 (4294967295 - n)) else err overflow_error

-- What fits in two bytes, and in four.
abbrev pub FitsI16 : ℤ → Type 0
FitsI16 (pos n) = n < 32768
FitsI16 (negsuc n) = n < 32768

abbrev pub FitsI32 : ℤ → Type 0
FitsI32 (pos n) = n < 2147483648
FitsI32 (negsuc n) = n < 2147483648

pub pack_i16-FitsI16 :
    (v : ℤ) → FitsI16 v → (a b : ℕ) × (pack_i16 v ≡ ok (a ∷ b ∷ [])) × (unpack_i16 a b ≡ v)
unfolding pack_i16 unpack_i16
pack_i16-FitsI16 (pos n) h = (n / 256, n % 256, ground arith, ground arith)
pack_i16-FitsI16 (negsuc n) h = ((65535 - n) / 256, (65535 - n) % 256, ground arith, ground arith)

pub pack_i32-FitsI32 :
    (v : ℤ)
    → FitsI32 v
    → (a b c d : ℕ) × (pack_i32 v ≡ ok (a ∷ b ∷ c ∷ d ∷ [])) × (unpack_i32 a b c d ≡ v)
unfolding pack_i32 unpack_i32
pack_i32-FitsI32 (pos n) h =
    (n / 16777216, n / 65536 % 256, n / 256 % 256, n % 256, ground arith, ground arith)
pack_i32-FitsI32 (negsuc n) h =
    let u : ℕ = 4294967295 - n in
    (u / 16777216, u / 65536 % 256, u / 256 % 256, u % 256, ground arith, ground arith)
