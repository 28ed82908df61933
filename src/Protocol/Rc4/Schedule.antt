-- ===== src/Protocol/Rc4/Schedule.antt =====
-- The state of RC4 is at all times a permutation of the 256 byte values, so the output is bytes.
use hass_melitta_barista_ts.Prelude.{
  ℕ, zero, suc, ◌+◌, ◌%◌, ◌≤◌, ◌<◌, ◌≡◌, refl, List, [], ◌∷◌, get_or, set, length, length-set,
  arith, ltb, leb, ◌==◌, if◌then◌else◌, All, ◌&&◌, ap, ◌∙◌,
}
use hass_melitta_barista_ts.Prelude.Bits.{bit_xor_byte}
use hass_melitta_barista_ts.Const.Crypto.{rc4_key}
use hass_melitta_barista_ts.Protocol.Rc4.{
  swap, count_up, identity_state, schedule_loop, schedule, stream_loop, rc4,
}

-- 1 for an occurrence.
abbrev once : ℕ → ℕ → ℕ
once v x = if v == x then 1 else 0

abbrev pub count : ℕ → List ℕ → ℕ
count v [] = 0
count v (x ∷ xs) = once v x + count v xs

count-set :
    (v : ℕ) (xs : List ℕ) (i w : ℕ)
    → i < length xs
    → count v (set xs i w) + once v (get_or xs i 0) ≡ count v xs + once v w
count-set v [] i w h = elim h [ ]
count-set v (x ∷ xs) zero w h = omega arith
count-set v (x ∷ xs) (suc i) w h = omega (arith, count-set v xs i w)

get_or-set :
    (xs : List ℕ) (i j w : ℕ)
    → i < length xs
    → get_or (set xs i w) j 0 ≡ (if i == j then w else get_or xs j 0)
get_or-set [] i j w h = elim h [ ]
get_or-set (x ∷ xs) zero zero w h = refl
get_or-set (x ∷ xs) zero (suc j) w h = ground arith
get_or-set (x ∷ xs) (suc i) zero w h = ground arith
get_or-set (x ∷ xs) (suc i) (suc j) w h = ground (arith, get_or-set xs i j w)

count-swap :
    (v : ℕ) (s : List ℕ) (i j : ℕ) → i < length s → j < length s → count v (swap s i j) ≡ count v s
unfolding swap
count-swap v s i j hi hj = ground (
  arith,
  count-set v s i (get_or s j 0),
  count-set v (set s i (get_or s j 0)) j (get_or s i 0),
  get_or-set s i j (get_or s j 0),
  length-set s i (get_or s j 0),
)

length-swap : (s : List ℕ) (i j : ℕ) → length (swap s i j) ≡ length s
unfolding swap
length-swap s i j =
    omega
      (arith, length-set s i (get_or s j 0), length-set (set s i (get_or s j 0)) j (get_or s i 0))

-- A list of 256 numbers that holds each byte value exactly once, and nothing else.
pub record IsPermutation (s : List ℕ) : Type 0 where
  pub sized : length s ≡ 256
  pub counted : (v : ℕ) → count v s ≡ (if ltb v 256 then 1 else 0)

swap-IsPermutation :
    (s : List ℕ) (i j : ℕ) → i < 256 → j < 256 → IsPermutation s → IsPermutation (swap s i j)
swap-IsPermutation s i j hi hj p = record {
  sized = omega (arith, length-swap s i j, p.sized);
  counted = λ v. count-swap v s i j (omega (arith, p.sized)) (omega (arith, p.sized)) ∙ p.counted v;
}

count-count_up :
    (v n from : ℕ) → count v (count_up n from) ≡ (if leb from v && ltb v (from + n) then 1 else 0)
count-count_up v zero from = ground arith
count-count_up v (suc n) from = ground (arith, count-count_up v n (suc from))

count-count_up_zero : (v n : ℕ) → count v (count_up n 0) ≡ (if ltb v n then 1 else 0)
count-count_up_zero v n = ground (arith, count-count_up v n 0)

length-count_up : (n from : ℕ) → length (count_up n from) ≡ n
length-count_up zero from = refl
length-count_up (suc n) from = ap suc (length-count_up n (suc from))

identity_state-IsPermutation : IsPermutation identity_state
unfolding identity_state
identity_state-IsPermutation = record {
  sized = length-count_up 256 0;
  counted = λ v. count-count_up_zero v 256;
}

schedule_loop-IsPermutation :
    (key : List ℕ) (rounds i j : ℕ) (s : List ℕ)
    → i + rounds ≤ 256
    → IsPermutation s
    → IsPermutation (schedule_loop key rounds i j s)
unfolding schedule_loop
schedule_loop-IsPermutation key zero i j s h p = p
schedule_loop-IsPermutation key (suc rounds) i j s h p =
    schedule_loop-IsPermutation key rounds (i + 1) _ _ (omega arith)
      (swap-IsPermutation s i _ (omega arith) (omega arith) p)

pub schedule-IsPermutation : (key : List ℕ) → IsPermutation (schedule key)
unfolding schedule
schedule-IsPermutation key =
    schedule_loop-IsPermutation key 256 0 0 identity_state (omega arith)
      identity_state-IsPermutation

abbrev pub IsByte : ℕ → Type 0
IsByte b = b < 256

count-get_or : (s : List ℕ) (k : ℕ) → k < length s → 1 ≤ count (get_or s k 0) s
count-get_or [] k h = elim h [ ]
count-get_or (x ∷ xs) zero h = ground arith
count-get_or (x ∷ xs) (suc k) h = omega (arith, count-get_or xs k)

get_or-IsByte : (s : List ℕ) (k : ℕ) → IsPermutation s → k < 256 → IsByte (get_or s k 0)
get_or-IsByte s k p h =
    ground (arith, p.counted (get_or s k 0), p.sized, count-get_or s k (omega (arith, p.sized)))

stream_loop-IsByte :
    (plain : List ℕ) (i j : ℕ) (s : List ℕ)
    → IsPermutation s
    → All IsByte plain
    → All IsByte (stream_loop plain i j s)
unfolding stream_loop
stream_loop-IsByte [] i j s p h = tt
stream_loop-IsByte (byte ∷ rest) i j s p h =
    let q : IsPermutation _ =
      swap-IsPermutation s ((i + 1) % 256) ((j + get_or s ((i + 1) % 256) 0) % 256) (omega arith)
        (omega arith) p in
    (
      bit_xor_byte byte _ h.0 (get_or-IsByte _ _ q (omega arith)),
      stream_loop-IsByte rest _ _ _ q h.1,
    )

-- The cipher text of bytes is bytes.
pub rc4-IsByte : (plain : List ℕ) → All IsByte plain → All IsByte (rc4 plain)
unfolding rc4
rc4-IsByte plain h = stream_loop-IsByte plain 0 0 _ (schedule-IsPermutation rc4_key) h
