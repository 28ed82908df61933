-- ===== src/Protocol/Checksum/Detection.antt =====
-- What the checksum and the verifier catch: the verifier's table is a bijection on the bytes, so one
-- changed byte always shows.
use Prim.Native.Nat.{bit_xor}
use hass_melitta_barista_ts.Prelude.{
  ℕ, ◌+◌, ◌%◌, ◌<◌, ◌≡◌, ◌≢◌, refl, sym, ap, ◌∙◌, List, [], ◌∷◌, ◌++◌, ◌==◌, true, ◌&&◌, All, arith,
  ltb, if◌then◌else◌, suc,
}
use hass_melitta_barista_ts.Protocol.Rc4.Schedule.{IsByte}
use hass_melitta_barista_ts.Prelude.Bits.{
  bit_xor_byte, bit_xor-cancel, bit_xor_comm, all_below, all_below_sound,
}
use hass_melitta_barista_ts.Errors.{Result, ok}
use hass_melitta_barista_ts.Const.Crypto.{hu_table}
use hass_melitta_barista_ts.Protocol.Checksum.{sum, checksum, table_at, hu_fold, hu_verifier}

index_of : ℕ → ℕ → List ℕ → ℕ
index_of v i [] = 256
index_of v i (x ∷ xs) = if x == v then i else index_of v (suc i) xs

table_check :
    all_below 256 (λ x. ltb (table_at x) 256 && (index_of (table_at x) 0 hu_table == x)) ≡ true
unfolding all_below table_at index_of
table_check = refl

table_row : (x : ℕ) → x < 256 → (table_at x < 256) × (index_of (table_at x) 0 hu_table ≡ x)
table_row x h = ground (arith, all_below_sound 256 _ x table_check h)

table_at-mod : (x : ℕ) → table_at x ≡ table_at (x % 256)
unfolding table_at
table_at-mod x = let e : x % 256 % 256 ≡ x % 256 = omega arith in rw e refl

table_at-IsByte : (x : ℕ) → IsByte (table_at x)
table_at-IsByte x = omega (arith, table_at-mod x, (table_row (x % 256) (omega arith)).0)

table_at-cancel : (x y : ℕ) → IsByte x → IsByte y → table_at x ≡ table_at y → x ≡ y
table_at-cancel x y hx hy e =
    sym (table_row x hx).1 ∙ ap (λ (v : ℕ). index_of v 0 hu_table) e ∙ (table_row y hy).1

hu_fold-IsByte : (state : ℕ) (rest : List ℕ) → IsByte state → IsByte (hu_fold state rest)
unfolding hu_fold
hu_fold-IsByte state [] h = h
hu_fold-IsByte state (byte ∷ rest) h =
    hu_fold-IsByte (table_at (bit_xor state byte)) rest (table_at-IsByte _)

hu_step-cancel :
    (a b c d : ℕ)
    → IsByte a
    → IsByte b
    → IsByte c
    → IsByte d
    → table_at (bit_xor a c) ≡ table_at (bit_xor b d)
    → bit_xor a c ≡ bit_xor b d
hu_step-cancel a b c d ha hb hc hd e =
    table_at-cancel _ _ (bit_xor_byte a c ha hc) (bit_xor_byte b d hb hd) e

-- Different states stay different, whatever bytes follow.
hu_fold-cancel :
    (a b : ℕ) (rest : List ℕ)
    → IsByte a
    → IsByte b
    → All IsByte rest
    → hu_fold a rest ≡ hu_fold b rest
    → a ≡ b
unfolding hu_fold
hu_fold-cancel a b [] ha hb hs e = e
hu_fold-cancel a b (c ∷ rest) ha hb hs e = bit_xor-cancel a b c (
    hu_step-cancel a b c c ha hb hs.0 hs.0 (
      hu_fold-cancel (table_at (bit_xor a c)) (table_at (bit_xor b c)) rest (table_at-IsByte _)
        (table_at-IsByte _) hs.1 e))

hu_fold-changed :
    (state : ℕ) (before : List ℕ) (x y : ℕ) (after : List ℕ)
    → IsByte state
    → IsByte x
    → IsByte y
    → All IsByte after
    → hu_fold state (before ++ x ∷ after) ≡ hu_fold state (before ++ y ∷ after)
    → x ≡ y
unfolding hu_fold
hu_fold-changed state [] x y after hs hx hy ha e = bit_xor-cancel x y state (
    bit_xor_comm x state
    ∙ hu_step-cancel state state x y hs hs hx hy
        (hu_fold-cancel _ _ after (table_at-IsByte _) (table_at-IsByte _) ha e)
    ∙ bit_xor_comm state y)
hu_fold-changed state (b ∷ before) x y after hs hx hy ha e =
    hu_fold-changed (table_at (bit_xor state b)) before x y after (table_at-IsByte _) hx hy ha e

abbrev first_byte : Result (List ℕ) → ℕ
first_byte (ok (v ∷ vs)) = v
first_byte _ = 0

first-eq : (a b : ℕ) → IsByte a → IsByte b → (a + 93) % 256 ≡ (b + 93) % 256 → a ≡ b
first-eq a b ha hb e = omega arith

-- The handshake verifier catches every change of a single byte, at any place that only bytes
-- follow: two texts that differ in that byte have different verifiers.
pub hu_verifier_detects :
    (before after : List ℕ) (x y : ℕ)
    → IsByte x
    → IsByte y
    → All IsByte after
    → x ≢ y
    → hu_verifier (before ++ x ∷ after) ≢ hu_verifier (before ++ y ∷ after)
unfolding hu_verifier
hu_verifier_detects [] after x y hx hy ha ne e =
    let tx : IsByte (table_at x) = table_at-IsByte x in
    let ty : IsByte (table_at y) = table_at-IsByte y in
    ne (
      table_at-cancel x y hx hy (
        hu_fold-cancel _ _ after tx ty ha
          (first-eq _ _ (hu_fold-IsByte _ after tx) (hu_fold-IsByte _ after ty) (ap first_byte e))))
hu_verifier_detects (b ∷ before) after x y hx hy ha ne e =
    let tb : IsByte (table_at b) = table_at-IsByte b in
    ne (
      hu_fold-changed (table_at b) before x y after tb hx hy ha (
        first-eq _ _ (hu_fold-IsByte _ (before ++ x ∷ after) tb)
          (hu_fold-IsByte _ (before ++ y ∷ after) tb) (ap first_byte e)))

sum-append : (xs ys : List ℕ) → sum (xs ++ ys) ≡ sum xs + sum ys
unfolding sum
sum-append [] ys = omega arith
sum-append (x ∷ xs) ys = omega (arith, sum-append xs ys)

pub checksum-IsByte : (payload : List ℕ) → IsByte (checksum payload)
unfolding checksum
checksum-IsByte payload = omega arith

-- The frame checksum catches every change of a single byte into another, at any place.
pub checksum_detects :
    (before after : List ℕ) (x y : ℕ)
    → IsByte x
    → IsByte y
    → x ≢ y
    → checksum (before ++ x ∷ after) ≢ checksum (before ++ y ∷ after)
unfolding checksum
checksum_detects before after x y hx hy ne e =
    ne (omega (arith, sum-append before (x ∷ after), sum-append before (y ∷ after)))
