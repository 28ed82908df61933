-- ===== src/Prelude/Bits.antt =====
-- Exclusive or on native numbers, which the tactics take for an unknown: its laws, from the digits.
use Prim.Native.Nat.{
  ℕ, zero, suc, ◌+◌, ◌-◌, ◌*◌, ◌/◌, ◌%◌, ◌≤◌, ◌<◌, bit_xor, bit_xor-bitwise, digits, differ,
}
use mathlib.Core.Path.{◌≡◌, refl, sym, ◌∙◌, ap}
use mathlib.Core.Bool.{Bool, true, ◌&&◌}
use native.Mathlib.Omega.{arith}

abbrev xor_digits : ℕ → ℕ → ℕ → ℕ
xor_digits n a b = digits (λ b. b) differ n a b

xor_digits_fuel : (f g x y : ℕ) → x ≤ f → x ≤ g → xor_digits f x y ≡ xor_digits g x y
xor_digits_fuel f g zero y hf hg = no_digits f ∙ sym (no_digits g)
  where
    no_digits : (k : ℕ) → xor_digits k zero y ≡ y
    no_digits zero = refl
    no_digits (suc k) = refl
xor_digits_fuel zero g (suc x) y hf hg = absurd (omega arith)
xor_digits_fuel (suc f) zero (suc x) y hf hg = absurd (omega arith)
xor_digits_fuel (suc f) (suc g) (suc x) y hf hg =
    let halves = xor_digits_fuel f g (suc x / 2) (y / 2) (omega arith) (omega arith) in
    omega (arith, halves)

zero-bit_xor : (b : ℕ) → bit_xor 0 b ≡ b
zero-bit_xor b = bit_xor-bitwise 0 b

differ-eq : (p q : ℕ) → differ p q ≡ p - q + (q - p)
differ-eq zero q = omega arith
differ-eq (suc p) zero = omega arith
differ-eq (suc p) (suc q) = omega (arith, differ-eq p q)

pub bit_xor_step :
    (a b : ℕ) → bit_xor a b ≡ bit_xor (a / 2) (b / 2) * 2 + (a % 2 - b % 2 + (b % 2 - a % 2))
bit_xor_step zero b = omega (arith, zero-bit_xor b, zero-bit_xor (b / 2))
bit_xor_step (suc a) b = omega (
  arith,
  bit_xor-bitwise (suc a) b,
  bit_xor-bitwise (suc a / 2) (b / 2),
  differ-eq (suc a % 2) (b % 2),
  xor_digits_fuel a (suc a / 2) (suc a / 2) (b / 2) (omega arith) (omega arith),
)

xor_twice_fuel : (n a k : ℕ) → a ≤ n → k ≤ n → bit_xor (bit_xor a k) k ≡ a
xor_twice_fuel zero a k h g =
    let e : a ≡ 0 = omega arith in let f : k ≡ 0 = omega arith in rw (e, f) refl
xor_twice_fuel (suc n) a k h g =
    let x : ℕ = bit_xor a k in
    let half : bit_xor a k / 2 ≡ bit_xor (a / 2) (k / 2) = omega (arith, bit_xor_step a k) in
    omega (
      arith,
      bit_xor_step a k,
      bit_xor_step (bit_xor a k) k,
      ap (λ (t : ℕ). bit_xor t (k / 2)) half,
      xor_twice_fuel n (a / 2) (k / 2) (omega arith) (omega arith),
    )

-- A key applied twice cancels.
pub bit_xor_twice : (a k : ℕ) → bit_xor (bit_xor a k) k ≡ a
bit_xor_twice a k = xor_twice_fuel (a + k) a k (omega arith) (omega arith)

pub bit_xor-cancel : (a b k : ℕ) → bit_xor a k ≡ bit_xor b k → a ≡ b
bit_xor-cancel a b k e = sym (bit_xor_twice a k) ∙ ap (λ (t : ℕ). bit_xor t k) e ∙ bit_xor_twice b k

xor_comm_fuel : (n a b : ℕ) → a ≤ n → b ≤ n → bit_xor a b ≡ bit_xor b a
xor_comm_fuel zero a b h g =
    let e : a ≡ 0 = omega arith in let f : b ≡ 0 = omega arith in rw (e, f) refl
xor_comm_fuel (suc n) a b h g = omega (
  arith,
  bit_xor_step a b,
  bit_xor_step b a,
  xor_comm_fuel n (a / 2) (b / 2) (omega arith) (omega arith),
)

pub bit_xor_comm : (a b : ℕ) → bit_xor a b ≡ bit_xor b a
bit_xor_comm a b = xor_comm_fuel (a + b) a b (omega arith) (omega arith)

-- 2 ^ w, so that it computes.
abbrev pub span : ℕ → ℕ
span zero = 1
span (suc w) = 2 * span w

pub bit_xor-lt-span : (w a b : ℕ) → a < span w → b < span w → bit_xor a b < span w
bit_xor-lt-span zero a b h g =
    let e : a ≡ 0 = omega arith in let f : b ≡ 0 = omega arith in rw (e, f) (omega arith)
bit_xor-lt-span (suc w) a b h g =
    omega (arith, bit_xor_step a b, bit_xor-lt-span w (a / 2) (b / 2) (omega arith) (omega arith))

pub bit_xor_byte : (a b : ℕ) → a < 256 → b < 256 → bit_xor a b < 256
bit_xor_byte a b h g = bit_xor-lt-span 8 a b h g

-- Over a small range, check every value by evaluation.
unfoldable pub all_below : ℕ → (ℕ → Bool) → Bool
all_below zero test = true
all_below (suc limit) test = test limit && all_below limit test

pub all_below_sound :
    (limit : ℕ) (test : ℕ → Bool) (v : ℕ) → all_below limit test ≡ true → v < limit → test v ≡ true
unfolding all_below
all_below_sound zero test v holds small = absurd (omega arith)
all_below_sound (suc limit) test v holds small = ground (arith, all_below_sound limit test v)
