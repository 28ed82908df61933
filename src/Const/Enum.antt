-- ===== src/Const/Enum.antt =====
-- Python's `IntEnum`, as the constants use it: a class is its list of members with their numbers.
-- Calling the class with a number looks the member up, and raises ValueError where there is none.
use Prim.Native.String.{String}
use text.Mathlib.Text.{◌==◌ as str_eq}
use hass_melitta_barista_ts.Prelude.{
  ℕ, ◌≡◌, ◌==◌, if◌then◌else◌, Option, none, some, List, [], ◌∷◌, arith,
}
use hass_melitta_barista_ts.Prelude.Int.{ℤ, pos, negsuc}

abbrev pub find_member : {A : Type 0} → (A → ℕ) → List A → ℕ → Option A
find_member value [] n = none
find_member value (a ∷ rest) n = if value a == n then some a else find_member value rest n

-- `found` says that the numbers tell the members apart and that the list is complete.
pub record IntEnum (A : Type 0) : Type 0 where
  pub value : A → ℕ
  pub members : List A
  pub found : (a : A) → find_member value members (value a) ≡ some a

-- `int(a)`
abbrev pub int : {A : Type 0} ⦃e : IntEnum A⦄ → A → ℕ
int ⦃e⦄ a = e.value a

-- `A(n)`; `none` is the ValueError.
abbrev pub enum_of : {A : Type 0} ⦃e : IntEnum A⦄ → ℕ → Option A
enum_of ⦃e⦄ n = find_member e.value e.members n

-- The same on a number that may be negative: no member has one of those.
abbrev pub enum_of_int : {A : Type 0} ⦃e : IntEnum A⦄ → ℤ → Option A
enum_of_int (pos n) = enum_of n
enum_of_int (negsuc n) = none

pub value-find_member :
    {A : Type 0} (value : A → ℕ) (xs : List A) (n : ℕ) (a : A)
    → find_member value xs n ≡ some a
    → value a ≡ n
value-find_member value [] n a h = ground arith
value-find_member value (b ∷ rest) n a h = ground (arith, value-find_member value rest n a)

-- Looking up the number of a member gives that member, and no other number does.
pub enum_of-int : {A : Type 0} ⦃e : IntEnum A⦄ (a : A) → enum_of (int a) ≡ some a
enum_of-int ⦃e⦄ a = e.found a

pub int-enum_of : {A : Type 0} ⦃e : IntEnum A⦄ (n : ℕ) (a : A) → enum_of n ≡ some a → int a ≡ n
int-enum_of ⦃e⦄ n a h = value-find_member e.value e.members n a h

-- `{text(a): a for a in A}`, looked up; a text that two members share goes to the later one.
abbrev pub find_text : {A : Type 0} → (A → String) → List A → String → Option A
find_text text [] s = none
find_text text (a ∷ rest) s = elim (find_text text rest s) [
  | some b ↦ some b
  | none ↦ if str_eq (text a) s then some a else none
]
