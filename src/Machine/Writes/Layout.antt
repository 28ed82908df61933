-- ===== src/Machine/Writes/Layout.antt =====
-- The bytes that the writing operations send.
use hass_melitta_barista_ts.Prelude.{
  ℕ, zero, suc, ◌-◌, ◌%◌, ◌<◌, ◌≡◌, refl, Bool, true, false, if◌then◌else◌, List, [], ◌∷◌, ◌++◌,
  none, some, length, length-append, length-take, length-replicate, take, replicate, All, arith,
}
use hass_melitta_barista_ts.Protocol.Recipe.{RecipeComponent, to_bytes, from_bytes, slice}
use hass_melitta_barista_ts.Protocol.Recipe.RoundTrip.{IsWireComponent, from_bytes-to_bytes}
use hass_melitta_barista_ts.Protocol.Values.{before_nul}
use hass_melitta_barista_ts.Errors.{ok}
use hass_melitta_barista_ts.Machine.Writes.{name_field, recipe_payload, process_payload}

-- HJ with a recipe key: id, type, key, the two components, and zeros up to 66 bytes.
pub recipe_payload_keyed :
    (a b recipe_type key : ℕ) (c d : RecipeComponent)
    → recipe_payload (a ∷ b ∷ []) recipe_type c d (some key)
      ≡ a ∷ b ∷ recipe_type % 256 ∷ key % 256 ∷ to_bytes c ++ to_bytes d ++ replicate 46 0
unfolding recipe_payload to_bytes
recipe_payload_keyed a b recipe_type key c d = refl

pub recipe_payload_plain :
    (a b recipe_type : ℕ) (c d : RecipeComponent)
    → recipe_payload (a ∷ b ∷ []) recipe_type c d none
      ≡ a ∷ b ∷ recipe_type % 256 ∷ to_bytes c ++ to_bytes d ++ replicate 47 0
unfolding recipe_payload to_bytes
recipe_payload_plain a b recipe_type c d = refl

-- Of a recipe written with a key, the two component slices decode to the components written, which are
-- of bytes, and the payload has 66 bytes.
pub from_bytes-recipe_payload :
    (a b recipe_type key : ℕ) (c d : RecipeComponent)
    → IsWireComponent c
    → IsWireComponent d
    → (from_bytes (slice 4 12 (recipe_payload (a ∷ b ∷ []) recipe_type c d (some key))) ≡ ok c)
      × (from_bytes (slice 12 20 (recipe_payload (a ∷ b ∷ []) recipe_type c d (some key))) ≡ ok d)
      × (length (recipe_payload (a ∷ b ∷ []) recipe_type c d (some key)) ≡ 66)
unfolding recipe_payload to_bytes
from_bytes-recipe_payload a b recipe_type key c d wc wd = (
  unfold to_bytes in from_bytes-to_bytes c [] wc,
  unfold to_bytes in from_bytes-to_bytes d [] wd,
  refl,
)

-- HE: the process, a 2, and a 1 for two cups, in 18 bytes.
pub process_payload_lem :
    (a b : ℕ) (two_cups : Bool)
    → process_payload (a ∷ b ∷ []) two_cups
      ≡ a ∷ b ∷ 0 ∷ 2 ∷ 0 ∷ 0 ∷ 0 ∷ (if two_cups then 1 else 0) ∷ replicate 10 0
unfolding process_payload
process_payload_lem a b true = refl
process_payload_lem a b false = refl

length-name_field : (text : List ℕ) → length (name_field text) ≡ 64
unfolding name_field
length-name_field text = omega (
  arith,
  length-append (take 64 text) (replicate (64 - length (take 64 text)) 0),
  length-replicate {A = ℕ} (64 - length (take 64 text)) 0,
  length-take 64 text,
)

before_nul-zeros :
    (text : List ℕ) (n : ℕ) → All (λ b. 0 < b) text → before_nul (text ++ replicate n 0) ≡ text
unfolding before_nul
before_nul-zeros [] zero h = refl
before_nul-zeros [] (suc n) h = refl
before_nul-zeros (b ∷ text) n h = ground (arith, before_nul-zeros text n h.1)

All-take : (n : ℕ) (text : List ℕ) → All (λ b. 0 < b) text → All (λ b. 0 < b) (take n text)
All-take zero text h = tt
All-take (suc n) [] h = tt
All-take (suc n) (b ∷ text) h = (h.0, All-take n text h.1)

-- The field of a name without NUL has 64 bytes, and read up to its first NUL it gives the first 64
-- bytes of the name.
pub name_field_lem :
    (text : List ℕ)
    → All (λ b. 0 < b) text
    → (length (name_field text) ≡ 64) × (before_nul (name_field text) ≡ take 64 text)
name_field_lem text h = (
  length-name_field text,
  unfold name_field in before_nul-zeros (take 64 text) _ (All-take 64 text h),
)
