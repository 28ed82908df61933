-- ===== src/Protocol/Recipe/RoundTrip.antt =====
-- Recipes survive the wire.
use hass_melitta_barista_ts.Prelude.{
  ℕ, ◌≤◌, ◌<◌, ◌≡◌, List, ◌∷◌, ◌++◌, length, length-take, length-drop, take, get_or, arith,
}
use hass_melitta_barista_ts.Errors.{ok, err, protocol_error}
use hass_melitta_barista_ts.Protocol.Words.{unpack_i16}
use hass_melitta_barista_ts.Protocol.Recipe.{
  RecipeComponent, MachineRecipe, unpack_component, slice, to_bytes, from_bytes, from_payload,
}

-- Each field is a byte.
pub record IsWireComponent (c : RecipeComponent) : Type 0 where
  pub process : c.process < 256
  pub shots : c.shots < 256
  pub blend : c.blend < 256
  pub intensity : c.intensity < 256
  pub aroma : c.aroma < 256
  pub temperature : c.temperature < 256
  pub portion : c.portion < 256
  pub reserve : c.reserve < 256

pub from_bytes-to_bytes :
    (c : RecipeComponent) (rest : List ℕ)
    → IsWireComponent c
    → from_bytes (to_bytes c ++ rest) ≡ ok c
unfolding from_bytes to_bytes
from_bytes-to_bytes c rest w = ground arith

-- The machine's answer to HC: the id, the type and the two components, and what follows is ignored.
pub recipe_answer : ℕ → ℕ → ℕ → RecipeComponent → RecipeComponent → List ℕ → List ℕ
recipe_answer a b t c d rest = a ∷ b ∷ t ∷ to_bytes c ++ to_bytes d ++ rest

from_payload_long :
    (raw : List ℕ) → 19 ≤ length raw → (r : MachineRecipe) × (from_payload raw ≡ ok r)
unfolding from_payload from_bytes
from_payload_long raw h = (
  record {
    recipe_id = unpack_i16 (get_or raw 0 0) (get_or raw 1 0);
    recipe_type = get_or raw 2 0;
    component1 = unpack_component (slice 3 11 raw);
    component2 = unpack_component (slice 11 19 raw);
  },
  ground (
    arith,
    length-drop 3 (take 11 raw),
    length-take 11 raw,
    length-drop 11 (take 19 raw),
    length-take 19 raw,
  ),
)

-- A payload of less than 19 bytes raises, and every other one is read.
pub from_payload_total :
    (raw : List ℕ)
    → (length raw < 19 → from_payload raw ≡ err protocol_error)
      × (19 ≤ length raw → (r : MachineRecipe) × (from_payload raw ≡ ok r))
from_payload_total raw = (unfold from_payload in λ h. ground arith, from_payload_long raw)
