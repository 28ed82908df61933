-- ===== src/Protocol/Recipe.antt =====
-- protocol.py, `RecipeComponent` and `MachineRecipe`.
pub mod RoundTrip
use hass_melitta_barista_ts.Prelude.{
  ℕ, ◌-◌, ◌*◌, ◌%◌, ltb, if◌then◌else◌, List, [], ◌∷◌, length, get_or, take, drop,
}
use hass_melitta_barista_ts.Prelude.Int.{ℤ}
use hass_melitta_barista_ts.Errors.{Result, ok, err, ◌>>=◌, protocol_error}
use hass_melitta_barista_ts.Const.Brewing.{portion_step_ml}
use hass_melitta_barista_ts.Protocol.Words.{unpack_i16}

-- One dispensing step of a recipe.
pub record RecipeComponent : Type 0 where
  pub process : ℕ
  pub shots : ℕ
  pub blend : ℕ
  pub intensity : ℕ
  pub aroma : ℕ
  pub temperature : ℕ
  pub portion : ℕ
  pub reserve : ℕ

-- `RecipeComponent()`
abbrev pub default_component : RecipeComponent
default_component = record {
  process = 0;
  shots = 1;
  blend = 1;
  intensity = 2;
  aroma = 0;
  temperature = 1;
  portion = 8;
  reserve = 0;
}

unfoldable pub portion_ml : RecipeComponent → ℕ
portion_ml c = c.portion * portion_step_ml

-- `struct.pack("8B", …)` with each field masked.
unfoldable pub to_bytes : RecipeComponent → List ℕ
to_bytes c =
    c.process % 256
    ∷ c.shots % 256
    ∷ c.blend % 256
    ∷ c.intensity % 256
    ∷ c.aroma % 256
    ∷ c.temperature % 256
    ∷ c.portion % 256
    ∷ c.reserve % 256
    ∷ []

-- `cls(*struct.unpack("8B", data[:8]))`
pub unpack_component : List ℕ → RecipeComponent
unpack_component raw = record {
  process = get_or raw 0 0;
  shots = get_or raw 1 0;
  blend = get_or raw 2 0;
  intensity = get_or raw 3 0;
  aroma = get_or raw 4 0;
  temperature = get_or raw 5 0;
  portion = get_or raw 6 0;
  reserve = get_or raw 7 0;
}

unfoldable pub from_bytes : List ℕ → Result RecipeComponent
unfolding unpack_component
from_bytes raw = if ltb (length raw) 8 then err protocol_error else ok (unpack_component raw)

pub record MachineRecipe : Type 0 where
  pub recipe_id : ℤ
  pub recipe_type : ℕ
  pub component1 : RecipeComponent
  pub component2 : RecipeComponent

-- `data[a:b]`
abbrev pub slice : ℕ → ℕ → List ℕ → List ℕ
slice a b xs = drop a (take b xs)

unfoldable pub from_payload : List ℕ → Result MachineRecipe
from_payload raw = if ltb (length raw) 19 then err protocol_error else do
  first ← from_bytes (slice 3 11 raw)
  second ← from_bytes (slice 11 19 raw)
  ok (record {
    recipe_id = unpack_i16 (get_or raw 0 0) (get_or raw 1 0);
    recipe_type = get_or raw 2 0;
    component1 = first;
    component2 = second;
  })
