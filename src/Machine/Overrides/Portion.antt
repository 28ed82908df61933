-- ===== src/Machine/Overrides/Portion.antt =====
-- Overrides stay within what the wire can carry.
use hass_melitta_barista_ts.Prelude.{ℕ, ◌+◌, ◌*◌, ◌≤◌, ◌<◌, ◌≡◌, some, arith}
use hass_melitta_barista_ts.Prelude.Int.{ℤ, pos, negsuc}
use hass_melitta_barista_ts.Protocol.Recipe.{RecipeComponent}
use hass_melitta_barista_ts.Protocol.Recipe.RoundTrip.{IsWireComponent}
use hass_melitta_barista_ts.Machine.Overrides.{Overrides, portion_of_ml, apply_overrides}

-- Every size gives a portion byte from 1 to 255, and a size from 3 to 1277 ml the nearest step of
-- 5 ml.
pub portion_of_ml_nearest :
    (ml : ℤ)
    → (1 ≤ portion_of_ml ml)
      × (portion_of_ml ml ≤ 255)
      × ((m : ℕ)
          → ml ≡ pos m
          → 3 ≤ m
          → m ≤ 1277
          → (portion_of_ml ml * 5 ≤ m + 2) × (m ≤ portion_of_ml ml * 5 + 2))
unfolding portion_of_ml
portion_of_ml_nearest (pos m) = (omega arith, omega arith, λ k e lo hi. ground arith)
portion_of_ml_nearest (negsuc m) = (omega arith, omega arith, λ k e lo hi. absurd (ground arith))

-- The overrides that the program passes are bytes.
pub record AreBytes (o : Overrides) : Type 0 where
  pub intensity : (v : ℕ) → o.intensity ≡ some v → v < 256
  pub temperature : (v : ℕ) → o.temperature ≡ some v → v < 256
  pub blend : (v : ℕ) → o.blend ≡ some v → v < 256

-- A component of bytes under overrides that are bytes, of whatever size in ml, is one of bytes again.
pub apply_overrides-IsWireComponent :
    (c : RecipeComponent) (o : Overrides)
    → AreBytes o
    → IsWireComponent c
    → IsWireComponent (apply_overrides c o)
unfolding apply_overrides
apply_overrides-IsWireComponent c o b w = record {
  process = w.process;
  shots = w.shots;
  blend = grind (arith, b.blend);
  intensity = grind (arith, b.intensity);
  aroma = w.aroma;
  temperature = grind (arith, b.temperature);
  portion = ground (arith);
  reserve = w.reserve;
}
