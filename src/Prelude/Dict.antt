-- ===== src/Prelude/Dict.antt =====
-- A Python dict whose keys are numbers: its items in insertion order, as a list of pairs.
use Prim.Native.Nat.{ℕ}
use mathlib.Core.Path.{◌≡◌, refl}
use mathlib.Core.Option.{Option, none, some}
use mathlib.Core.List.{List, [], ◌∷◌}
use native.Mathlib.Omega.{arith}
use hass_melitta_barista_ts.Prelude.Tests.{◌==◌, if◌then◌else◌}

abbrev pub Dict {ℓ} : Type ℓ → Type ℓ
Dict V = List (ℕ × V)

module _ {ℓ} {V : Type ℓ} where
  -- `items.get(key)`
  abbrev pub lookup : ℕ → Dict V → Option V
  lookup key [] = none
  lookup key ((k, v) ∷ rest) = if k == key then some v else lookup key rest

  -- `items[key] = value`: an old key keeps its place.
  abbrev pub insert : ℕ → V → Dict V → Dict V
  insert key v [] = (key, v) ∷ []
  insert key v ((k, w) ∷ rest) = if k == key then (k, v) ∷ rest else (k, w) ∷ insert key v rest

  -- Reading after a write, at every key.
  pub lookup-insert :
      (key j : ℕ) (v : V) (items : Dict V)
      → lookup j (insert key v items) ≡ (if key == j then some v else lookup j items)
  lookup-insert key j v [] = refl
  lookup-insert key j v ((k, w) ∷ rest) = ground (arith, lookup-insert key j v rest)
