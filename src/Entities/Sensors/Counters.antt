-- ===== src/Entities/Sensors/Counters.antt =====
-- The cup counters against the registers that a poll reads.
use hass_melitta_barista_ts.Prelude.{
  ℕ, ◌+◌, ◌≡◌, ◌≢◌, ◌==◌, ==_iff, Bool-cases, if◌then◌else◌, map, inl, inr, refl, sym, ap, ◌∙◌,
  some,
}
use hass_melitta_barista_ts.Prelude.Int.{ℤ}
use hass_melitta_barista_ts.Prelude.Dict.{lookup, insert, lookup-insert}
use hass_melitta_barista_ts.Const.Enum.{int, enum_of, enum_of-int}
use hass_melitta_barista_ts.Const.Recipes.{RecipeId, recipe_id_enum}
use hass_melitta_barista_ts.Coordinator.State.{MelittaData}
use hass_melitta_barista_ts.Coordinator.Polling.{up_to}
use hass_melitta_barista_ts.Entities.Sensors.{counter_of, cups}

counter_of-int : (r : RecipeId) → int ⦃e = recipe_id_enum⦄ r ≡ counter_of r + 200
unfolding counter_of
counter_of-int RecipeId.espresso = refl
counter_of-int RecipeId.ristretto = refl
counter_of-int RecipeId.lungo = refl
counter_of-int RecipeId.espresso_doppio = refl
counter_of-int RecipeId.ristretto_doppio = refl
counter_of-int RecipeId.cafe_creme = refl
counter_of-int RecipeId.cafe_creme_doppio = refl
counter_of-int RecipeId.americano = refl
counter_of-int RecipeId.americano_extra = refl
counter_of-int RecipeId.long_black = refl
counter_of-int RecipeId.red_eye = refl
counter_of-int RecipeId.black_eye = refl
counter_of-int RecipeId.dead_eye = refl
counter_of-int RecipeId.cappuccino = refl
counter_of-int RecipeId.espresso_macchiato = refl
counter_of-int RecipeId.caffe_latte = refl
counter_of-int RecipeId.cafe_au_lait = refl
counter_of-int RecipeId.flat_white = refl
counter_of-int RecipeId.latte_macchiato = refl
counter_of-int RecipeId.latte_macchiato_extra = refl
counter_of-int RecipeId.latte_macchiato_triple = refl
counter_of-int RecipeId.milk = refl
counter_of-int RecipeId.milk_froth = refl
counter_of-int RecipeId.hot_water = refl

counter_of-cancel : (r q : RecipeId) → counter_of r ≡ counter_of q → r ≡ q
counter_of-cancel r q h =
    let same : some r ≡ some q =
      sym (enum_of-int ⦃e = recipe_id_enum⦄ r)
      ∙ ap (λ (n : ℕ). enum_of ⦃e = recipe_id_enum⦄ n)
          (counter_of-int r ∙ ap (λ (n : ℕ). n + 200) h ∙ sym (counter_of-int q))
      ∙ enum_of-int ⦃e = recipe_id_enum⦄ q in
    cc

-- The counters that the sensors show are those that a poll reads, one for each drink, in their order;
-- a counter that is entered shows on the sensor of its drink, and all others show what they did.
pub counters_lem :
    (d : MelittaData)
    → (map counter_of recipe_id_enum.members ≡ up_to 24 0)
      × ((r : RecipeId) (v : ℤ)
          → let after = record d { cup_counters = insert (counter_of r) v d.cup_counters } in
            (cups r after ≡ some v) × ((q : RecipeId) → r ≢ q → cups q after ≡ cups q d))
unfolding cups counter_of
counters_lem d = (
  refl,
  λ r v. (
    entered r r v ∙ rw ((==_iff (counter_of r) (counter_of r)).1 refl) refl,
    λ q other. elim (Bool-cases (counter_of r == counter_of q)) [
      | inl e ↦ absurd (other (counter_of-cancel r q ((==_iff (counter_of r) (counter_of q)).0 e)))
      | inr e ↦ entered r q v ∙ rw e refl
    ],
  ),
)
  where
    entered :
        (r q : RecipeId) (v : ℤ)
        → lookup (counter_of q) (insert (counter_of r) v d.cup_counters)
          ≡ (if counter_of r == counter_of q then some v else lookup (counter_of q) d.cup_counters)
    entered r q v = lookup-insert (counter_of r) (counter_of q) v d.cup_counters
