-- ===== src/Const/Slots/Registers.antt =====
-- The registers that the integration computes do not run into each other.
use hass_melitta_barista_ts.Prelude.{ℕ, ◌≤◌, ◌<◌, ◌≡◌, ◌≢◌, ap, sym, ◌∙◌, Option, none, some, arith}
use hass_melitta_barista_ts.Const.Enum.{int, enum_of, enum_of-int}
use hass_melitta_barista_ts.Const.DirectKeys.{DirectKeyCategory, direct_key_category_enum}
use hass_melitta_barista_ts.Const.Slots.{
  directkey_recipe_id, profile_name_id, temp_recipe_id, freestyle_name_id, user_profile_count,
}
use hass_melitta_barista_ts.Const.Settings.{MachineType}

category-lt : (c : DirectKeyCategory) → int c < 7
category-lt DirectKeyCategory.espresso = omega arith
category-lt DirectKeyCategory.cafe_creme = omega arith
category-lt DirectKeyCategory.cappuccino = omega arith
category-lt DirectKeyCategory.latte_macchiato = omega arith
category-lt DirectKeyCategory.milk_froth = omega arith
category-lt DirectKeyCategory.milk = omega arith
category-lt DirectKeyCategory.water = omega arith

profile_count-le : (t : Option MachineType) → user_profile_count t ≤ 8
unfolding user_profile_count
profile_count-le none = omega arith
profile_count-le (some MachineType.barista_t) = omega arith
profile_count-le (some MachineType.barista_ts) = omega arith

-- Two direct keys share a recipe slot only if they are the same key of the same profile, and for the
-- profiles that a machine of any type has, no direct key's slot is a profile's name register, the
-- scratch recipe or the scratch name.
pub directkey_recipe_id_separate :
    (t : Option MachineType) (p q n : ℕ) (c d : DirectKeyCategory)
    → p ≤ user_profile_count t
    → (directkey_recipe_id p c ≡ directkey_recipe_id q d → (p ≡ q) × (c ≡ d))
      × (profile_name_id q ≡ some n → directkey_recipe_id p c ≢ n)
      × (directkey_recipe_id p c ≢ temp_recipe_id)
      × (directkey_recipe_id p c ≢ freestyle_name_id)
unfolding directkey_recipe_id profile_name_id
directkey_recipe_id_separate t p q n c d h = (
  λ e. (
    omega (arith, category-lt c, category-lt d),
    same (omega (arith, category-lt c, category-lt d)),
  ),
  λ e k. ground (arith, category-lt c),
  λ k. absurd (omega (arith, category-lt c, profile_count-le t)),
  λ k. absurd (omega (arith, category-lt c, profile_count-le t)),
)
  where
    same : int c ≡ int d → c ≡ d
    same e =
        let o : some c ≡ some d =
          sym (enum_of-int c)
          ∙ ap (λ (k : ℕ). enum_of ⦃e = direct_key_category_enum⦄ k) e
          ∙ enum_of-int d in
        cc
