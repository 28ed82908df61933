-- ===== src/Const/DirectKeys.antt =====
-- const.py: the direct keys of a profile.
use Prim.Native.String.{String}
use hass_melitta_barista_ts.Prelude.{ℕ, ◌≡◌, refl, List, [], ◌∷◌, Option, some}
use hass_melitta_barista_ts.Const.Enum.{IntEnum, find_member, find_text}

-- The seven drinks that a profile stores.
pub data DirectKeyCategory : Type 0 where
  espresso cafe_creme cappuccino latte_macchiato milk_froth milk water : DirectKeyCategory

abbrev direct_key_category_value : DirectKeyCategory → ℕ
direct_key_category_value DirectKeyCategory.espresso = 0
direct_key_category_value DirectKeyCategory.cafe_creme = 1
direct_key_category_value DirectKeyCategory.cappuccino = 2
direct_key_category_value DirectKeyCategory.latte_macchiato = 3
direct_key_category_value DirectKeyCategory.milk_froth = 4
direct_key_category_value DirectKeyCategory.milk = 5
direct_key_category_value DirectKeyCategory.water = 6

abbrev direct_key_category_members : List DirectKeyCategory
direct_key_category_members =
    DirectKeyCategory.espresso ∷ DirectKeyCategory.cafe_creme ∷ DirectKeyCategory.cappuccino
    ∷ DirectKeyCategory.latte_macchiato ∷ DirectKeyCategory.milk_froth ∷ DirectKeyCategory.milk
    ∷ DirectKeyCategory.water ∷ []

pub direct_key_category_found :
    (a : DirectKeyCategory)
    → find_member direct_key_category_value direct_key_category_members
        (direct_key_category_value a)
      ≡ some a
direct_key_category_found DirectKeyCategory.espresso = refl
direct_key_category_found DirectKeyCategory.cafe_creme = refl
direct_key_category_found DirectKeyCategory.cappuccino = refl
direct_key_category_found DirectKeyCategory.latte_macchiato = refl
direct_key_category_found DirectKeyCategory.milk_froth = refl
direct_key_category_found DirectKeyCategory.milk = refl
direct_key_category_found DirectKeyCategory.water = refl

instance abbrev pub direct_key_category_enum : IntEnum DirectKeyCategory
direct_key_category_enum = record {
  value = direct_key_category_value;
  members = direct_key_category_members;
  found = direct_key_category_found;
}

abbrev pub directkey_slugs : DirectKeyCategory → String
directkey_slugs DirectKeyCategory.espresso = "espresso"
directkey_slugs DirectKeyCategory.cafe_creme = "cafe_creme"
directkey_slugs DirectKeyCategory.cappuccino = "cappuccino"
directkey_slugs DirectKeyCategory.latte_macchiato = "latte_macchiato"
directkey_slugs DirectKeyCategory.milk_froth = "milk_froth"
directkey_slugs DirectKeyCategory.milk = "milk"
directkey_slugs DirectKeyCategory.water = "hot_water"

abbrev pub slug_to_directkey : String → Option DirectKeyCategory
slug_to_directkey = find_text directkey_slugs direct_key_category_members

-- No two slugs are the same.
pub slug_to_directkey-directkey_slugs :
    (a : DirectKeyCategory) → slug_to_directkey (directkey_slugs a) ≡ some a
slug_to_directkey-directkey_slugs DirectKeyCategory.espresso = refl
slug_to_directkey-directkey_slugs DirectKeyCategory.cafe_creme = refl
slug_to_directkey-directkey_slugs DirectKeyCategory.cappuccino = refl
slug_to_directkey-directkey_slugs DirectKeyCategory.latte_macchiato = refl
slug_to_directkey-directkey_slugs DirectKeyCategory.milk_froth = refl
slug_to_directkey-directkey_slugs DirectKeyCategory.milk = refl
slug_to_directkey-directkey_slugs DirectKeyCategory.water = refl

abbrev pub directkey_display_names : DirectKeyCategory → String
directkey_display_names DirectKeyCategory.espresso = "Espresso"
directkey_display_names DirectKeyCategory.cafe_creme = "Cafe Creme"
directkey_display_names DirectKeyCategory.cappuccino = "Cappuccino"
directkey_display_names DirectKeyCategory.latte_macchiato = "Latte Macchiato"
directkey_display_names DirectKeyCategory.milk_froth = "Milk Froth"
directkey_display_names DirectKeyCategory.milk = "Milk"
directkey_display_names DirectKeyCategory.water = "Hot Water"
