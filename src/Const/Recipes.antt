-- ===== src/Const/Recipes.antt =====
-- const.py, "Recipes": the built-in recipes, their slugs and display names.
use Prim.Native.String.{String}
use hass_melitta_barista_ts.Prelude.{ℕ, ◌≡◌, refl, List, [], ◌∷◌, Option, some}
use hass_melitta_barista_ts.Prelude.Dict.{Dict}
use hass_melitta_barista_ts.Const.Enum.{IntEnum, find_member, find_text}

-- The built-in recipe slots.
pub data RecipeId : Type 0 where
  espresso ristretto lungo espresso_doppio ristretto_doppio cafe_creme : RecipeId
  cafe_creme_doppio americano americano_extra long_black red_eye black_eye : RecipeId
  dead_eye cappuccino espresso_macchiato caffe_latte cafe_au_lait flat_white : RecipeId
  latte_macchiato latte_macchiato_extra latte_macchiato_triple milk milk_froth : RecipeId
  hot_water : RecipeId

abbrev recipe_id_value : RecipeId → ℕ
recipe_id_value RecipeId.espresso = 200
recipe_id_value RecipeId.ristretto = 201
recipe_id_value RecipeId.lungo = 202
recipe_id_value RecipeId.espresso_doppio = 203
recipe_id_value RecipeId.ristretto_doppio = 204
recipe_id_value RecipeId.cafe_creme = 205
recipe_id_value RecipeId.cafe_creme_doppio = 206
recipe_id_value RecipeId.americano = 207
recipe_id_value RecipeId.americano_extra = 208
recipe_id_value RecipeId.long_black = 209
recipe_id_value RecipeId.red_eye = 210
recipe_id_value RecipeId.black_eye = 211
recipe_id_value RecipeId.dead_eye = 212
recipe_id_value RecipeId.cappuccino = 213
recipe_id_value RecipeId.espresso_macchiato = 214
recipe_id_value RecipeId.caffe_latte = 215
recipe_id_value RecipeId.cafe_au_lait = 216
recipe_id_value RecipeId.flat_white = 217
recipe_id_value RecipeId.latte_macchiato = 218
recipe_id_value RecipeId.latte_macchiato_extra = 219
recipe_id_value RecipeId.latte_macchiato_triple = 220
recipe_id_value RecipeId.milk = 221
recipe_id_value RecipeId.milk_froth = 222
recipe_id_value RecipeId.hot_water = 223

abbrev recipe_id_members : List RecipeId
recipe_id_members =
    RecipeId.espresso ∷ RecipeId.ristretto ∷ RecipeId.lungo ∷ RecipeId.espresso_doppio
    ∷ RecipeId.ristretto_doppio ∷ RecipeId.cafe_creme ∷ RecipeId.cafe_creme_doppio
    ∷ RecipeId.americano ∷ RecipeId.americano_extra ∷ RecipeId.long_black ∷ RecipeId.red_eye
    ∷ RecipeId.black_eye ∷ RecipeId.dead_eye ∷ RecipeId.cappuccino ∷ RecipeId.espresso_macchiato
    ∷ RecipeId.caffe_latte ∷ RecipeId.cafe_au_lait ∷ RecipeId.flat_white ∷ RecipeId.latte_macchiato
    ∷ RecipeId.latte_macchiato_extra ∷ RecipeId.latte_macchiato_triple ∷ RecipeId.milk
    ∷ RecipeId.milk_froth ∷ RecipeId.hot_water ∷ []

pub recipe_id_found :
    (a : RecipeId) → find_member recipe_id_value recipe_id_members (recipe_id_value a) ≡ some a
recipe_id_found RecipeId.espresso = refl
recipe_id_found RecipeId.ristretto = refl
recipe_id_found RecipeId.lungo = refl
recipe_id_found RecipeId.espresso_doppio = refl
recipe_id_found RecipeId.ristretto_doppio = refl
recipe_id_found RecipeId.cafe_creme = refl
recipe_id_found RecipeId.cafe_creme_doppio = refl
recipe_id_found RecipeId.americano = refl
recipe_id_found RecipeId.americano_extra = refl
recipe_id_found RecipeId.long_black = refl
recipe_id_found RecipeId.red_eye = refl
recipe_id_found RecipeId.black_eye = refl
recipe_id_found RecipeId.dead_eye = refl
recipe_id_found RecipeId.cappuccino = refl
recipe_id_found RecipeId.espresso_macchiato = refl
recipe_id_found RecipeId.caffe_latte = refl
recipe_id_found RecipeId.cafe_au_lait = refl
recipe_id_found RecipeId.flat_white = refl
recipe_id_found RecipeId.latte_macchiato = refl
recipe_id_found RecipeId.latte_macchiato_extra = refl
recipe_id_found RecipeId.latte_macchiato_triple = refl
recipe_id_found RecipeId.milk = refl
recipe_id_found RecipeId.milk_froth = refl
recipe_id_found RecipeId.hot_water = refl

instance abbrev pub recipe_id_enum : IntEnum RecipeId
recipe_id_enum = record {
  value = recipe_id_value;
  members = recipe_id_members;
  found = recipe_id_found;
}

abbrev pub recipe_slugs : RecipeId → String
recipe_slugs RecipeId.espresso = "espresso"
recipe_slugs RecipeId.ristretto = "ristretto"
recipe_slugs RecipeId.lungo = "lungo"
recipe_slugs RecipeId.espresso_doppio = "espresso_doppio"
recipe_slugs RecipeId.ristretto_doppio = "ristretto_doppio"
recipe_slugs RecipeId.cafe_creme = "cafe_creme"
recipe_slugs RecipeId.cafe_creme_doppio = "cafe_creme_doppio"
recipe_slugs RecipeId.americano = "americano"
recipe_slugs RecipeId.americano_extra = "americano_extra"
recipe_slugs RecipeId.long_black = "long_black"
recipe_slugs RecipeId.red_eye = "red_eye"
recipe_slugs RecipeId.black_eye = "black_eye"
recipe_slugs RecipeId.dead_eye = "dead_eye"
recipe_slugs RecipeId.cappuccino = "cappuccino"
recipe_slugs RecipeId.espresso_macchiato = "espresso_macchiato"
recipe_slugs RecipeId.caffe_latte = "caffe_latte"
recipe_slugs RecipeId.cafe_au_lait = "cafe_au_lait"
recipe_slugs RecipeId.flat_white = "flat_white"
recipe_slugs RecipeId.latte_macchiato = "latte_macchiato"
recipe_slugs RecipeId.latte_macchiato_extra = "latte_macchiato_extra"
recipe_slugs RecipeId.latte_macchiato_triple = "latte_macchiato_triple"
recipe_slugs RecipeId.milk = "milk"
recipe_slugs RecipeId.milk_froth = "milk_froth"
recipe_slugs RecipeId.hot_water = "hot_water"

abbrev pub slug_to_recipe : String → Option RecipeId
slug_to_recipe = find_text recipe_slugs recipe_id_members

-- No two slugs are the same.
pub slug_to_recipe-recipe_slugs : (a : RecipeId) → slug_to_recipe (recipe_slugs a) ≡ some a
slug_to_recipe-recipe_slugs RecipeId.espresso = refl
slug_to_recipe-recipe_slugs RecipeId.ristretto = refl
slug_to_recipe-recipe_slugs RecipeId.lungo = refl
slug_to_recipe-recipe_slugs RecipeId.espresso_doppio = refl
slug_to_recipe-recipe_slugs RecipeId.ristretto_doppio = refl
slug_to_recipe-recipe_slugs RecipeId.cafe_creme = refl
slug_to_recipe-recipe_slugs RecipeId.cafe_creme_doppio = refl
slug_to_recipe-recipe_slugs RecipeId.americano = refl
slug_to_recipe-recipe_slugs RecipeId.americano_extra = refl
slug_to_recipe-recipe_slugs RecipeId.long_black = refl
slug_to_recipe-recipe_slugs RecipeId.red_eye = refl
slug_to_recipe-recipe_slugs RecipeId.black_eye = refl
slug_to_recipe-recipe_slugs RecipeId.dead_eye = refl
slug_to_recipe-recipe_slugs RecipeId.cappuccino = refl
slug_to_recipe-recipe_slugs RecipeId.espresso_macchiato = refl
slug_to_recipe-recipe_slugs RecipeId.caffe_latte = refl
slug_to_recipe-recipe_slugs RecipeId.cafe_au_lait = refl
slug_to_recipe-recipe_slugs RecipeId.flat_white = refl
slug_to_recipe-recipe_slugs RecipeId.latte_macchiato = refl
slug_to_recipe-recipe_slugs RecipeId.latte_macchiato_extra = refl
slug_to_recipe-recipe_slugs RecipeId.latte_macchiato_triple = refl
slug_to_recipe-recipe_slugs RecipeId.milk = refl
slug_to_recipe-recipe_slugs RecipeId.milk_froth = refl
slug_to_recipe-recipe_slugs RecipeId.hot_water = refl

abbrev pub recipe_display_names : RecipeId → String
recipe_display_names RecipeId.espresso = "Espresso"
recipe_display_names RecipeId.ristretto = "Ristretto"
recipe_display_names RecipeId.lungo = "Lungo"
recipe_display_names RecipeId.espresso_doppio = "Espresso Doppio"
recipe_display_names RecipeId.ristretto_doppio = "Ristretto Doppio"
recipe_display_names RecipeId.cafe_creme = "Cafe Creme"
recipe_display_names RecipeId.cafe_creme_doppio = "Cafe Creme Doppio"
recipe_display_names RecipeId.americano = "Americano"
recipe_display_names RecipeId.americano_extra = "Americano Extra"
recipe_display_names RecipeId.long_black = "Long Black"
recipe_display_names RecipeId.red_eye = "Red Eye"
recipe_display_names RecipeId.black_eye = "Black Eye"
recipe_display_names RecipeId.dead_eye = "Dead Eye"
recipe_display_names RecipeId.cappuccino = "Cappuccino"
recipe_display_names RecipeId.espresso_macchiato = "Espresso Macchiato"
recipe_display_names RecipeId.caffe_latte = "Caffe Latte"
recipe_display_names RecipeId.cafe_au_lait = "Cafe au Lait"
recipe_display_names RecipeId.flat_white = "Flat White"
recipe_display_names RecipeId.latte_macchiato = "Latte Macchiato"
recipe_display_names RecipeId.latte_macchiato_extra = "Latte Macchiato Extra"
recipe_display_names RecipeId.latte_macchiato_triple = "Latte Macchiato Triple"
recipe_display_names RecipeId.milk = "Milk"
recipe_display_names RecipeId.milk_froth = "Milk Froth"
recipe_display_names RecipeId.hot_water = "Hot Water"

-- The recipe type byte to the recipe key byte.
abbrev pub recipe_type_to_key : Dict ℕ
recipe_type_to_key =
    (0, 0)
    ∷ (1, 0)
    ∷ (2, 0)
    ∷ (3, 0)
    ∷ (4, 0)
    ∷ (5, 1)
    ∷ (6, 1)
    ∷ (7, 1)
    ∷ (8, 1)
    ∷ (9, 1)
    ∷ (10, 1)
    ∷ (11, 1)
    ∷ (12, 1)
    ∷ (13, 2)
    ∷ (14, 2)
    ∷ (15, 2)
    ∷ (16, 2)
    ∷ (17, 2)
    ∷ (18, 3)
    ∷ (19, 3)
    ∷ (20, 3)
    ∷ (21, 5)
    ∷ (22, 4)
    ∷ (23, 6)
    ∷ (24, 7)
    ∷ []
