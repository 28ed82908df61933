-- ===== src/Machine/Writes.antt =====
-- machine.py: the operations that write. Each ends with the machine's acknowledgement.
pub mod Layout
use hass_melitta_barista_ts.Prelude.{
  ℕ, ◌+◌, ◌-◌, ◌%◌, Bool, if◌then◌else◌, List, [], ◌∷◌, ◌++◌, Option, none, some, length, take,
  drop, replicate, set,
}
use hass_melitta_barista_ts.Prelude.Int.{ℤ}
use hass_melitta_barista_ts.Errors.{Result, ok}
use hass_melitta_barista_ts.Const.Framing.{
  cmd_write_numerical, cmd_write_alpha, cmd_write_recipe, cmd_start_process, cmd_cancel_process,
}
use hass_melitta_barista_ts.Protocol.Words.{pack_i32, pack_u16}
use hass_melitta_barista_ts.Protocol.Recipe.{RecipeComponent, to_bytes}
use hass_melitta_barista_ts.Machine.Session.{M, lift, ◌>>=◌, request_ack}
use hass_melitta_barista_ts.Machine.Reads.{pack_id}

unfoldable pub write_numerical : ℤ → ℤ → M (Unit {0})
write_numerical value_id value = do
  packed ← lift (pack_id value_id)
  bytes ← lift (pack_i32 value)
  request_ack cmd_write_numerical (packed ++ bytes)

-- `text.encode("utf-8")[:64]`, filled up with NUL bytes to 64; the text is given encoded.
pub name_field : List ℕ → List ℕ
name_field text =
    let encoded : List ℕ = take 64 text in encoded ++ replicate (64 - length encoded) 0

unfoldable pub write_alphanumeric : ℤ → List ℕ → M (Unit {0})
write_alphanumeric value_id text = do
  packed ← lift (pack_id value_id)
  request_ack cmd_write_alpha (packed ++ name_field text)

-- `buffer[offset : offset + len(bytes)] = bytes`
abbrev splice : ℕ → List ℕ → List ℕ → List ℕ
splice offset bytes buffer = take offset buffer ++ bytes ++ drop (offset + length bytes) buffer

-- The 66 bytes of HJ. With a recipe key the components stand one byte further on.
pub recipe_payload : List ℕ → ℕ → RecipeComponent → RecipeComponent → Option ℕ → List ℕ
recipe_payload packed recipe_type component1 component2 recipe_key =
    let buffer : List ℕ = set (splice 0 packed (replicate 66 0)) 2 (recipe_type % 256) in
    let offset : ℕ = elim recipe_key [ none ↦ 3 | some key ↦ 4 ] in
    let keyed : List ℕ = elim recipe_key [ none ↦ buffer | some key ↦ set buffer 3 (key % 256) ] in
    splice (offset + 8) (to_bytes component2) (splice offset (to_bytes component1) keyed)

unfoldable pub write_recipe : ℤ → ℕ → RecipeComponent → RecipeComponent → Option ℕ → M (Unit {0})
write_recipe recipe_id recipe_type component1 component2 recipe_key = do
  packed ← lift (pack_id recipe_id)
  request_ack cmd_write_recipe (recipe_payload packed recipe_type component1 component2 recipe_key)

-- The 18 bytes of HE.
pub process_payload : List ℕ → Bool → List ℕ
process_payload packed two_cups =
    let buffer : List ℕ = splice 2 (0 ∷ 2 ∷ []) (splice 0 packed (replicate 18 0)) in
    if two_cups then splice 6 (0 ∷ 1 ∷ []) buffer else buffer

unfoldable pub start_process : ℤ → Bool → M (Unit {0})
start_process process two_cups = do
  packed ← lift (pack_u16 process)
  request_ack cmd_start_process (process_payload packed two_cups)

unfoldable pub cancel_process : ℤ → M (Unit {0})
cancel_process process = do
  packed ← lift (pack_id process)
  request_ack cmd_cancel_process (packed ++ 0 ∷ 0 ∷ [])
