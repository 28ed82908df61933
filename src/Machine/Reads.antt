-- ===== src/Machine/Reads.antt =====
-- machine.py: the operations that read.
pub mod Matching
use hass_melitta_barista_ts.Prelude.{
  ℕ, zero, suc, false, if◌then◌else◌, List, [], ◌∷◌, Option, none, some,
}
use hass_melitta_barista_ts.Prelude.Int.{ℤ, eq_ℤ}
use hass_melitta_barista_ts.Errors.{command_timeout, Result}
use hass_melitta_barista_ts.Const.Framing.{
  Command, cmd_read_status, cmd_read_version, cmd_read_numerical, cmd_read_alpha, cmd_read_recipe,
}
use hass_melitta_barista_ts.Protocol.Words.{pack_i16}
use hass_melitta_barista_ts.Protocol.Recipe
use hass_melitta_barista_ts.Protocol.Recipe.{MachineRecipe}
use hass_melitta_barista_ts.Protocol.Status
use hass_melitta_barista_ts.Protocol.Status.{MachineStatus}
use hass_melitta_barista_ts.Protocol.Values.{
  NumericalValue, AlphanumericValue, numerical_from_payload, alphanumeric_from_payload, before_nul,
}
use hass_melitta_barista_ts.Machine.Session.{Session, M, pure, raise, lift, ◌>>=◌, reply, request}

abbrev pub stale_answer_retries : ℕ
stale_answer_retries = 2

-- `_pack_id`
unfoldable pub pack_id : ℤ → Result (List ℕ)
pack_id = pack_i16

unfoldable pub read_status : M MachineStatus
read_status = do
  payload ← request cmd_read_status [] (reply cmd_read_status) false
  lift (Status.from_payload payload)

-- The bytes of the version text; decoding and `strip` are left out.
pub read_firmware : M (List ℕ)
read_firmware = do
  payload ← request cmd_read_version [] (reply cmd_read_version) false
  pure (before_nul payload)

-- The loop, with the attempts left: an answer for another register is passed over.
pub numerical_loop : ℕ → ℤ → M ℤ
unfolding pack_id
numerical_loop zero value_id = raise command_timeout
numerical_loop (suc attempts) value_id =
    let again = numerical_loop attempts value_id in
    do
      packed ← lift (pack_id value_id)
      payload ← request cmd_read_numerical packed (reply cmd_read_numerical) false
      answer ← lift (numerical_from_payload payload)
      if eq_ℤ answer.value_id value_id then pure answer.value else again

unfoldable pub read_numerical : ℤ → M ℤ
unfolding numerical_loop
read_numerical value_id = numerical_loop stale_answer_retries value_id

pub alphanumeric_loop : ℕ → ℤ → M (List ℕ)
unfolding pack_id
alphanumeric_loop zero value_id = raise command_timeout
alphanumeric_loop (suc attempts) value_id =
    let again = alphanumeric_loop attempts value_id in
    do
      packed ← lift (pack_id value_id)
      payload ← request cmd_read_alpha packed (reply cmd_read_alpha) false
      answer ← lift (alphanumeric_from_payload payload)
      if eq_ℤ answer.value_id value_id then pure answer.value else again

unfoldable pub read_alphanumeric : ℤ → M (List ℕ)
unfolding alphanumeric_loop
read_alphanumeric value_id = alphanumeric_loop stale_answer_retries value_id

pub read_raw : Command → M (List ℕ)
read_raw command = request command [] (reply command) false

unfoldable pub read_recipe : ℤ → M MachineRecipe
unfolding pack_id
read_recipe recipe_id = do
  packed ← lift (pack_id recipe_id)
  payload ← request cmd_read_recipe packed (reply cmd_read_recipe) false
  lift (Recipe.from_payload payload)
