-- ===== src/Entities/Numbers.antt =====
-- number.py. A float is the fraction that it stands for, of a number from 0 up; that the division by 5
-- rounds again is left out, which the values in steps of 5 do not meet.
pub mod Portions
use hass_melitta_barista_ts.Prelude.{
  ℕ, suc, ◌+◌, ◌*◌, ◌/◌, ◌%◌, min, Bool, ltb, ◌==◌, ◌&&◌, if◌then◌else◌, ◌++◌, Option, none, some,
}
use hass_melitta_barista_ts.Prelude.Int.{ℤ, pos}
use hass_melitta_barista_ts.Const.Enum.{int}
use hass_melitta_barista_ts.Const.Brewing.{portion_step_ml, portion_max_ml}
use hass_melitta_barista_ts.Const.Settings.{SettingId, setting_id_enum}
use hass_melitta_barista_ts.Client.Text.{text}
use hass_melitta_barista_ts.Client.Connect.{World}
use hass_melitta_barista_ts.Coordinator.State.{Coordinator, C, ◌>>◌, modify, update_listeners}
use hass_melitta_barista_ts.Coordinator.Commands.{async_write_setting}
use hass_melitta_barista_ts.Coordinator.Reported.{reported}
use hass_melitta_barista_ts.Entities.Base.{available}
use hass_melitta_barista_ts.Services.Requests.{is_some}

abbrev pub portion_ui_max_ml : ℕ
portion_ui_max_ml = min portion_max_ml 400

-- Python's `round` of a fraction: to the nearest whole number, and from half way to the even one.
unfoldable pub round : ℕ → ℕ → ℕ
round numerator denominator =
    let whole : ℕ = numerator / denominator in
    let rest : ℕ = 2 * (numerator % denominator) in
    if ltb rest denominator
    then whole
    else if ltb denominator rest
    then whole + 1
    else if whole % 2 == 0
    then whole
    else whole + 1

-- `MelittaPortionNumber.async_set_native_value`, of `numerator / denominator` millilitres.
unfoldable pub set_portion : ℕ → ℕ → C (Unit {0})
unfolding round
set_portion numerator denominator =
    modify (λ s. record s {
      brew_settings = record s.brew_settings {
        portion_ml = pos (round numerator (denominator * portion_step_ml) * portion_step_ml);
      };
    })
    >> update_listeners

-- `MelittaPortionNumber.native_value`
unfoldable pub portion_value : Coordinator → ℤ
portion_value s = s.brew_settings.portion_ml

-- `MelittaAutoOffNumber.available`
unfoldable pub auto_off_available : ℕ → Coordinator → Bool
auto_off_available now s = available now s && is_some s.content.auto_off_after

-- `MelittaAutoOffNumber.async_set_native_value`: `int` drops the fraction.
unfoldable pub set_auto_off : World → ℕ → ℕ → C (Unit {0})
set_auto_off world numerator denominator = reported (text "Could not set the auto-off delay: ") (
    async_write_setting world (pos (int ⦃e = setting_id_enum⦄ SettingId.auto_off_after))
      (pos (numerator / denominator)))
