-- ===== src/Entities/Binary/Conditions.antt =====
-- What the conditions say of the status.
use Prim.Native.Nat.{bit_and}
use hass_melitta_barista_ts.Prelude.{
  ℕ, ◌/◌, ◌%◌, ◌<◌, ◌≡◌, refl, sym, ap, ◌∙◌, Bool, true, false, not, ◌==◌, none, some, arith,
}
use hass_melitta_barista_ts.Prelude.Bits.{all_below, all_below_sound}
use hass_melitta_barista_ts.Const.Enum.{int, enum_of, enum_of-int}
use hass_melitta_barista_ts.Const.Status.{
  machine_process_enum, Manipulation, manipulation_enum, InfoMessage, info_message_value,
}
use hass_melitta_barista_ts.Protocol.Status.{MachineStatus, info_flags, is_busy}
use hass_melitta_barista_ts.Coordinator.State.{MelittaData}
use hass_melitta_barista_ts.Entities.Binary.{manipulation_is, info_flag, brewing, maintenance}

-- The numbers tell the manipulations apart.
manipulation-cancel :
    (a b : Manipulation) → int ⦃e = manipulation_enum⦄ a ≡ int ⦃e = manipulation_enum⦄ b → a ≡ b
manipulation-cancel a b h =
    let same : some a ≡ some b =
      sym (enum_of-int ⦃e = manipulation_enum⦄ a)
      ∙ ap (λ (n : ℕ). enum_of ⦃e = manipulation_enum⦄ n) h
      ∙ enum_of-int ⦃e = manipulation_enum⦄ b in
    cc

-- The bit of a flag, read off the number.
abbrev pub bit_of : ℕ → InfoMessage → Bool
bit_of v flag = v / info_message_value flag % 2 == 1

abbrev bool_eq : Bool → Bool → Bool
bool_eq true b = b
bool_eq false b = not b

eq_of_bool_eq : (a b : Bool) → bool_eq a b ≡ true → a ≡ b
eq_of_bool_eq true b h = sym h
eq_of_bool_eq false true h = absurd (cc)
eq_of_bool_eq false false h = refl

abbrev shows_flag : InfoMessage → ℕ → Bool
shows_flag flag v =
    bool_eq (not (bit_and (bit_and v 31) (info_message_value flag) == 0)) (bit_of v flag)

flag_table : (flag : InfoMessage) → all_below 256 (shows_flag flag) ≡ true
unfolding all_below
flag_table InfoMessage.fill_beans_1 = refl
flag_table InfoMessage.fill_beans_2 = refl
flag_table InfoMessage.easy_clean = refl
flag_table InfoMessage.powder_filled = refl
flag_table InfoMessage.preparation_cancelled = refl

info_flag-bit :
    (flag : InfoMessage) (status : MachineStatus)
    → status.info_messages < 256
    → not (bit_and (info_flags status) (info_message_value flag) == 0)
      ≡ bit_of status.info_messages flag
unfolding info_flags
info_flag-bit flag status small =
    eq_of_bool_eq _ _
      (all_below_sound 256 (shows_flag flag) status.info_messages (flag_table flag) small)

-- Of a status whose info byte is one: at most one of the conditions on the display is on; a flag's
-- condition is on exactly when its bit is set; brewing and maintenance are never on together, and each
-- only while the machine is busy. Before the first status all of them are unknown.
pub conditions_lem :
    (d : MelittaData)
    → (d.status ≡ none
        → (a : Manipulation) (flag : InfoMessage)
        → (manipulation_is a d ≡ none)
          × (info_flag flag d ≡ none)
          × (brewing d ≡ none)
          × (maintenance d ≡ none))
      × ((status : MachineStatus)
          → d.status ≡ some status
          → status.info_messages < 256
          → ((a b : Manipulation)
              → manipulation_is a d ≡ some true
              → manipulation_is b d ≡ some true
              → a ≡ b)
            × ((flag : InfoMessage) → info_flag flag d ≡ some (bit_of status.info_messages flag))
            × (brewing d ≡ some true → (maintenance d ≡ some false) × (is_busy status ≡ true))
            × (maintenance d ≡ some true → is_busy status ≡ true))
unfolding manipulation_is info_flag brewing maintenance is_busy
conditions_lem d = (
  λ h a flag. rw h (refl, refl, refl, refl),
  λ status h small. rw h (
    λ a b p q. manipulation-cancel a b (ground arith),
    λ flag. ap some (info_flag-bit flag status small),
    λ p. (ground arith, ground arith),
    λ p. ground arith,
  ),
)
