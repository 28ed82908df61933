-- ===== src/Protocol/Status.antt =====
-- protocol.py, `MachineStatus`.
pub mod Decoding
use Prim.Native.Nat.{bit_and, bit_or}
use hass_melitta_barista_ts.Prelude.{
  ℕ, Bool, not, ltb, if◌then◌else◌, List, [], ◌∷◌, Option, length, get_or,
}
use hass_melitta_barista_ts.Prelude.Int.{ℤ, pos, eq_ℤ}
use hass_melitta_barista_ts.Errors.{Result, ok, err, protocol_error}
use hass_melitta_barista_ts.Const.Enum.{int, enum_of, enum_of_int}
use hass_melitta_barista_ts.Const.Status.{
  MachineProcess, SubProcess, Manipulation, InfoMessage, machine_process_enum, sub_process_enum,
  manipulation_enum as manipulation_class, info_message_value, info_message_members,
}
use hass_melitta_barista_ts.Protocol.Words.{unpack_i16}

pub record MachineStatus : Type 0 where
  pub process : ℤ
  pub sub_process : ℤ
  pub info_messages : ℕ
  pub manipulation : ℕ
  pub progress : ℤ

unfoldable pub from_payload : List ℕ → Result MachineStatus
from_payload raw =
    if ltb (length raw) 8
    then err protocol_error
    else ok (record {
      process = unpack_i16 (get_or raw 0 0) (get_or raw 1 0);
      sub_process = unpack_i16 (get_or raw 2 0) (get_or raw 3 0);
      info_messages = get_or raw 4 0;
      manipulation = get_or raw 5 0;
      progress = unpack_i16 (get_or raw 6 0) (get_or raw 7 0);
    })

-- `none` where the source catches the ValueError and returns None.
pub process_enum : MachineStatus → Option MachineProcess
process_enum s = enum_of_int s.process

pub sub_process_enum_of : MachineStatus → Option SubProcess
sub_process_enum_of s = enum_of_int s.sub_process

pub manipulation_enum : MachineStatus → Option Manipulation
manipulation_enum s = enum_of ⦃e = manipulation_class⦄ s.manipulation

-- `known |= flag.value` for each flag.
abbrev known_bits : ℕ → List InfoMessage → ℕ
known_bits known [] = known
known_bits known (flag ∷ rest) = known_bits (bit_or known (info_message_value flag)) rest

-- The bits of the flag set; what the class does not define is dropped.
unfoldable pub info_flags : MachineStatus → ℕ
info_flags s = bit_and s.info_messages (known_bits 0 info_message_members)

unfoldable pub is_busy : MachineStatus → Bool
is_busy s = not (eq_ℤ s.process (pos (int MachineProcess.ready)))
