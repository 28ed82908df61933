-- ===== src/Const/Framing.antt =====
-- const.py, "Framing": frame bytes, commands and what the machine can send. A command is its ASCII bytes.
use hass_melitta_barista_ts.Prelude.{
  ℕ, Bool, true, false, List, [], ◌∷◌, Option, none, some, bytes_eq, if◌then◌else◌,
}

abbrev pub frame_start : ℕ
frame_start = 83

abbrev pub frame_end : ℕ
frame_end = 69

abbrev pub ble_mtu : ℕ
ble_mtu = 20

abbrev pub rx_buffer_limit : ℕ
rx_buffer_limit = 128

-- The bytes of a command word.
abbrev pub Command : Type 0
Command = List ℕ

abbrev pub cmd_ack : Command
cmd_ack = b'A' ∷ []

abbrev pub cmd_nack : Command
cmd_nack = b'N' ∷ []

abbrev pub cmd_read_alpha : Command
cmd_read_alpha = b'H' ∷ b'A' ∷ []

abbrev pub cmd_write_alpha : Command
cmd_write_alpha = b'H' ∷ b'B' ∷ []

abbrev pub cmd_read_recipe : Command
cmd_read_recipe = b'H' ∷ b'C' ∷ []

abbrev pub cmd_start_process : Command
cmd_start_process = b'H' ∷ b'E' ∷ []

abbrev pub cmd_write_recipe : Command
cmd_write_recipe = b'H' ∷ b'J' ∷ []

abbrev pub cmd_read_numerical : Command
cmd_read_numerical = b'H' ∷ b'R' ∷ []

abbrev pub cmd_handshake : Command
cmd_handshake = b'H' ∷ b'U' ∷ []

abbrev pub cmd_read_version : Command
cmd_read_version = b'H' ∷ b'V' ∷ []

abbrev pub cmd_write_numerical : Command
cmd_write_numerical = b'H' ∷ b'W' ∷ []

abbrev pub cmd_read_status : Command
cmd_read_status = b'H' ∷ b'X' ∷ []

abbrev pub cmd_cancel_process : Command
cmd_cancel_process = b'H' ∷ b'Z' ∷ []

-- A command to its payload size and whether its frames are encrypted.
abbrev pub inbound_commands : List (Command × ℕ × Bool)
inbound_commands =
    (cmd_ack, 0, false)
    ∷ (cmd_nack, 0, false)
    ∷ ((b'H' ∷ b'A' ∷ []), 66, true)
    ∷ ((b'H' ∷ b'C' ∷ []), 66, true)
    ∷ ((b'H' ∷ b'F' ∷ []), 16, true)
    ∷ ((b'H' ∷ b'L' ∷ []), 20, true)
    ∷ ((b'H' ∷ b'P' ∷ []), 14, true)
    ∷ ((b'H' ∷ b'Q' ∷ []), 15, true)
    ∷ ((b'H' ∷ b'R' ∷ []), 6, true)
    ∷ ((b'H' ∷ b'U' ∷ []), 8, true)
    ∷ ((b'H' ∷ b'V' ∷ []), 11, true)
    ∷ ((b'H' ∷ b'X' ∷ []), 8, true)
    ∷ []

abbrev find_command : Command → List (Command × ℕ × Bool) → Option (ℕ × Bool)
find_command c [] = none
find_command c ((k, size, encrypted) ∷ rest) =
    if bytes_eq k c then some (size, encrypted) else find_command c rest

-- `INBOUND_COMMANDS.get(c)`
unfoldable pub lookup_inbound : Command → Option (ℕ × Bool)
unfolding bytes_eq
lookup_inbound c = find_command c inbound_commands
