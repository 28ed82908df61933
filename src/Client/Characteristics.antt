-- ===== src/Client/Characteristics.antt =====
-- client.py, `_is_writable`, `_write_char_candidates` and `_notify_chars`.
pub mod Ordered
pub mod Candidates
use hass_melitta_barista_ts.Prelude.{
  ℕ, Bool, true, false, ◌||◌, ◌&&◌, not, ◌==◌, if◌then◌else◌, List, [], ◌∷◌, ◌++◌, map, Option,
  none, some, bytes_eq,
}
use hass_melitta_barista_ts.Errors.{Result, ok, err, connection_error}
use hass_melitta_barista_ts.Client.Text.{Text, text, lower}

-- `handle` tells the objects apart; `char not in ordered` compares objects.
pub record Characteristic : Type 0 where
  pub handle : ℕ
  pub uuid : Text
  pub write : Bool
  pub write_without_response : Bool
  pub notify : Bool

unfoldable pub is_writable : Characteristic → Bool
is_writable char = char.write || char.write_without_response

abbrev pub char_notify_uuid : Text
char_notify_uuid = text "0000ad02-b35c-11e4-9813-0002a5d5c51b"

abbrev pub char_write_uuid_candidates : List Text
char_write_uuid_candidates =
    text "0000ad03-b35c-11e4-9813-0002a5d5c51b" ∷ text "0000ad01-b35c-11e4-9813-0002a5d5c51b" ∷ []

-- `available.get(uuid)`: the dict keeps the last characteristic of a UUID.
pub available : Text → List Characteristic → Option Characteristic
available uuid [] = none
available uuid (char ∷ chars) = elim (available uuid chars) [
  | some found ↦ some found
  | none ↦ if bytes_eq (lower char.uuid) uuid then some char else none
]

abbrev pub is_in : Characteristic → List Characteristic → Bool
is_in char [] = false
is_in char (c ∷ chars) = c.handle == char.handle || is_in char chars

-- The first loop, over the UUIDs.
pub preferred : List Text → List Characteristic → List Characteristic
unfolding available
preferred [] chars = []
preferred (uuid ∷ uuids) chars =
    let rest = preferred uuids chars in
    elim (available (lower uuid) chars) [
      | none ↦ rest
      | some char ↦ if is_writable char then char ∷ rest else rest
    ]

-- The second loop, with what is in the list so far.
pub add_writable : List Characteristic → List Characteristic → List Characteristic
add_writable ordered [] = ordered
add_writable ordered (char ∷ chars) =
    add_writable
      (if is_writable char && not (is_in char ordered) then ordered ++ char ∷ [] else ordered) chars

abbrev pub non_empty : List Characteristic → Result (List Characteristic)
non_empty [] = err connection_error
non_empty (c ∷ cs) = ok (c ∷ cs)

-- `none` is a machine without the vendor service.
unfoldable pub write_char_candidates : Option (List Characteristic) → Result (List Characteristic)
unfolding preferred add_writable
write_char_candidates none = err connection_error
write_char_candidates (some chars) =
    non_empty (add_writable (preferred char_write_uuid_candidates chars) chars)

-- `found.sort(key=...)` with a Boolean key, which is stable: those with False first.
abbrev documented : Text → Bool
documented uuid = bytes_eq (lower uuid) (lower char_notify_uuid)

pub keep : (Text → Bool) → List Text → List Text
keep test [] = []
keep test (t ∷ ts) = if test t then t ∷ keep test ts else keep test ts

pub notifying : List Characteristic → List Text
notifying [] = []
notifying (c ∷ cs) = if c.notify then c.uuid ∷ notifying cs else notifying cs

abbrev sorted_or_error : List Text → Result (List Text)
sorted_or_error [] = err connection_error
sorted_or_error (t ∷ ts) = ok (keep documented (t ∷ ts) ++ keep (λ u. not (documented u)) (t ∷ ts))

unfoldable pub notify_chars : Option (List Characteristic) → Result (List Text)
unfolding keep notifying lower
notify_chars none = err connection_error
notify_chars (some chars) = sorted_or_error (notifying chars)
