-- ===== src/Client/Adapters.antt =====
-- client.py, `scanner_source` and `_pick_device`.
pub mod Rotation
pub mod Picked
use hass_melitta_barista_ts.Prelude.{
  ℕ, zero, suc, ◌+◌, ◌%◌, Bool, true, false, if◌then◌else◌, List, [], ◌∷◌, Option, none, some,
  length, get_elem?, bytes_eq,
}
use hass_melitta_barista_ts.Client.Text.{Text, text, split}

-- The entries of `device.details` that the code reads.
pub record Details : Type 0 where
  pub source : Option Text
  pub path : Option Text

-- `details` is none where it is no dict.
pub record Device : Type 0 where
  pub address : Text
  pub details : Option Details

abbrev unknown_adapter : Text
unknown_adapter = text "unknown adapter"

-- `parts[3]` of the object path, if it is there and not empty.
abbrev adapter_part : List Text → Text
adapter_part (a ∷ b ∷ c ∷ (d ∷ ds) ∷ rest) = d ∷ ds
adapter_part _ = unknown_adapter

pub adapter_of_path : Option Text → Text
adapter_of_path none = unknown_adapter
adapter_of_path (some path) = adapter_part (split b'/' path)

-- An empty source counts as none.
pub source_or_path : Option Text → Option Text → Text
unfolding adapter_of_path
source_or_path (some (c ∷ cs)) path = c ∷ cs
source_or_path (some []) path = adapter_of_path path
source_or_path none path = adapter_of_path path

unfoldable pub scanner_source : Device → Text
unfolding source_or_path
scanner_source device = elim device.details [
  | none ↦ unknown_adapter
  | some d ↦ source_or_path d.source d.path
]

-- What the device provider gives: a list, or what a provider that knows one device returns.
pub data Provided : Type 0 where
  one : Option Device → Provided
  many : List Device → Provided

pub heard_by : Text → List Device → Option Device
unfolding scanner_source
heard_by source [] = none
heard_by source (d ∷ ds) =
    let later = heard_by source ds in if bytes_eq (scanner_source d) source then some d else later

-- `candidates[rotation % len(candidates)]`
pub rotated : ℕ → List Device → Option Device
rotated rotation [] = none
rotated rotation (d ∷ ds) = get_elem? (d ∷ ds) (rotation % length (d ∷ ds))

pub pick_from : Option Text → ℕ → List Device → Option Device
unfolding heard_by rotated
pick_from none rotation devices = rotated rotation devices
pick_from (some source) rotation devices = elim (heard_by source devices) [
  | some d ↦ some d
  | none ↦ rotated rotation devices
]

-- `_pick_device`, with the number of candidates that it notes.
unfoldable pub pick_device : Provided → Option Text → ℕ → Option Device × ℕ
unfolding pick_from
pick_device (one device) last_good_source rotation = (device, 1)
pick_device (many devices) last_good_source rotation =
    (pick_from last_good_source rotation devices, length devices)
