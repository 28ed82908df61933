-- ===== src/Tests/Payloads.antt =====
-- Concrete runs of the payloads in protocol.py and machine.py.
use hass_melitta_barista_ts.Prelude.{ℕ, ◌≡◌, List, [], ◌∷◌, some, none, arith}
use hass_melitta_barista_ts.Prelude.Int.{pos, negsuc}
use hass_melitta_barista_ts.Errors.{ok, ◌>>=◌}
use hass_melitta_barista_ts.Protocol.Recipe
use hass_melitta_barista_ts.Protocol.Recipe.{MachineRecipe, RecipeComponent, from_bytes, slice}
use hass_melitta_barista_ts.Protocol.Status
use hass_melitta_barista_ts.Protocol.Status.{MachineStatus, info_flags, is_busy, process_enum}
use hass_melitta_barista_ts.Protocol.Status.Decoding.{encode_status, from_payload-encode_status}
use hass_melitta_barista_ts.Protocol.Values.{NumericalValue}
use hass_melitta_barista_ts.Machine.Overrides.{Overrides}

abbrev coffee : RecipeComponent
coffee = record {
  process = 1;
  shots = 1;
  blend = 0;
  intensity = 2;
  aroma = 3;
  temperature = 1;
  portion = 8;
  reserve = 0;
}

abbrev short : List ℕ
short = 1 ∷ 2 ∷ []

abbrev brewing : MachineStatus
brewing = record {
  process = pos 4;
  sub_process = pos 7;
  info_messages = 3;
  manipulation = 0;
  progress = pos 50;
}

from_payload-encode_status_example : (encode_status brewing >>= Status.from_payload) ≡ ok brewing
from_payload-encode_status_example =
    from_payload-encode_status brewing (omega arith) (omega arith) (omega arith)

abbrev hardness : NumericalValue
hardness = record { value_id = pos 11; value = negsuc 0 }

abbrev stronger : Overrides
stronger = record {
  intensity = some 4;
  temperature = none;
  portion_ml = some (pos 9000);
  blend = none;
}
