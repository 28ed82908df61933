-- ===== src/Tests/Link.antt =====
-- Concrete runs of client.py.
use hass_melitta_barista_ts.Prelude.{
  ℕ, ◌+◌, ◌<◌, ◌≡◌, refl, true, false, List, [], ◌∷◌, some, none, length, get_elem?, All, arith,
  bytes_eq,
}
use hass_melitta_barista_ts.Errors.{connection_error, err, ok}
use hass_melitta_barista_ts.Machine.Session
use hass_melitta_barista_ts.Machine.Reads.{read_numerical}
use hass_melitta_barista_ts.Prelude.Int.{ℤ, pos}
use hass_melitta_barista_ts.Client.Text.{Text, text, split, lower}
use hass_melitta_barista_ts.Client.Adapters.{Device, scanner_source, many, pick_device}
use hass_melitta_barista_ts.Client.Adapters.Rotation.{pick_device_last_good, pick_device_turns}
use hass_melitta_barista_ts.Client.Characteristics.{
  Characteristic, is_writable, write_char_candidates,
}
use hass_melitta_barista_ts.Client.Characteristics.Ordered.{AreDistinct, AreWritable, AreCovered}
use hass_melitta_barista_ts.Client.Characteristics.Candidates.{write_char_candidates_lem}
use hass_melitta_barista_ts.Client.State.{Client, no_advice}
use hass_melitta_barista_ts.Client.Connect.{World}

abbrev heard_on : Text → Device
heard_on source = record {
  address = text "FC:E1";
  details = some (record { source = some source; path = none });
}

abbrev adapters : List Device
adapters = heard_on (text "hci0") ∷ heard_on (text "proxy") ∷ []

-- BlueZ gives an object path.
path_source :
    scanner_source (record {
      address = text "FC:E1";
      details = some (record { source = none; path = some (text "/org/bluez/hci0/dev_FC_E1") });
    })
    ≡ text "hci0"
unfolding scanner_source split
path_source = refl

pick_device_last_good_example :
    (e : Device) × (pick_device (many adapters) (some (text "proxy")) 4 ≡ (some e, length adapters))
    × (scanner_source e ≡ text "proxy")
pick_device_last_good_example =
    pick_device_last_good adapters (text "proxy") 1 (heard_on (text "proxy")) 4 refl
      (unfold scanner_source in refl)

pick_device_turns_example :
    (k : ℕ) × (k < length adapters)
    × (pick_device (many adapters) none (7 + k) ≡ (get_elem? adapters 0, length adapters))
pick_device_turns_example =
    pick_device_turns (heard_on (text "hci0")) (heard_on (text "proxy") ∷ []) 7 0 (omega arith)

abbrev ad01 : Characteristic
ad01 = record {
  handle = 1;
  uuid = text "0000ad01-b35c-11e4-9813-0002a5d5c51b";
  write = true;
  write_without_response = false;
  notify = false;
}

abbrev ad02 : Characteristic
ad02 = record {
  handle = 2;
  uuid = text "0000ad02-b35c-11e4-9813-0002a5d5c51b";
  write = false;
  write_without_response = false;
  notify = true;
}

abbrev ad03 : Characteristic
ad03 = record {
  handle = 3;
  uuid = text "0000AD03-b35c-11e4-9813-0002a5d5c51b";
  write = true;
  write_without_response = false;
  notify = false;
}

abbrev service : List Characteristic
service = ad01 ∷ ad02 ∷ ad03 ∷ []

-- The preferred one comes first, whatever the case of its UUID.
candidates_in_order : write_char_candidates (some service) ≡ ok (ad03 ∷ ad01 ∷ [])
unfolding write_char_candidates is_writable bytes_eq lower
candidates_in_order = refl

write_char_candidates_example :
    ((cs : List Characteristic)
      → write_char_candidates (some service) ≡ ok cs
      → AreDistinct cs × AreWritable cs × AreCovered service cs)
    × (write_char_candidates (some service) ≡ err connection_error
        → All (λ c. is_writable c ≡ false) service)
write_char_candidates_example = write_char_candidates_lem service (refl, (refl, (refl, tt)))

abbrev world : World
world = record {
  urandom = λ n. 1 ∷ 2 ∷ 3 ∷ 4 ∷ [];
  describe = λ e. [];
  name = text "Barista";
  connect_timeout = text "60";
}

abbrev idle : Client
idle = record {
  session = record {
    key_prefix = none;
    challenge = none;
    script = [];
    sent = [];
    writes = [];
    notified = [];
  };
  link = none;
  write_char = none;
  notify_chars = [];
  closing = false;
  last_good_source = none;
  rotation = 0;
  candidates = 0;
  refused_sources = [];
  advice = no_advice;
  provided = many adapters;
  openings = [];
  asked = [];
  drawn = 0;
}

abbrev read_hardness : Session.M ℤ
read_hardness = read_numerical (pos 11)
