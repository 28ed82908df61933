-- ===== src/Services/Targets.antt =====
-- services.py, `_referenced_entry_ids`, `_coordinators` and `_one_coordinator`. The registries of Home
-- Assistant are parameters.
pub mod Entries
pub mod Found
pub mod Resolved
use hass_melitta_barista_ts.Prelude.{
  ℕ, ◌+◌, Bool, true, false, ◌&&◌, ◌==◌, if◌then◌else◌, bytes_eq, List, [], ◌∷◌, ◌++◌, Option, none,
  some,
}
use hass_melitta_barista_ts.Prelude.In.{join}
use hass_melitta_barista_ts.Errors.{Result, ok, err, service_validation_error}
use hass_melitta_barista_ts.Client.Text.{Text, text}

pub record EntityEntry : Type 0 where
  pub device_id : Option Text
  pub config_entry_id : Option Text

-- `runtime_data` tells which coordinator the entry carries, if it is one.
pub record ConfigEntry : Type 0 where
  pub domain : Text
  pub runtime_data : Option ℕ

-- The device, entity and area registries, the config entries, and the order in which Python walks a set.
pub record Hass : Type 0 where
  pub devices : Text → Option (List Text)
  pub entities : Text → Option EntityEntry
  pub devices_in_area : Text → List Text
  pub entities_in_area : Text → List Text
  pub entries : Text → Option ConfigEntry
  pub walk : List Text → List Text

-- `cv.ensure_list` of what a call names; an absent key is the empty list.
pub record Target : Type 0 where
  pub device_id : List Text
  pub entity_id : List Text
  pub area_id : List Text

abbrev pub domain_name : Text
domain_name = text "melitta_barista_ts"

abbrev pub listed : {A : Type 0} → Option A → List A
listed none = []
listed (some a) = a ∷ []

abbrev pub listed_all : {A : Type 0} → Option (List A) → List A
listed_all none = []
listed_all (some l) = l

abbrev pub device_of : Option EntityEntry → List Text
device_of none = []
device_of (some e) = listed e.device_id

abbrev pub entry_of : Option EntityEntry → List Text
entry_of none = []
entry_of (some e) = listed e.config_entry_id

module _ (hass : Hass) where
  abbrev pub targeted_devices : Target → List Text
  targeted_devices t = t.device_id ++ join hass.devices_in_area t.area_id

  abbrev pub targeted_entities : Target → List Text
  targeted_entities t = t.entity_id ++ join hass.entities_in_area t.area_id

  -- The loop over the entities, with the devices and the entries so far.
  pub entity_loop : List Text → List Text → List Text → List Text × List Text
  entity_loop [] device_ids entry_ids = (device_ids, entry_ids)
  entity_loop (e ∷ rest) device_ids entry_ids =
      entity_loop rest (device_ids ++ device_of (hass.entities e))
        (entry_ids ++ entry_of (hass.entities e))

  pub device_loop : List Text → List Text → List Text
  device_loop [] entry_ids = entry_ids
  device_loop (d ∷ rest) entry_ids = device_loop rest (entry_ids ++ listed_all (hass.devices d))

  unfoldable pub referenced_entry_ids : Target → List Text
  unfolding entity_loop device_loop
  referenced_entry_ids t =
      let (device_ids, entry_ids) =
        entity_loop (hass.walk (targeted_entities t)) (targeted_devices t) [] in
      device_loop (hass.walk device_ids) entry_ids

-- `dict.fromkeys`: each key once, at its first place.
abbrev pub is_among : Text → List Text → Bool
is_among a [] = false
is_among a (x ∷ xs) = if bytes_eq x a then true else is_among a xs

pub from_keys : List Text → List Text → List Text
from_keys seen [] = seen
from_keys seen (a ∷ rest) = from_keys (if is_among a seen then seen else seen ++ a ∷ []) rest

abbrev pub is_found : ℕ → List ℕ → Bool
is_found c [] = false
is_found c (x ∷ xs) = if x == c then true else is_found c xs

abbrev pub add_found : List ℕ → Option ℕ → List ℕ
add_found found none = found
add_found found (some c) = if is_found c found then found else found ++ c ∷ []

-- What an entry carries, if it is one of this integration.
abbrev pub coordinator_of : Option ConfigEntry → Option ℕ
coordinator_of none = none
coordinator_of (some e) = if bytes_eq e.domain domain_name then e.runtime_data else none

pub found_loop : Hass → List Text → List ℕ → List ℕ
found_loop hass [] found = found
found_loop hass (id ∷ rest) found =
    found_loop hass rest (add_found found (coordinator_of (hass.entries id)))

abbrev pub some_found : List ℕ → Result (List ℕ)
some_found [] = err service_validation_error
some_found (c ∷ cs) = ok (c ∷ cs)

unfoldable pub coordinators : Hass → Target → Result (List ℕ)
unfolding referenced_entry_ids from_keys found_loop
coordinators hass t = some_found (found_loop hass (from_keys [] (referenced_entry_ids hass t)) [])

abbrev pub only_one : List ℕ → Result ℕ
only_one [] = err service_validation_error
only_one (c ∷ []) = ok c
only_one (c ∷ d ∷ cs) = err service_validation_error

abbrev pub and_only : Result (List ℕ) → Result ℕ
and_only (err e) = err e
and_only (ok found) = only_one found

unfoldable pub one_coordinator : Hass → Target → Result ℕ
unfolding coordinators
one_coordinator hass t = and_only (coordinators hass t)
