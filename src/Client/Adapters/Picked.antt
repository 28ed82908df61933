-- ===== src/Client/Adapters/Picked.antt =====
-- The device that a connect goes through is one of those that the provider gave.
use native.Mathlib.Nat.{mod-lt, zero-lt-suc}
use hass_melitta_barista_ts.Prelude.{
  ℕ, zero, suc, ◌%◌, ◌<◌, ◌≡◌, refl, inl, inr, Bool-cases, Option-cases, List, [], ◌∷◌, Option,
  none, some, length, get_elem?, bytes_eq, arith,
}
use hass_melitta_barista_ts.Prelude.In.{In}
use hass_melitta_barista_ts.Client.Text.{Text}
use hass_melitta_barista_ts.Client.Adapters.{
  Device, scanner_source, many, heard_by, rotated, pick_from, pick_device,
}

heard_by-In :
    (source : Text) (devices : List Device) (d : Device)
    → heard_by source devices ≡ some d
    → In d devices
unfolding heard_by
heard_by-In source [] d h = absurd (cc)
heard_by-In source (e ∷ devices) d h = elim (Bool-cases (bytes_eq (scanner_source e) source)) [
  | inl b ↦ let found : some e ≡ some d = rw b at h in inl (cc)
  | inr b ↦ inr (heard_by-In source devices d (rw b at h))
]

get_elem?-In :
    (devices : List Device) (i : ℕ)
    → i < length devices
    → (d : Device) × (get_elem? devices i ≡ some d) × In d devices
get_elem?-In [] i h = absurd (omega arith)
get_elem?-In (e ∷ devices) zero h = (e, refl, inl refl)
get_elem?-In (e ∷ devices) (suc i) h =
    let (d, p, m) = get_elem?-In devices i (omega arith) in (d, p, inr m)

rotated-In :
    (rotation : ℕ) (e : Device) (devices : List Device)
    → (d : Device) × (rotated rotation (e ∷ devices) ≡ some d) × In d (e ∷ devices)
unfolding rotated
rotated-In rotation e devices =
    get_elem?-In (e ∷ devices) (rotation % length (e ∷ devices))
      (mod-lt rotation (zero-lt-suc (length devices)))

-- With a device to choose from, one of them is picked.
pub pick_device-In :
    (e : Device) (devices : List Device) (last_good_source : Option Text) (rotation : ℕ)
    → (d : Device) × ((pick_device (many (e ∷ devices)) last_good_source rotation).0 ≡ some d)
      × In d (e ∷ devices)
unfolding pick_device pick_from
pick_device-In e devices none rotation = rotated-In rotation e devices
pick_device-In e devices (some source) rotation =
    elim (Option-cases (heard_by source (e ∷ devices))) [
      | inl n ↦ let (d, p, m) = rotated-In rotation e devices in (d, rw (n, pick_from) p, m)
      | inr (d, h) ↦ (d, rw (h, pick_from) refl, heard_by-In source (e ∷ devices) d h)
    ]
