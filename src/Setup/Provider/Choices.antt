-- ===== src/Setup/Provider/Choices.antt =====
-- Which adapters the client gets to choose from.
use hass_melitta_barista_ts.Prelude.{
  ℕ, ◌≡◌, ◌↔◌, ◌⊎◌, inl, inr, refl, sym, ◌∙◌, true, false, Bool-cases, bytes_eq, bytes_eq_refl,
  eq_of_bytes_eq, List, [], ◌∷◌, Option, some,
}
use hass_melitta_barista_ts.Prelude.In.{In}
use hass_melitta_barista_ts.Client.Text.{Text}
use hass_melitta_barista_ts.Client.Adapters.{Device, scanner_source, many, pick_device}
use hass_melitta_barista_ts.Client.Adapters.Picked.{pick_device-In}
use hass_melitta_barista_ts.Services.Targets.{is_among}
use hass_melitta_barista_ts.Setup.Provider.{heard_devices, usable, or_start_over, device_provider}

pub is_among-In : (a : Text) (xs : List Text) → is_among a xs ≡ true → In a xs
is_among-In a [] h = absurd (cc)
is_among-In a (x ∷ xs) h = elim (Bool-cases (bytes_eq x a)) [
  | inl e ↦ inl (eq_of_bytes_eq x a e)
  | inr e ↦ inr (is_among-In a xs (rw e at h))
]

In-is_among : (a : Text) (xs : List Text) → In a xs → is_among a xs ≡ true
In-is_among a [] h = absurd h
In-is_among a (x ∷ xs) (inl e) = rw (e, bytes_eq_refl a) refl
In-is_among a (x ∷ xs) (inr h) = elim (Bool-cases (bytes_eq x a)) [
  | inl e ↦ rw e refl
  | inr e ↦ rw e (In-is_among a xs h)
]

usable-In :
    (refused : List Text) (ds : List Device) (d : Device)
    → In d (usable refused ds) ↔ (In d ds × (¬ In (scanner_source d) refused))
unfolding usable
usable-In refused [] d = ((λ h. absurd h), λ h. h.0)
usable-In refused (x ∷ xs) d = elim (Bool-cases (is_among (scanner_source x) refused)) [
  | inl e ↦ rw e (
    λ h. let p = (usable-In refused xs d).0 h in (inr p.0, p.1),
    λ h. elim h.0 [
      | inl same ↦ absurd (h.1 (is_among-In (scanner_source d) refused (rw same at e)))
      | inr g ↦ (usable-In refused xs d).1 (g, h.1)
    ],
  )
  | inr e ↦ rw e (
    λ h. elim h [
      | inl same ↦ (
        inl same,
        λ g.
            let no : false ≡ true = sym e ∙ rw same (In-is_among (scanner_source d) refused g) in
            absurd (cc),
      )
      | inr g ↦ let p = (usable-In refused xs d).0 g in (inr p.0, p.1)
    ],
    λ h. elim h.0 [ inl same ↦ inl same | inr g ↦ inr ((usable-In refused xs d).1 (g, h.1)) ],
  )
]

-- What is true of a list of devices that the provider gives for those that it heard.
pub record Provides (devices given : List Device) (refused after : List Text) : Type 0 where
  pub heard : (d : Device) → In d given → In d devices
  pub willing : (d : Device) → In d given → ¬ In (scanner_source d) after
  pub complete : (d : Device) → In d devices → ¬ In (scanner_source d) after → In d given
  pub any : (d : Device) → In d devices → (x : Device) × In x given
  pub cycle :
      (after ≡ refused)
      ⊎ ((after ≡ []) × ((d : Device) → In d devices → In (scanner_source d) refused))

or_start_over-Provides :
    (us devices : List Device) (refused : List Text)
    → ((d : Device) → In d us ↔ (In d devices × (¬ In (scanner_source d) refused)))
    → let (given, after) = or_start_over us devices refused in Provides devices given refused after
or_start_over-Provides [] [] refused h = record {
  heard = λ d g. g;
  willing = λ d g. absurd g;
  complete = λ d g n. g;
  any = λ d g. absurd g;
  cycle = inl refl;
}
or_start_over-Provides [] (x ∷ xs) refused h = record {
  heard = λ d g. g;
  willing = λ d g n. n;
  complete = λ d g n. g;
  any = λ d g. (d, g);
  cycle = inr (
    refl,
    λ d g. elim (Bool-cases (is_among (scanner_source d) refused)) [
      | inl e ↦ is_among-In (scanner_source d) refused e
      | inr e ↦ absurd (
          (h d).1 (
            g,
            λ m. let no : false ≡ true = sym e ∙ In-is_among (scanner_source d) refused m in cc,
          ))
    ],
  );
}
or_start_over-Provides (u ∷ us) devices refused h = record {
  heard = λ d g. ((h d).0 g).0;
  willing = λ d g. ((h d).0 g).1;
  complete = λ d g n. (h d).1 (g, n);
  any = λ d g. (u, inl refl);
  cycle = inl refl;
}

pub device_provider-Provides :
    (heard : List Device) (single : Option Device) (refused : List Text)
    → let (given, after) = device_provider heard single refused in
      Provides (heard_devices heard single) given refused after
unfolding device_provider
device_provider-Provides heard single refused =
    or_start_over-Provides (usable refused (heard_devices heard single))
      (heard_devices heard single) refused (usable-In refused (heard_devices heard single))

picked :
    (devices given : List Device) (refused after : List Text) (last_good_source : Option Text)
    (rotation : ℕ) (e : Device)
    → In e devices
    → Provides devices given refused after
    → (d : Device) × ((pick_device (many given) last_good_source rotation).0 ≡ some d)
      × In d devices
      × (¬ In (scanner_source d) after)
picked devices [] refused after last_good_source rotation e m p = absurd (p.any e m).1
picked devices (x ∷ given) refused after last_good_source rotation e m p =
    let (d, q, g) = pick_device-In x given last_good_source rotation in
    (d, q, p.heard d g, p.willing d g)

-- Whenever an adapter hears the machine, the client picks one that hears it and that has not refused
-- it, whatever it was to go back to and however far the rotation is. The provider gives all of those,
-- and forgets the refusals only when every adapter that hears the machine has refused.
pub device_provider_lem :
    (e : Device) (heard : List Device) (single : Option Device) (refused : List Text)
    (last_good_source : Option Text) (rotation : ℕ)
    → let (given, after) = device_provider (e ∷ heard) single refused in
      Provides (e ∷ heard) given refused after
      × ((d : Device) × ((pick_device (many given) last_good_source rotation).0 ≡ some d)
          × In d (e ∷ heard)
          × (¬ In (scanner_source d) after))
device_provider_lem e heard single refused last_good_source rotation =
    let p = device_provider-Provides (e ∷ heard) single refused in
    (p, picked (e ∷ heard) _ refused _ last_good_source rotation e (inl refl) p)
