-- ===== src/Client/Adapters/Rotation.antt =====
-- Which adapter the next connect goes through.
use native.Mathlib.Nat.{mod-add-mod, mod-eq_of_lt, add-mod_right, mod-lt, zero-lt-suc}
use hass_melitta_barista_ts.Prelude.{
  ℕ, zero, suc, ◌+◌, ◌-◌, ◌%◌, ◌<◌, ◌≡◌, refl, ◌∙◌, sym, ap, ltb, true, Bool-cases, inl, inr,
  if◌then◌else◌, List, [], ◌∷◌, none, some, length, get_elem?, bytes_eq, bytes_eq_refl,
  eq_of_bytes_eq, arith,
}
use hass_melitta_barista_ts.Client.Text.{Text}
use hass_melitta_barista_ts.Client.Adapters.{
  Device, scanner_source, many, heard_by, rotated, pick_from, pick_device,
}

heard_by_source :
    (source : Text) (devices : List Device) (d : Device)
    → heard_by source devices ≡ some d
    → scanner_source d ≡ source
unfolding heard_by
heard_by_source source [] d h = absurd (ground arith)
heard_by_source source (e ∷ devices) d h = elim (Bool-cases (bytes_eq (scanner_source e) source)) [
  | inl b ↦
      let same : d ≡ e = ground arith in
      ap (λ (x : Device). scanner_source x) same ∙ eq_of_bytes_eq _ source b
  | inr b ↦ heard_by_source source devices d (ground arith)
]

heard_by_found :
    (source : Text) (devices : List Device) (i : ℕ) (d : Device)
    → get_elem? devices i ≡ some d
    → scanner_source d ≡ source
    → (e : Device) × (heard_by source devices ≡ some e)
unfolding heard_by
heard_by_found source [] i d h k = absurd (ground arith)
heard_by_found source (e ∷ devices) zero d h k =
    let e_is_d : e ≡ d = ground arith in
    let same : bytes_eq (scanner_source e) source ≡ true =
      ap (λ (x : Device). bytes_eq (scanner_source x) source) e_is_d
      ∙ ap (λ (t : Text). bytes_eq t source) k
      ∙ bytes_eq_refl source in
    (e, rw (same, heard_by) refl)
heard_by_found source (e ∷ devices) (suc i) d h k =
    elim (Bool-cases (bytes_eq (scanner_source e) source)) [
      | inl b ↦ (e, ground arith)
      | inr b ↦ let (f, q) = heard_by_found source devices i d h k in (f, ground arith)
    ]

-- While the adapter of the last working session hears the machine, every connect goes through an
-- adapter of that name, whatever the rotation says.
pub pick_device_last_good :
    (devices : List Device) (source : Text) (i : ℕ) (d : Device) (rotation : ℕ)
    → get_elem? devices i ≡ some d
    → scanner_source d ≡ source
    → (e : Device) × (pick_device (many devices) (some source) rotation ≡ (some e, length devices))
      × (scanner_source e ≡ source)
unfolding pick_device pick_from
pick_device_last_good devices source i d rotation h k =
    let (e, q) = heard_by_found source devices i d h k in
    (e, rw (q, pick_from) refl, heard_by_source source devices e q)

-- How many steps from a rotation lead to place `i` of `n`.
steps : ℕ → ℕ → ℕ → ℕ
steps rotation i n = if ltb i (rotation % n) then i + n - rotation % n else i - rotation % n

steps-lt : (rotation i m : ℕ) → i < suc m → steps rotation i (suc m) < suc m
unfolding steps
steps-lt rotation i m h = ground (arith, mod-lt rotation (zero-lt-suc m))

steps_lands : (rotation i m : ℕ) → i < suc m → (rotation + steps rotation i (suc m)) % suc m ≡ i
unfolding steps
steps_lands rotation i m h =
    sym (mod-add-mod rotation (suc m) _) ∙ elim (Bool-cases (ltb i (rotation % suc m))) [
      | inl b ↦
          ap (λ (x : ℕ). x % suc m) (ground (arith, mod-lt rotation (zero-lt-suc m)))
          ∙ add-mod_right i (suc m)
          ∙ mod-eq_of_lt h
      | inr b ↦
          ap (λ (x : ℕ). x % suc m) (ground (arith, mod-lt rotation (zero-lt-suc m)))
          ∙ mod-eq_of_lt h
    ]

-- With no adapter to go back to, each of n adapters is the one that is picked at some rotation
-- less than n steps on from any given one.
pub pick_device_turns :
    (d : Device) (ds : List Device) (rotation i : ℕ)
    → i < length (d ∷ ds)
    → (k : ℕ) × (k < length (d ∷ ds))
      × (pick_device (many (d ∷ ds)) none (rotation + k) ≡ (get_elem? (d ∷ ds) i, length (d ∷ ds)))
unfolding pick_device pick_from rotated
pick_device_turns d ds rotation i h = (
  steps rotation i (length (d ∷ ds)),
  steps-lt rotation i (length ds) h,
  ap (λ (n : ℕ). (get_elem? (d ∷ ds) n, length (d ∷ ds))) (steps_lands rotation i (length ds) h),
)
