-- ===== src/Services/Targets/Entries.antt =====
-- The config entries that a target refers to, by the registries and by the two loops.
use hass_melitta_barista_ts.Prelude.{
  true, ◌≡◌, ◌↔◌, ◌⊎◌, inl, inr, refl, ◌∙◌, Bool-cases, bytes_eq, eq_of_bytes_eq, List, [], ◌∷◌,
  ◌++◌,
}
use mathlib.Core.Path.{subst}
use mathlib.Core.List.{append_assoc, append-nil}
use hass_melitta_barista_ts.Prelude.In.{
  In, join, In-append_left, In-append_right, In-append_cases, In-join, In-join_source,
}
use hass_melitta_barista_ts.Client.Text.{Text}
use hass_melitta_barista_ts.Services.Targets.{
  Hass, Target, listed_all, device_of, entry_of, targeted_devices, targeted_entities, entity_loop,
  device_loop, referenced_entry_ids, is_among, from_keys,
}

-- The entities, devices and config entries that a target refers to, by what the registries say.
pub data TargetsEntity (hass : Hass) (t : Target) (id : Text) : Type 0 where
  named : In id t.entity_id → TargetsEntity hass t id
  in_area :
      (area : Text)
      → In area t.area_id
      → In id (hass.entities_in_area area)
      → TargetsEntity hass t id

pub data TargetsDevice (hass : Hass) (t : Target) (id : Text) : Type 0 where
  named : In id t.device_id → TargetsDevice hass t id
  in_area :
      (area : Text)
      → In area t.area_id
      → In id (hass.devices_in_area area)
      → TargetsDevice hass t id
  of_entity :
      (e : Text)
      → TargetsEntity hass t e
      → In id (device_of (hass.entities e))
      → TargetsDevice hass t id

pub data References (hass : Hass) (t : Target) (id : Text) : Type 0 where
  of_entity :
      (e : Text)
      → TargetsEntity hass t e
      → In id (entry_of (hass.entities e))
      → References hass t id
  of_device :
      (d : Text)
      → TargetsDevice hass t d
      → In id (listed_all (hass.devices d))
      → References hass t id

-- Walking a set meets its members, and nothing else.
abbrev pub WalksSets : Hass → Type 0
WalksSets hass = (xs : List Text) (a : Text) → In a (hass.walk xs) ↔ In a xs

module _ (hass : Hass) where
  abbrev devices_of : Text → List Text
  devices_of e = device_of (hass.entities e)

  abbrev entries_of : Text → List Text
  entries_of e = entry_of (hass.entities e)

  abbrev device_entries : Text → List Text
  device_entries d = listed_all (hass.devices d)

  entity_loop_lem :
      (xs ds es : List Text)
      → entity_loop hass xs ds es ≡ (ds ++ join devices_of xs, es ++ join entries_of xs)
  unfolding entity_loop
  entity_loop_lem [] ds es = rw (append-nil ds, append-nil es) refl
  entity_loop_lem (x ∷ xs) ds es =
      entity_loop_lem xs (ds ++ devices_of x) (es ++ entries_of x)
      ∙ rw
          (
            append_assoc ds (devices_of x) (join devices_of xs),
            append_assoc es (entries_of x) (join entries_of xs),
          )
          refl

  device_loop_lem : (xs es : List Text) → device_loop hass xs es ≡ es ++ join device_entries xs
  unfolding device_loop
  device_loop_lem [] es = rw (append-nil es) refl
  device_loop_lem (x ∷ xs) es =
      device_loop_lem xs (es ++ device_entries x)
      ∙ append_assoc es (device_entries x) (join device_entries xs)

In-is_among : (a : Text) (xs : List Text) → is_among a xs ≡ true → In a xs
In-is_among a [] h = absurd (cc)
In-is_among a (x ∷ xs) h = elim (Bool-cases (bytes_eq x a)) [
  | inl e ↦ inl (eq_of_bytes_eq x a e)
  | inr e ↦ inr (In-is_among a xs (rw e at h))
]

pub from_keys-In :
    (seen xs : List Text) (a : Text) → In a (from_keys seen xs) ↔ (In a seen ⊎ In a xs)
unfolding from_keys
from_keys-In seen [] a = ((λ h. inl h), λ h. elim h [ inl g ↦ g | inr g ↦ absurd g ])
from_keys-In seen (x ∷ xs) a = elim (Bool-cases (is_among x seen)) [
  | inl e ↦ rw e (
    λ h. elim ((from_keys-In seen xs a).0 h) [ inl g ↦ inl g | inr g ↦ inr (inr g) ],
    λ h. (from_keys-In seen xs a).1 (elim h [
      | inl g ↦ inl g
      | inr (inl p) ↦ inl (subst (λ t. In t seen) p (In-is_among x seen e))
      | inr (inr g) ↦ inr g
    ]),
  )
  | inr e ↦ rw e (
    λ h. elim ((from_keys-In (seen ++ x ∷ []) xs a).0 h) [
      | inl g ↦ elim (In-append_cases a seen (x ∷ []) g) [
        | inl k ↦ inl k
        | inr (inl p) ↦ inr (inl p)
        | inr (inr k) ↦ absurd k
      ]
      | inr g ↦ inr (inr g)
    ],
    λ h. (from_keys-In (seen ++ x ∷ []) xs a).1 (elim h [
      | inl g ↦ inl (In-append_left a seen (x ∷ []) g)
      | inr (inl p) ↦ inl (In-append_right a seen (x ∷ []) (inl p))
      | inr (inr g) ↦ inr g
    ]),
  )
]

module _ (hass : Hass) (walks : WalksSets hass) (t : Target) where
  targeted_entities_lem : (id : Text) → In id (targeted_entities hass t) ↔ TargetsEntity hass t id
  targeted_entities_lem id = (
    λ h. elim (In-append_cases id t.entity_id (join hass.entities_in_area t.area_id) h) [
      | inl g ↦ TargetsEntity.named g
      | inr g ↦
          let p = In-join_source hass.entities_in_area t.area_id id g in
          TargetsEntity.in_area p.0 p.1 p.2
    ],
    λ h. elim h [
      | TargetsEntity.named g ↦
          In-append_left id t.entity_id (join hass.entities_in_area t.area_id) g
      | TargetsEntity.in_area area g k ↦
          In-append_right id t.entity_id (join hass.entities_in_area t.area_id)
            (In-join hass.entities_in_area t.area_id area id g k)
    ],
  )

  -- The devices that the second loop walks.
  abbrev device_ids : List Text
  device_ids =
      targeted_devices hass t ++ join (devices_of hass) (hass.walk (targeted_entities hass t))

  device_ids_lem : (id : Text) → In id device_ids ↔ TargetsDevice hass t id
  device_ids_lem id = (
    λ h.
        elim (In-append_cases id (targeted_devices hass t)
          (join (devices_of hass) (hass.walk (targeted_entities hass t))) h) [
            | inl g ↦
                elim (In-append_cases id t.device_id (join hass.devices_in_area t.area_id) g) [
                  | inl k ↦ TargetsDevice.named k
                  | inr k ↦
                      let p = In-join_source hass.devices_in_area t.area_id id k in
                      TargetsDevice.in_area p.0 p.1 p.2
                ]
            | inr g ↦
                let p =
                  In-join_source (devices_of hass) (hass.walk (targeted_entities hass t)) id g in
                TargetsDevice.of_entity p.0
                  ((targeted_entities_lem p.0).0 ((walks (targeted_entities hass t) p.0).0 p.1)) p.2
          ],
    λ h. elim h [
      | TargetsDevice.named g ↦
          Targeted (In-append_left id t.device_id (join hass.devices_in_area t.area_id) g)
      | TargetsDevice.in_area area g k ↦ Targeted (
          In-append_right id t.device_id (join hass.devices_in_area t.area_id)
            (In-join hass.devices_in_area t.area_id area id g k))
      | TargetsDevice.of_entity e g k ↦
          In-append_right id (targeted_devices hass t)
            (join (devices_of hass) (hass.walk (targeted_entities hass t)))
            (In-join (devices_of hass) (hass.walk (targeted_entities hass t)) e id
              ((walks (targeted_entities hass t) e).1 ((targeted_entities_lem e).1 g)) k)
    ],
  )
    where
      Targeted : In id (targeted_devices hass t) → In id device_ids
      Targeted g =
          In-append_left id (targeted_devices hass t)
            (join (devices_of hass) (hass.walk (targeted_entities hass t))) g

  abbrev by_entity : List Text
  by_entity = join (entries_of hass) (hass.walk (targeted_entities hass t))

  referenced_entry_ids_lem :
      referenced_entry_ids hass t ≡ by_entity ++ join (device_entries hass) (hass.walk device_ids)
  unfolding referenced_entry_ids
  referenced_entry_ids_lem =
      rw (entity_loop_lem hass (hass.walk (targeted_entities hass t)) (targeted_devices hass t) [])
        (device_loop_lem hass (hass.walk device_ids) by_entity)

  pub References_lem : (id : Text) → In id (referenced_entry_ids hass t) ↔ References hass t id
  References_lem id = rw referenced_entry_ids_lem (
    λ h. elim (In-append_cases id by_entity (join (device_entries hass) (hass.walk device_ids)) h) [
      | inl g ↦
          let p = In-join_source (entries_of hass) (hass.walk (targeted_entities hass t)) id g in
          References.of_entity p.0
            ((targeted_entities_lem p.0).0 ((walks (targeted_entities hass t) p.0).0 p.1)) p.2
      | inr g ↦
          let p = In-join_source (device_entries hass) (hass.walk device_ids) id g in
          References.of_device p.0 ((device_ids_lem p.0).0 ((walks device_ids p.0).0 p.1)) p.2
    ],
    λ h. elim h [
      | References.of_entity e g k ↦
          In-append_left id by_entity (join (device_entries hass) (hass.walk device_ids)) (
            In-join (entries_of hass) (hass.walk (targeted_entities hass t)) e id
              ((walks (targeted_entities hass t) e).1 ((targeted_entities_lem e).1 g)) k)
      | References.of_device d g k ↦
          In-append_right id by_entity (join (device_entries hass) (hass.walk device_ids)) (
            In-join (device_entries hass) (hass.walk device_ids) d id
              ((walks device_ids d).1 ((device_ids_lem d).1 g)) k)
    ],
  )
