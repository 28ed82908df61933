-- ===== src/Coordinator/Polling/Marks.antt =====
-- The reads of a poll leave the time of the last success alone.
use hass_melitta_barista_ts.Prelude.{
  ℕ, ◌≡◌, refl, ◌∙◌, Bool, List, [], ◌∷◌, Option, none, some, inl, inr, Bool-cases, Option-cases,
}
use hass_melitta_barista_ts.Prelude.Int.{ℤ, pos}
use hass_melitta_barista_ts.Prelude.Dict.{Dict}
use hass_melitta_barista_ts.Const.Settings.{
  SettingId, setting_id_enum, CareProgramme, care_programme_enum, CareDue, care_due_enum,
}
use hass_melitta_barista_ts.Const.Enum.{int}
use hass_melitta_barista_ts.Const.Slots.{profile_name_id, user_profile_count, my_coffee_profile}
use hass_melitta_barista_ts.Const.Settings.{total_cups_id}
use hass_melitta_barista_ts.Machine.Reads.{read_numerical, read_alphanumeric}
use hass_melitta_barista_ts.Client.Text.{Text, text}
use hass_melitta_barista_ts.Client.Connect.{World}
use hass_melitta_barista_ts.Client.Connect.Outcomes.{Outcome-cases}
use hass_melitta_barista_ts.Coordinator.State.{
  MelittaData, Coordinator, C, ◌>>=◌, ◌>>◌, run, absorb, is_communication_error,
}
use hass_melitta_barista_ts.Coordinator.Polling.{
  safe_read_numerical, name_loop, refresh_profiles, care_loop, due_loop, refresh_settings,
  counter_loop, refresh_counters, stored, read_name, change, read_into, refresh_care, up_to,
}

-- What only a poll that came through changes.
abbrev pub marks : Coordinator → Option ℕ × Bool
marks s = (s.last_success_at, s.first_refresh_done)

pub record Keeps {A : Type 0} (action : C A) : Type 0 where
  pub kept : (s : Coordinator) → marks (action s).1 ≡ marks s

pub Keeps-bind :
    {A B : Type 0} (m : C A) (f : A → C B) → Keeps m → ((a : A) → Keeps (f a)) → Keeps (m >>= f)
Keeps-bind m f km kf = record {
  kept = λ s. elim (Outcome-cases (m s).0) [
    | inl (a, h) ↦ rw (h) ((kf a).kept (m s).1 ∙ km.kept s)
    | inr (g, h) ↦ rw (h) (km.kept s)
  ];
}

pub Keeps-absorb : {A : Type 0} (m : C A) → Keeps m → Keeps (absorb m)
Keeps-absorb m k = record {
  kept = λ s. elim (Outcome-cases (m s).0) [
    | inl (a, h) ↦ rw (h) (k.kept s)
    | inr (g, h) ↦ elim (Bool-cases (is_communication_error g.exception)) [
      | inl b ↦ rw (h, b) (k.kept s)
      | inr b ↦ rw (h, b) (k.kept s)
    ]
  ];
}

Keeps-stored : {A : Type 0} (o : Option A) (f : A → MelittaData → MelittaData) → Keeps (stored o f)
Keeps-stored none f = record { kept = λ s. refl }
Keeps-stored (some a) f = record { kept = λ s. refl }

module _ (world : World) where
  pub Keeps-read : (id : ℤ) → Keeps (safe_read_numerical world id)
  unfolding safe_read_numerical
  Keeps-read id = Keeps-absorb (run world (read_numerical id)) (record { kept = λ s. refl })

  Keeps-name_loop : (profiles : List ℕ) (names : Dict Text) → Keeps (name_loop world profiles names)
  unfolding name_loop
  Keeps-name_loop [] names = record { kept = λ s. refl }
  Keeps-name_loop (p ∷ rest) names =
      Keeps-bind (read_name world p) _ (Keeps-name p) (λ name. Keeps-name_loop rest _)
    where
      Keeps-name : (p : ℕ) → Keeps (read_name world p)
      Keeps-name p = record {
        kept = λ s. elim (Option-cases (profile_name_id p)) [
          | inl e ↦ rw (e, read_name) refl
          | inr (id, e) ↦
              rw (e, read_name)
                ((Keeps-absorb (run world (read_alphanumeric (pos id)))
                    (record { kept = λ s. refl })).kept
                  s)
        ];
      }

  Keeps-refresh_profiles : Keeps (refresh_profiles world)
  unfolding refresh_profiles
  Keeps-refresh_profiles = record {
    kept = λ s.
        (Keeps-bind
            (name_loop world (up_to (user_profile_count s.content.machine_type) 1)
              ((my_coffee_profile, text "My Coffee") ∷ []))
            (λ names. change (λ d. record d { profile_names = names })) (Keeps-name_loop _ _)
            (λ names. record { kept = λ s. refl })).kept
          s;
  }

  Keeps-care_loop : (programmes : List CareProgramme) → Keeps (care_loop world programmes)
  unfolding care_loop
  Keeps-care_loop [] = record { kept = λ s. refl }
  Keeps-care_loop (p ∷ rest) =
      Keeps-bind (safe_read_numerical world _) _ (Keeps-read _)
        (λ v. Keeps-bind (stored v _) _ (Keeps-stored v _) (λ u. Keeps-care_loop rest))

  Keeps-due_loop : (dues : List CareDue) → Keeps (due_loop world dues)
  unfolding due_loop
  Keeps-due_loop [] = record { kept = λ s. refl }
  Keeps-due_loop (d ∷ rest) = Keeps-bind (safe_read_numerical world _) _ (Keeps-read _) (λ v.
      Keeps-bind (stored v _) _ (Keeps-stored v _) (λ u.
        Keeps-bind (safe_read_numerical world _) _ (Keeps-read _)
          (λ w. Keeps-bind (stored w _) _ (Keeps-stored w _) (λ u. Keeps-due_loop rest))))

  Keeps-counter_loop : (types : List ℕ) → Keeps (counter_loop world types)
  unfolding counter_loop
  Keeps-counter_loop [] = record { kept = λ s. refl }
  Keeps-counter_loop (t ∷ rest) =
      Keeps-bind (safe_read_numerical world _) _ (Keeps-read _)
        (λ v. Keeps-bind (stored v _) _ (Keeps-stored v _) (λ u. Keeps-counter_loop rest))

  Keeps-read_into :
      (register : SettingId) (f : Option ℤ → MelittaData → MelittaData)
      → Keeps (read_into world register f)
  Keeps-read_into register f =
      Keeps-bind (safe_read_numerical world (pos (int ⦃e = setting_id_enum⦄ register)))
        (λ v. change (f v)) (Keeps-read _) (λ v. record { kept = λ s. refl })

  pub Keeps-then : {A : Type 0} (m : C (Unit {0})) (n : C A) → Keeps m → Keeps n → Keeps (m >> n)
  Keeps-then m n km kn = Keeps-bind m (λ u. n) km (λ u. kn)

  Keeps-refresh_care : Keeps (refresh_care world)
  Keeps-refresh_care =
      Keeps-then (care_loop world care_programme_enum.members)
        (due_loop world care_due_enum.members >> refresh_profiles world)
        (Keeps-care_loop care_programme_enum.members)
        (Keeps-then (due_loop world care_due_enum.members) (refresh_profiles world)
          (Keeps-due_loop care_due_enum.members) Keeps-refresh_profiles)

  abbrev clock_step : C (Unit {0})
  clock_step = read_into world SettingId.clock (λ v d. record d { clock_minutes = v })

  abbrev auto_off_step : C (Unit {0})
  auto_off_step = read_into world SettingId.auto_off_after (λ v d. record d { auto_off_after = v })

  abbrev hardness_step : C (Unit {0})
  hardness_step = read_into world SettingId.water_hardness (λ v d. record d { water_hardness = v })

  pub Keeps-refresh_settings : Keeps (refresh_settings world)
  unfolding refresh_settings
  Keeps-refresh_settings =
      Keeps-then clock_step (auto_off_step >> (hardness_step >> refresh_care world))
        (Keeps-read_into SettingId.clock (λ v d. record d { clock_minutes = v }))
        (Keeps-then auto_off_step (hardness_step >> refresh_care world)
          (Keeps-read_into SettingId.auto_off_after (λ v d. record d { auto_off_after = v }))
          (Keeps-then hardness_step (refresh_care world)
            (Keeps-read_into SettingId.water_hardness (λ v d. record d { water_hardness = v }))
            Keeps-refresh_care))

  pub Keeps-refresh_counters : Keeps (refresh_counters world)
  unfolding refresh_counters
  Keeps-refresh_counters =
      Keeps-bind (safe_read_numerical world (pos total_cups_id))
        (λ total. change (λ d. record d { total_cups = total }) >> counter_loop world (up_to 24 0))
        (Keeps-read _)
        (λ total.
          Keeps-then (change (λ d. record d { total_cups = total }))
            (counter_loop world (up_to 24 0)) (record { kept = λ s. refl })
            (Keeps-counter_loop (up_to 24 0)))
