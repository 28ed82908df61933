-- ===== src/Coordinator/Profiles/Labels.antt =====
-- The picker finds the profile that a label was made for, as long as the labels differ.
use hass_melitta_barista_ts.Prelude.{
  All, ℕ, ◌≡◌, inl, inr, refl, sym, ap, ◌∙◌, true, false, Bool-cases, ◌==◌, ==_iff, bytes_eq,
  bytes_eq_refl, eq_of_bytes_eq, List, [], ◌∷◌, some, arith,
}
use hass_melitta_barista_ts.Prelude.Dict.{Dict}
use hass_melitta_barista_ts.Client.Text.{Text}
use hass_melitta_barista_ts.Coordinator.Profiles.{
  is_seen, label_loop, profile_options, sorted, find_label, profile_for_option, label_of,
  selected_profile_option,
}

-- That no text comes twice.
abbrev pub AreDistinct : List Text → Type 0
AreDistinct [] = Unit
AreDistinct (t ∷ ts) = (is_seen t ts ≡ false) × AreDistinct ts

label_of_seen :
    (profile : ℕ) (entries : Dict Text) (labels : List Text) (label : Text)
    → label_of profile entries labels ≡ some label
    → is_seen label labels ≡ true
unfolding label_of
label_of_seen profile [] labels label h = absurd (ground arith)
label_of_seen profile (e ∷ entries) [] label h = absurd (ground arith)
label_of_seen profile ((p, name) ∷ entries) (l ∷ labels) label h =
    elim (Bool-cases (p == profile)) [
      | inl b ↦
          let same : l ≡ label = ground arith in
          let eq : bytes_eq l label ≡ true = ap (bytes_eq l) (sym same) ∙ bytes_eq_refl l in
          rw (eq) refl
      | inr b ↦
          let later = label_of_seen profile entries labels label (ground arith) in
          ground (arith, later)
    ]

label_of-find_label :
    (profile : ℕ) (entries : Dict Text) (labels : List Text) (label : Text)
    → AreDistinct labels
    → label_of profile entries labels ≡ some label
    → find_label label entries labels ≡ some profile
unfolding label_of find_label
label_of-find_label profile [] labels label d h = absurd (ground arith)
label_of-find_label profile (e ∷ entries) [] label d h = absurd (ground arith)
label_of-find_label profile ((p, name) ∷ entries) (l ∷ labels) label d h =
    elim (Bool-cases (p == profile)) [
      | inl b ↦
          let same : l ≡ label = ground arith in
          let eq : bytes_eq l label ≡ true = ap (bytes_eq l) (sym same) ∙ bytes_eq_refl l in
          let q : p ≡ profile = (==_iff p profile).0 b in rw (eq, q) refl
      | inr b ↦
          let later : label_of profile entries labels ≡ some label = ground arith in
          let other : bytes_eq l label ≡ false =
            first_differs l labels label d.0 (label_of_seen profile entries labels label later) in
          rw (other, find_label) (label_of-find_label profile entries labels label d.1 later)
    ]
  where
    first_differs :
        (l : Text) (labels : List Text) (label : Text)
        → is_seen l labels ≡ false
        → is_seen label labels ≡ true
        → bytes_eq l label ≡ false
    first_differs l labels label a b = elim (Bool-cases (bytes_eq l label)) [
      | inl e ↦ let q : l ≡ label = eq_of_bytes_eq l label e in absurd (cc)
      | inr e ↦ e
    ]

-- Whatever the profile names, if no two options of the picker are the same, choosing the option that
-- is shown for a profile selects that profile.
pub selected_profile_option-profile_for_option :
    (profile : ℕ) (names : Dict Text) (label : Text)
    → AreDistinct (profile_options names)
    → selected_profile_option profile names ≡ some label
    → profile_for_option label names ≡ some profile
unfolding selected_profile_option profile_for_option
selected_profile_option-profile_for_option profile names label d h =
    label_of-find_label profile (sorted names) (profile_options names) label d h

abbrev pub names_of : Dict Text → List Text
names_of [] = []
names_of ((p, name) ∷ rest) = name ∷ names_of rest

bytes_eq_sym : (s t : Text) → bytes_eq s t ≡ bytes_eq t s
bytes_eq_sym s t = elim (Bool-cases (bytes_eq s t)) [
  | inl e ↦ let q : s ≡ t = eq_of_bytes_eq s t e in rw (q) refl
  | inr e ↦ elim (Bool-cases (bytes_eq t s)) [
    | inl f ↦ let q : t ≡ s = eq_of_bytes_eq t s f in rw (q) refl
    | inr f ↦ e ∙ sym f
  ]
]

-- That none of the names was seen.
abbrev AreNew : List Text → List Text → Type 0
AreNew seen = All (λ name. is_seen name seen ≡ false)

AreNew-cons :
    (t : Text) (seen names : List Text)
    → is_seen t names ≡ false
    → AreNew seen names
    → AreNew (t ∷ seen) names
AreNew-cons t seen [] h n = tt
AreNew-cons t seen (name ∷ names) h n =
    (ground (arith, bytes_eq_sym t name, n.0), AreNew-cons t seen names (ground arith) n.1)

label_loop_new :
    (seen : List Text) (entries : Dict Text)
    → AreDistinct (names_of entries)
    → AreNew seen (names_of entries)
    → label_loop seen entries ≡ names_of entries
unfolding label_loop
label_loop_new seen [] d n = refl
label_loop_new seen ((p, name) ∷ rest) d n =
    rw (n.0, label_loop)
      (ap (λ (l : List Text). name ∷ l)
        (label_loop_new (name ∷ seen) rest d.1 (AreNew-cons name seen (names_of rest) d.0 n.1)))

none_seen : (names : List Text) → AreNew [] names
none_seen [] = tt
none_seen (name ∷ names) = (refl, none_seen names)

-- If the machine's profile names all differ, the options of the picker are those names, in the order of
-- the profiles, and choosing the option that is shown for a profile selects that profile.
pub profile_options_lem :
    (names : Dict Text)
    → AreDistinct (names_of (sorted names))
    → (profile_options names ≡ names_of (sorted names))
      × ((profile : ℕ) (label : Text)
          → selected_profile_option profile names ≡ some label
          → profile_for_option label names ≡ some profile)
unfolding profile_options
profile_options_lem names d =
    let e : profile_options names ≡ names_of (sorted names) =
      label_loop_new [] (sorted names) d (none_seen (names_of (sorted names))) in
    (e, λ profile label. selected_profile_option-profile_for_option profile names label (rw (e) d))
