-- ===== src/Client/Characteristics/Candidates.antt =====
-- Every writable characteristic gets its turn in the handshake, and only once.
use hass_melitta_barista_ts.Prelude.{
  eq_of_bytes_eq, ◌⊎◌, ◌≡◌, ◌≢◌, refl, ◌∙◌, sym, ap, true, false, Bool-cases, Option-cases, inl,
  inr, List, [], ◌∷◌, some, bytes_eq, arith, All, ==_iff,
}
use hass_melitta_barista_ts.Errors.{ok, err, connection_error}
use hass_melitta_barista_ts.Client.Text.{Text, text, lower}
use hass_melitta_barista_ts.Client.Characteristics.{
  Characteristic, is_writable, is_in, available, preferred, add_writable, write_char_candidates,
  non_empty, char_write_uuid_candidates,
}
use hass_melitta_barista_ts.Client.Characteristics.Ordered.{
  AreDistinct, AreWritable, AreCovered, add_writable-AreDistinct, add_writable-AreWritable,
  add_writable-AreCovered,
}

preferred-AreWritable :
    (uuids : List Text) (chars : List Characteristic) → AreWritable (preferred uuids chars)
unfolding preferred
preferred-AreWritable [] chars = tt
preferred-AreWritable (u ∷ uuids) chars = elim (Option-cases (available (lower u) chars)) [
  | inl e ↦ rw (e, preferred) (preferred-AreWritable uuids chars)
  | inr (c, e) ↦ elim (Bool-cases (is_writable c)) [
    | inl w ↦ rw (e, w, preferred) (w, preferred-AreWritable uuids chars)
    | inr w ↦ rw (e, w, preferred) (preferred-AreWritable uuids chars)
  ]
]

-- What `available` gives is in the list, with that UUID.
available_lem :
    (uuid : Text) (chars : List Characteristic) (c : Characteristic)
    → available uuid chars ≡ some c
    → (is_in c chars ≡ true) × (lower c.uuid ≡ uuid)
unfolding available
available_lem uuid [] c h = absurd (ground arith)
available_lem uuid (x ∷ chars) c h = elim (Option-cases (available uuid chars)) [
  | inr (d, e) ↦
      let same : d ≡ c = ground arith in
      let r = available_lem uuid chars c (e ∙ ap some same) in (ground (arith, r.0), r.1)
  | inl e ↦ elim (Bool-cases (bytes_eq (lower x.uuid) uuid)) [
    | inl b ↦
        let same : x ≡ c = ground arith in
        (
          ground arith,
          ap (λ (y : Characteristic). lower y.uuid) (sym same)
              ∙ eq_of_bytes_eq (lower x.uuid) uuid b,
        )
    | inr b ↦ absurd (ground arith)
  ]
]

is_in-handle :
    (c d : Characteristic) (chars : List Characteristic)
    → c.handle ≡ d.handle
    → is_in c chars ≡ is_in d chars
is_in-handle c d [] e = refl
is_in-handle c d (x ∷ chars) e = rw (e, is_in-handle c d chars e) refl

head_or_tail :
    (uuid : Text) (x c : Characteristic) (chars : List Characteristic)
    → available uuid (x ∷ chars) ≡ some c
    → (available uuid chars ≡ some c) ⊎ (c ≡ x)
unfolding available
head_or_tail uuid x c chars h = elim (Option-cases (available uuid chars)) [
  | inr (d, e) ↦ inl (ground arith)
  | inl e ↦ inr (ground arith)
]

clash :
    (u : Text) (x c : Characteristic) (chars : List Characteristic)
    → is_in x chars ≡ false
    → available u chars ≡ some c
    → c.handle ≢ x.handle
clash u x c chars h e k =
    let f : true ≡ false = sym (available_lem u chars c e).0 ∙ is_in-handle c x chars k ∙ h in
    absurd (ground arith)

-- Found under two different UUIDs, two characteristics are different ones.
handles_differ :
    (u v : Text) (chars : List Characteristic) (c d : Characteristic)
    → AreDistinct chars
    → u ≢ v
    → available u chars ≡ some c
    → available v chars ≡ some d
    → c.handle ≢ d.handle
handles_differ u v [] c d k ne h g e = unfold available in absurd (ground arith)
handles_differ u v (x ∷ chars) c d k ne h g e = elim (head_or_tail u x c chars h) [
  | inl h' ↦ elim (head_or_tail v x d chars g) [
    | inl g' ↦ handles_differ u v chars c d k.1 ne h' g' e
    | inr g' ↦ clash u x c chars k.0 h' (e ∙ ap (λ (y : Characteristic). y.handle) g')
  ]
  | inr h' ↦ elim (head_or_tail v x d chars g) [
    | inl g' ↦ clash v x d chars k.0 g' (sym e ∙ ap (λ (y : Characteristic). y.handle) h')
    | inr g' ↦ ne (
        sym (available_lem u (x ∷ chars) c h).1
        ∙ ap (λ (y : Characteristic). lower y.uuid) (h' ∙ sym g')
        ∙ (available_lem v (x ∷ chars) d g).1)
  ]
]

preferred-AreDistinct :
    (u v : Text) (chars : List Characteristic)
    → AreDistinct chars
    → lower u ≢ lower v
    → AreDistinct (preferred (u ∷ v ∷ []) chars)
unfolding preferred
preferred-AreDistinct u v chars k ne = elim (Option-cases (available (lower u) chars)) [
  | inl e ↦ elim (Option-cases (available (lower v) chars)) [
    | inl g ↦ rw (e, g, preferred) tt
    | inr (d, g) ↦ rw (e, g, preferred) (ground arith)
  ]
  | inr (c, e) ↦ elim (Option-cases (available (lower v) chars)) [
    | inl g ↦ rw (e, g, preferred) (ground arith)
    | inr (d, g) ↦
        rw (e, g, preferred)
          (ground (
            arith,
            handles_differ (lower u) (lower v) chars c d k ne e g,
            ==_iff d.handle c.handle,
          ))
  ]
]

uuids_differ :
    lower (text "0000ad03-b35c-11e4-9813-0002a5d5c51b")
    ≢ lower (text "0000ad01-b35c-11e4-9813-0002a5d5c51b")
unfolding lower
uuids_differ h = absurd (ground (arith, h))

non_empty_lem : (found cs : List Characteristic) → non_empty found ≡ ok cs → found ≡ cs
non_empty_lem [] cs h = absurd (ground arith)
non_empty_lem (c ∷ found) cs h = ground arith

-- Of a service whose characteristics have different handles, the candidates are writable ones, each
-- once, and every writable characteristic is among them. The call raises only if none is writable.
pub write_char_candidates_lem :
    (chars : List Characteristic)
    → AreDistinct chars
    → ((cs : List Characteristic)
        → write_char_candidates (some chars) ≡ ok cs
        → AreDistinct cs × AreWritable cs × AreCovered chars cs)
      × (write_char_candidates (some chars) ≡ err connection_error
          → All (λ c. is_writable c ≡ false) chars)
unfolding write_char_candidates
write_char_candidates_lem chars k = (
  λ cs h. transport_to cs (non_empty_lem found cs h),
  λ h. none_writable chars (raised found (add_writable-AreCovered chars first) h),
)
  where
    first : List Characteristic
    first = preferred char_write_uuid_candidates chars

    found : List Characteristic
    found = add_writable first chars

    transport_to :
        (cs : List Characteristic)
        → found ≡ cs
        → AreDistinct cs × AreWritable cs × AreCovered chars cs
    transport_to cs e = rw (← e) (
      add_writable-AreDistinct chars first (preferred-AreDistinct _ _ chars k uuids_differ),
      add_writable-AreWritable chars first (preferred-AreWritable char_write_uuid_candidates chars),
      add_writable-AreCovered chars first,
    )

    raised :
        (l : List Characteristic)
        → AreCovered chars l
        → non_empty l ≡ err connection_error
        → AreCovered chars []
    raised [] a h = a
    raised (c ∷ l) a h = absurd (ground arith)

    none_writable : (l : List Characteristic) → AreCovered l [] → All (λ c. is_writable c ≡ false) l
    none_writable [] a = tt
    none_writable (c ∷ l) a = (ground (arith, a.0), none_writable l a.1)
