-- ===== src/Services/Targets/Resolved.antt =====
-- What a target resolves to, independently of the order in which sets are walked.
use hass_melitta_barista_ts.Prelude.{ℕ, ◌≡◌, ◌↔◌, inl, inr, List, [], ◌∷◌, some}
use mathlib.Core.Path.{subst}
use hass_melitta_barista_ts.Prelude.In.{In}
use hass_melitta_barista_ts.Errors.{Exception, ok, err, service_validation_error}
use hass_melitta_barista_ts.Client.Text.{Text}
use hass_melitta_barista_ts.Services.Targets.{
  Hass, Target, referenced_entry_ids, from_keys, coordinator_of, found_loop, some_found,
  coordinators,
}
use hass_melitta_barista_ts.Services.Targets.Entries.{
  References, WalksSets, References_lem, from_keys-In,
}
use hass_melitta_barista_ts.Services.Targets.Found.{
  NoneTwice, Carries, found_loop-NoneTwice, found_loop-In,
}

-- An entry that is referred to is this integration's and carries that coordinator.
pub record Reaches (hass : Hass) (t : Target) (c : ℕ) : Type 0 where
  pub entry_id : Text
  pub referred : References hass t entry_id
  pub carries : coordinator_of (hass.entries entry_id) ≡ some c

some_found_lem :
    (l : List ℕ) (P : ℕ → Type 0)
    → NoneTwice l
    → ((c : ℕ) → In c l ↔ P c)
    → ((found : List ℕ) → some_found l ≡ ok found → NoneTwice found × ((c : ℕ) → In c found ↔ P c))
      × ((e : Exception)
          → some_found l ≡ err e
          → (e ≡ service_validation_error) × ((c : ℕ) → ¬ P c))
some_found_lem [] P d h = (λ found e. absurd (cc), λ e p. (cc, λ c g. (h c).1 g))
some_found_lem (x ∷ xs) P d h = (
  λ found e.
      let same : x ∷ xs ≡ found = cc in
      subst (λ (l : List ℕ). NoneTwice l × ((c : ℕ) → In c l ↔ P c)) same (d, h),
  λ e p. absurd (cc),
)

module _ (hass : Hass) (walks : WalksSets hass) (t : Target) where
  abbrev resolved : List ℕ
  resolved = found_loop hass (from_keys [] (referenced_entry_ids hass t)) []

  resolved_lem : (c : ℕ) → In c resolved ↔ Reaches hass t c
  unfolding Carries
  resolved_lem c =
      let ids = referenced_entry_ids hass t in
      let found = found_loop-In hass (from_keys [] ids) [] c in
      (
        λ h. elim (found.0 h) [
          | inl g ↦ absurd g
          | inr p ↦ elim ((from_keys-In [] ids p.0).0 p.1) [
            | inl k ↦ absurd k
            | inr k ↦ record {
              entry_id = p.0;
              referred = (References_lem hass walks t p.0).0 k;
              carries = p.2;
            }
          ]
        ],
        λ r. found.1 (
            inr (
              r.entry_id,
              (from_keys-In [] ids r.entry_id).1
                  (inr ((References_lem hass walks t r.entry_id).1 r.referred)),
              r.carries,
            )),
      )

  -- A call is answered for exactly the machines whose config entries the target refers to, through a
  -- device, an entity, the device of an entity or an area, each machine once and in whatever order sets
  -- are walked; where there is none, it is refused.
  pub coordinators_lem :
      ((found : List ℕ)
        → coordinators hass t ≡ ok found
        → NoneTwice found × ((c : ℕ) → In c found ↔ Reaches hass t c))
      × ((e : Exception)
          → coordinators hass t ≡ err e
          → (e ≡ service_validation_error) × ((c : ℕ) → ¬ Reaches hass t c))
  unfolding coordinators
  coordinators_lem =
      some_found_lem resolved (Reaches hass t)
        (found_loop-NoneTwice hass (from_keys [] (referenced_entry_ids hass t)) [] tt) resolved_lem
