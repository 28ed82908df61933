-- ===== src/Services/Targets/Found.antt =====
-- The loop that collects the machines of config entries.
use hass_melitta_barista_ts.Prelude.{
  ℕ, true, false, ◌≡◌, ◌↔◌, ◌⊎◌, inl, inr, refl, sym, ap, ◌==◌, ==_iff, Bool-cases, List, [], ◌∷◌,
  ◌++◌, Option, none, some, arith,
}
use mathlib.Core.Path.{subst}
use hass_melitta_barista_ts.Prelude.In.{In, In-append_left, In-append_right, In-append_cases}
use hass_melitta_barista_ts.Client.Text.{Text}
use hass_melitta_barista_ts.Services.Targets.{Hass, is_found, add_found, coordinator_of, found_loop}

-- No machine twice.
abbrev pub NoneTwice : List ℕ → Type 0
NoneTwice [] = Unit
NoneTwice (c ∷ cs) = ¬ In c cs × NoneTwice cs

In-is_found : (c : ℕ) (xs : List ℕ) → is_found c xs ≡ true → In c xs
In-is_found c [] h = absurd (cc)
In-is_found c (x ∷ xs) h = elim (Bool-cases (x == c)) [
  | inl e ↦ inl ((==_iff x c).0 e)
  | inr e ↦ inr (In-is_found c xs (rw e at h))
]

is_found-In : (c : ℕ) (xs : List ℕ) → is_found c xs ≡ false → ¬ In c xs
is_found-In c [] h g = g
is_found-In c (x ∷ xs) h (inl e) = absurd (ground arith)
is_found-In c (x ∷ xs) h (inr g) = elim (Bool-cases (x == c)) [
  | inl e ↦ absurd (ground arith)
  | inr e ↦ is_found-In c xs (rw e at h) g
]

NoneTwice-append : (xs : List ℕ) (c : ℕ) → NoneTwice xs → ¬ In c xs → NoneTwice (xs ++ c ∷ [])
NoneTwice-append [] c d h = (λ g. g, tt)
NoneTwice-append (x ∷ xs) c d h = (
  λ g. elim (In-append_cases x xs (c ∷ []) g) [
    | inl k ↦ d.0 k
    | inr (inl p) ↦ h (inl (sym p))
    | inr (inr k) ↦ k
  ],
  NoneTwice-append xs c d.1 (λ g. h (inr g)),
)

add_found-NoneTwice :
    (found : List ℕ) (o : Option ℕ) → NoneTwice found → NoneTwice (add_found found o)
add_found-NoneTwice found none d = d
add_found-NoneTwice found (some c) d = elim (Bool-cases (is_found c found)) [
  | inl e ↦ rw e d
  | inr e ↦ rw e (NoneTwice-append found c d (is_found-In c found e))
]

add_found-In :
    (found : List ℕ) (o : Option ℕ) (c : ℕ) → In c (add_found found o) ↔ (In c found ⊎ (o ≡ some c))
add_found-In found none c = ((λ h. inl h), λ h. elim h [ inl g ↦ g | inr e ↦ absurd (cc) ])
add_found-In found (some x) c = elim (Bool-cases (is_found x found)) [
  | inl e ↦ rw e (
    λ h. inl h,
    λ h. elim h [
      | inl g ↦ g
      | inr p ↦ let q : x ≡ c = cc in subst (λ n. In n found) q (In-is_found x found e)
    ],
  )
  | inr e ↦ rw e (
    λ h. elim (In-append_cases c found (x ∷ []) h) [
      | inl g ↦ inl g
      | inr (inl p) ↦ inr (ap some p)
      | inr (inr g) ↦ absurd g
    ],
    λ h. elim h [
      | inl g ↦ In-append_left c found (x ∷ []) g
      | inr p ↦ let q : x ≡ c = cc in In-append_right c found (x ∷ []) (inl q)
    ],
  )
]

module _ (hass : Hass) where
  unfoldable pub Carries : List Text → ℕ → Type 0
  Carries ids c = (id : Text) × In id ids × (coordinator_of (hass.entries id) ≡ some c)

  pub found_loop-NoneTwice :
      (ids : List Text) (found : List ℕ) → NoneTwice found → NoneTwice (found_loop hass ids found)
  unfolding found_loop
  found_loop-NoneTwice [] found d = d
  found_loop-NoneTwice (id ∷ rest) found d =
      found_loop-NoneTwice rest (add_found found (coordinator_of (hass.entries id)))
        (add_found-NoneTwice found (coordinator_of (hass.entries id)) d)

  pub found_loop-In :
      (ids : List Text) (found : List ℕ) (c : ℕ)
      → In c (found_loop hass ids found) ↔ (In c found ⊎ Carries ids c)
  unfolding found_loop Carries
  found_loop-In [] found c = ((λ h. inl h), λ h. elim h [ inl g ↦ g | inr p ↦ absurd p.1 ])
  found_loop-In (id ∷ rest) found c =
      let o : Option ℕ = coordinator_of (hass.entries id) in
      let added = add_found-In found o c in
      let later = found_loop-In rest (add_found found o) c in
      (
        λ h. elim (later.0 h) [
          | inl g ↦ elim (added.0 g) [ inl k ↦ inl k | inr e ↦ inr (id, inl refl, e) ]
          | inr p ↦ inr (p.0, inr p.1, p.2)
        ],
        λ h. later.1 (elim h [
          | inl g ↦ inl (added.1 (inl g))
          | inr (other, inl p, e) ↦
              inl (added.1 (inr (subst (λ t. coordinator_of (hass.entries t) ≡ some c) (sym p) e)))
          | inr (other, inr g, e) ↦ inr (other, g, e)
        ]),
      )
