-- ===== src/Prelude/In.antt =====
-- Membership with the place kept: `a in xs`.
use mathlib.Core.Path.{◌≡◌, refl, subst, sym}
use mathlib.Core.Logic.{◌⊎◌, inl, inr}
use mathlib.Core.List.{List, [], ◌∷◌, ◌++◌}

module _ {A : Type 0} where
  abbrev pub In : A → List A → Type 0
  In a [] = ⊥
  In a (x ∷ xs) = (x ≡ a) ⊎ In a xs

  abbrev pub join : {B : Type 0} → (A → List B) → List A → List B
  join f [] = []
  join f (x ∷ xs) = f x ++ join f xs

module _ {A : Type 0} where
  pub In-append_left : (a : A) (xs ys : List A) → In a xs → In a (xs ++ ys)
  In-append_left a [] ys h = absurd h
  In-append_left a (x ∷ xs) ys (inl e) = inl e
  In-append_left a (x ∷ xs) ys (inr h) = inr (In-append_left a xs ys h)

  pub In-append_right : (a : A) (xs ys : List A) → In a ys → In a (xs ++ ys)
  In-append_right a [] ys h = h
  In-append_right a (x ∷ xs) ys h = inr (In-append_right a xs ys h)

  pub In-append_cases : (a : A) (xs ys : List A) → In a (xs ++ ys) → In a xs ⊎ In a ys
  In-append_cases a [] ys h = inr h
  In-append_cases a (x ∷ xs) ys (inl e) = inl (inl e)
  In-append_cases a (x ∷ xs) ys (inr h) = elim (In-append_cases a xs ys h) [
    | inl g ↦ inl (inr g)
    | inr g ↦ inr g
  ]

pub In-join :
    {A B : Type 0} (f : A → List B) (xs : List A) (a : A) (b : B)
    → In a xs
    → In b (f a)
    → In b (join f xs)
In-join f [] a b h g = absurd h
In-join f (x ∷ xs) a b (inl e) g =
    In-append_left b (f x) (join f xs) (subst (λ t. In b (f t)) (sym e) g)
In-join f (x ∷ xs) a b (inr h) g = In-append_right b (f x) (join f xs) (In-join f xs a b h g)

pub In-join_source :
    {A B : Type 0} (f : A → List B) (xs : List A) (b : B)
    → In b (join f xs)
    → (a : A) × In a xs × In b (f a)
In-join_source f [] b h = absurd h
In-join_source f (x ∷ xs) b h = elim (In-append_cases b (f x) (join f xs) h) [
  | inl g ↦ (x, inl refl, g)
  | inr g ↦ let found = In-join_source f xs b g in (found.0, inr found.1, found.2)
]
