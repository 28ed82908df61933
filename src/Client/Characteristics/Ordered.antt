-- ===== src/Client/Characteristics/Ordered.antt =====
-- What the loop over all characteristics adds to those that come first.
use hass_melitta_barista_ts.Prelude.{
  ◌≡◌, refl, ◌∙◌, true, false, Bool-cases, inl, inr, if◌then◌else◌, List, [], ◌∷◌, ◌++◌, arith, All,
  ◌||◌, ◌&&◌, not,
}
use hass_melitta_barista_ts.Client.Characteristics.{
  Characteristic, is_writable, is_in, add_writable,
}

-- That no handle occurs twice.
abbrev pub AreDistinct : List Characteristic → Type 0
AreDistinct [] = Unit
AreDistinct (c ∷ cs) = (is_in c cs ≡ false) × AreDistinct cs

is_in-append :
    (c : Characteristic) (xs ys : List Characteristic)
    → is_in c (xs ++ ys) ≡ (is_in c xs || is_in c ys)
is_in-append c [] ys = refl
is_in-append c (x ∷ xs) ys = ground (arith, is_in-append c xs ys)

AreDistinct-snoc :
    (xs : List Characteristic) (c : Characteristic)
    → AreDistinct xs
    → is_in c xs ≡ false
    → AreDistinct (xs ++ c ∷ [])
AreDistinct-snoc [] c d h = (refl, tt)
AreDistinct-snoc (x ∷ xs) c d h =
    (is_in-append x xs (c ∷ []) ∙ ground arith, AreDistinct-snoc xs c d.1 (ground arith))

-- One round of the second loop.
abbrev add_one : List Characteristic → Characteristic → List Characteristic
add_one ordered c = if is_writable c && not (is_in c ordered) then ordered ++ c ∷ [] else ordered

add_one-AreDistinct :
    (ordered : List Characteristic) (c : Characteristic)
    → AreDistinct ordered
    → AreDistinct (add_one ordered c)
add_one-AreDistinct ordered c d = ground (arith, AreDistinct-snoc ordered c d)

pub add_writable-AreDistinct :
    (chars ordered : List Characteristic)
    → AreDistinct ordered
    → AreDistinct (add_writable ordered chars)
unfolding add_writable
add_writable-AreDistinct [] ordered d = d
add_writable-AreDistinct (c ∷ chars) ordered d =
    add_writable-AreDistinct chars (add_one ordered c) (add_one-AreDistinct ordered c d)

add_one-keeps :
    (ordered : List Characteristic) (c x : Characteristic)
    → is_in x ordered ≡ true
    → is_in x (add_one ordered c) ≡ true
add_one-keeps ordered c x h = ground (arith, is_in-append x ordered (c ∷ []))

add_writable-keeps :
    (chars ordered : List Characteristic) (x : Characteristic)
    → is_in x ordered ≡ true
    → is_in x (add_writable ordered chars) ≡ true
unfolding add_writable
add_writable-keeps [] ordered x h = h
add_writable-keeps (c ∷ chars) ordered x h =
    add_writable-keeps chars (add_one ordered c) x (add_one-keeps ordered c x h)

add_one-takes :
    (ordered : List Characteristic) (c : Characteristic)
    → is_writable c ≡ true
    → is_in c (add_one ordered c) ≡ true
add_one-takes ordered c w = ground (arith, is_in-append c ordered (c ∷ []))

-- That every writable one of a list is in another.
abbrev pub AreCovered : List Characteristic → List Characteristic → Type 0
AreCovered chars found = All (λ c. is_writable c ≡ true → is_in c found ≡ true) chars

pub add_writable-AreCovered :
    (chars ordered : List Characteristic) → AreCovered chars (add_writable ordered chars)
unfolding add_writable
add_writable-AreCovered [] ordered = tt
add_writable-AreCovered (c ∷ chars) ordered = (
  λ w. add_writable-keeps chars (add_one ordered c) c (add_one-takes ordered c w),
  add_writable-AreCovered chars (add_one ordered c),
)

abbrev pub AreWritable : List Characteristic → Type 0
AreWritable = All (λ c. is_writable c ≡ true)

AreWritable-append :
    (xs ys : List Characteristic) → AreWritable xs → AreWritable ys → AreWritable (xs ++ ys)
AreWritable-append [] ys p q = q
AreWritable-append (x ∷ xs) ys p q = (p.0, AreWritable-append xs ys p.1 q)

add_one-AreWritable :
    (ordered : List Characteristic) (c : Characteristic)
    → AreWritable ordered
    → AreWritable (add_one ordered c)
add_one-AreWritable ordered c p = elim (Bool-cases (is_writable c)) [
  | inl w ↦ ground (arith, AreWritable-append ordered (c ∷ []) p (w, tt))
  | inr w ↦ rw (w) p
]

pub add_writable-AreWritable :
    (chars ordered : List Characteristic)
    → AreWritable ordered
    → AreWritable (add_writable ordered chars)
unfolding add_writable
add_writable-AreWritable [] ordered p = p
add_writable-AreWritable (c ∷ chars) ordered p =
    add_writable-AreWritable chars (add_one ordered c) (add_one-AreWritable ordered c p)
