-- ===== src/Protocol/Frame/Chunks.antt =====
-- Cutting a frame into writes loses nothing.
use hass_melitta_barista_ts.Prelude.{
  ℕ, zero, suc, ◌≤◌, ◌≡◌, refl, ap, List, [], ◌∷◌, ◌++◌, length, length-take, length-drop, take,
  drop, take-append-drop, arith, ◌∙◌,
}
use hass_melitta_barista_ts.Errors.{ok}
use hass_melitta_barista_ts.Protocol.Frame.{chunk_loop, chunk_for_ble}

abbrev pub concat : List (List ℕ) → List ℕ
concat [] = []
concat (xs ∷ rest) = xs ++ concat rest

-- All pieces are full but the last, which is not empty.
abbrev pub AreFull : ℕ → List (List ℕ) → Type 0
AreFull mtu [] = Unit
AreFull mtu (c ∷ []) = (1 ≤ length c) × (length c ≤ mtu)
AreFull mtu (c ∷ d ∷ rest) = (length c ≡ mtu) × AreFull mtu (d ∷ rest)

chunk_loop-concat :
    (fuel : ℕ) (frame : List ℕ) (m : ℕ)
    → length frame ≤ fuel
    → concat (chunk_loop fuel frame (suc m)) ≡ frame
unfolding chunk_loop
chunk_loop-concat zero [] m h = refl
chunk_loop-concat zero (b ∷ rest) m h = absurd (omega arith)
chunk_loop-concat (suc fuel) [] m h = refl
chunk_loop-concat (suc fuel) (b ∷ rest) m h =
    ap (λ (t : List ℕ). b ∷ take m rest ++ t)
      (chunk_loop-concat fuel (drop m rest) m (omega (arith, length-drop m rest)))
    ∙ ap (λ (t : List ℕ). b ∷ t) (take-append-drop m rest)

chunk_loop-AreFull :
    (fuel : ℕ) (frame : List ℕ) (m : ℕ)
    → length frame ≤ fuel
    → AreFull (suc m) (chunk_loop fuel frame (suc m))
unfolding chunk_loop
chunk_loop-AreFull zero frame m h = tt
chunk_loop-AreFull (suc fuel) [] m h = tt
chunk_loop-AreFull (suc fuel) (b ∷ rest) m h =
    go fuel (drop m rest) refl
      (chunk_loop-AreFull fuel (drop m rest) m (omega (arith, length-drop m rest)))
  where
    go :
        (f : ℕ) (left : List ℕ)
        → drop m rest ≡ left
        → AreFull (suc m) (chunk_loop f left (suc m))
        → AreFull (suc m) ((b ∷ take m rest) ∷ chunk_loop f left (suc m))
    go zero left e r = (omega arith, omega (arith, length-take m rest))
    go (suc f) [] e r = (omega arith, omega (arith, length-take m rest))
    go (suc f) (x ∷ left) e r =
        (omega (arith, length-take m rest, length-drop m rest, ap length e), r)

-- With a positive MTU a frame is cut into pieces that put together give the frame again, each of
-- `mtu` bytes but the last, which has between 1 and `mtu`.
pub chunk_for_ble_lem :
    (frame : List ℕ) (m : ℕ)
    → (cs : List (List ℕ)) × (chunk_for_ble frame (suc m) ≡ ok cs)
      × (concat cs ≡ frame)
      × AreFull (suc m) cs
unfolding chunk_for_ble
chunk_for_ble_lem frame m = (
  chunk_loop (length frame) frame (suc m),
  refl,
  chunk_loop-concat (length frame) frame m (omega arith),
  chunk_loop-AreFull (length frame) frame m (omega arith),
)
