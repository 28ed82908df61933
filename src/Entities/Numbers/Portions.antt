-- ===== src/Entities/Numbers/Portions.antt =====
-- From the slider to the portion byte of the machine.
use native.Mathlib.Nat.{
  div-add-mod', le-div_iff_mul-le, le_of_mul-le-mul_right, lt_of_mul-lt-mul_right,
}
use hass_melitta_barista_ts.Prelude.{
  ℕ, ◌+◌, ◌*◌, ◌/◌, ◌%◌, ◌≤◌, ◌<◌, ◌≡◌, ◌⊎◌, refl, inl, inr, ltb, ◌==◌, Bool-cases, arith,
}
use hass_melitta_barista_ts.Prelude.Int.{pos}
use hass_melitta_barista_ts.Protocol.Recipe.{RecipeComponent}
use hass_melitta_barista_ts.Machine.Overrides.{apply_overrides, portion_of_ml}
use hass_melitta_barista_ts.Coordinator.State.{Coordinator}
use hass_melitta_barista_ts.Coordinator.Commands.{filled}
use hass_melitta_barista_ts.Coordinator.Commands.Staging.{nothing_given}
use hass_melitta_barista_ts.Entities.Numbers.{round, set_portion, portion_value}

-- Twice the distance of a fraction from its rounding is at most one.
round_nearest :
    (n d : ℕ) → 0 < d → (2 * (round n d * d) ≤ 2 * n + d) × (2 * n ≤ 2 * (round n d * d) + d)
unfolding round
round_nearest n d h = grind arith

round_up : (n d : ℕ) → 0 < d → (round n d ≡ n / d) ⊎ ((round n d ≡ n / d + 1) × (n / d * d < n))
unfolding round
round_up n d h = elim (Bool-cases (ltb (2 * (n % d)) d)) [
  | inl b ↦ inl (rw (b, round) refl)
  | inr b ↦
      let more : n / d * d < n = ground (arith, div-add-mod' n d) in
      elim (Bool-cases (ltb d (2 * (n % d)))) [
        | inl e ↦ inr (rw (b, e, round) refl, more)
        | inr e ↦ elim (Bool-cases (n / d % 2 == 0)) [
          | inl even ↦ inl (rw (b, e, even, round) refl)
          | inr odd ↦ inr (rw (b, e, odd, round) refl, more)
        ]
      ]
]

-- Whole limits of a fraction are limits of its rounding.
round_range :
    (n d lo hi : ℕ) → 0 < d → lo * d ≤ n → n ≤ hi * d → (lo ≤ round n d) × (round n d ≤ hi)
round_range n d lo hi h below above =
    let low : lo ≤ n / d = (le-div_iff_mul-le h).1 below in
    elim (round_up n d h) [
      | inl e ↦
          let high : n / d ≤ hi =
            le_of_mul-le-mul_right {k = d} (omega (arith, div-add-mod' n d)) h in
          (omega (arith, e), omega (arith, e))
      | inr (e, more) ↦
          let high : n / d < hi = lt_of_mul-lt-mul_right d (omega arith) in
          (omega (arith, e), omega (arith, e))
    ]

-- A size that the slider is set to is staged as the nearest multiple of 5 ml. Within the slider's
-- limits, from 5 to 400 ml, it stays within them, and a brew of any stored recipe writes it as that many
-- steps.
pub set_portion_lem :
    (n d : ℕ) (c : RecipeComponent) (s : Coordinator)
    → 0 < d
    → let t = (set_portion n d s).1 in
      (steps : ℕ) × (portion_value t ≡ pos (steps * 5))
      × (2 * (steps * (d * 5)) ≤ 2 * n + d * 5)
      × (2 * n ≤ 2 * (steps * (d * 5)) + d * 5)
      × (5 * d ≤ n
          → n ≤ 400 * d
          → (1 ≤ steps)
            × (steps ≤ 80)
            × ((apply_overrides c (filled nothing_given t.brew_settings)).portion ≡ steps))
unfolding set_portion portion_value filled apply_overrides portion_of_ml
set_portion_lem n d c s h =
    let near = round_nearest n (d * 5) (omega arith) in
    (
      round n (d * 5),
      refl,
      near.0,
      near.1,
      λ lo hi.
          let range = round_range n (d * 5) 1 80 (omega arith) (omega arith) (omega arith) in
          (range.0, range.1, omega (arith, range.0, range.1)),
    )
