-- ===== src/Machine/Reads/Matching.antt =====
-- A read never returns the value of another register.
use hass_melitta_barista_ts.Prelude.{
  ℕ, zero, suc, ◌≡◌, inl, inr, refl, false, Bool-cases, List, arith, ap, ◌∙◌,
}
use hass_melitta_barista_ts.Prelude.Int.{ℤ, eq_ℤ, eq_of_eq_ℤ, eq_ℤ_refl}
use hass_melitta_barista_ts.Errors.{command_timeout, Result, ok, err}
use hass_melitta_barista_ts.Const.Framing.{cmd_read_numerical}
use hass_melitta_barista_ts.Protocol.Values.{NumericalValue, numerical_from_payload}
use hass_melitta_barista_ts.Machine.Session.{Session, reply, request}
use hass_melitta_barista_ts.Machine.Session.Laws.{Result-cases}
use hass_melitta_barista_ts.Machine.Reads.{pack_id, numerical_loop, read_numerical}

-- The frame that asks for a register, and its answer.
abbrev pub ask : List ℕ → Session → Result (List ℕ) × Session
ask packed s = request cmd_read_numerical packed (reply cmd_read_numerical) false s

loop_fresh :
    (n : ℕ) (value_id value : ℤ) (packed payload : List ℕ) (s t : Session)
    → pack_id value_id ≡ ok packed
    → ask packed s ≡ (ok payload, t)
    → numerical_from_payload payload ≡ ok (record { value_id = value_id; value = value })
    → numerical_loop (suc n) value_id s ≡ (ok value, t)
unfolding numerical_loop
loop_fresh n value_id value packed payload s t hp ha hv = rw (hp, ha, hv, eq_ℤ_refl value_id) refl

loop_stale :
    (n : ℕ) (value_id : ℤ) (packed payload : List ℕ) (other : NumericalValue) (s t : Session)
    → pack_id value_id ≡ ok packed
    → ask packed s ≡ (ok payload, t)
    → numerical_from_payload payload ≡ ok other
    → eq_ℤ other.value_id value_id ≡ false
    → numerical_loop (suc n) value_id s ≡ numerical_loop n value_id t
unfolding numerical_loop
loop_stale n value_id packed payload other s t hp ha hv he = rw (hp, ha, hv, he) refl

-- A late answer to an earlier read costs one more request and no more: if the first answer names
-- another register, the second one counts, and if that does too, the read ends in a timeout.
pub read_numerical_retries :
    (value_id : ℤ) (packed first second : List ℕ) (other answer : NumericalValue) (s t u : Session)
    → pack_id value_id ≡ ok packed
    → ask packed s ≡ (ok first, t)
    → numerical_from_payload first ≡ ok other
    → eq_ℤ other.value_id value_id ≡ false
    → ask packed t ≡ (ok second, u)
    → numerical_from_payload second ≡ ok answer
    → (answer.value_id ≡ value_id → read_numerical value_id s ≡ (ok answer.value, u))
      × (eq_ℤ answer.value_id value_id ≡ false
          → read_numerical value_id s ≡ (err command_timeout, u))
unfolding read_numerical
read_numerical_retries value_id packed first second other answer s t u hp ha hv he hb hw =
    let again : numerical_loop 2 value_id s ≡ numerical_loop 1 value_id t =
      loop_stale 1 value_id packed first other s t hp ha hv he in
    (
      λ same.
          again
          ∙ loop_fresh 0 value_id answer.value packed second t u hp hb
              (hw ∙ ap (λ (v : ℤ). ok (record { value_id = v; value = answer.value })) same),
      λ differs.
          again
          ∙ loop_stale 0 value_id packed second answer t u hp hb hw differs
          ∙ unfold numerical_loop in refl,
    )

-- That a value came in an answer for this register, to the last request.
pub record Own (value_id value : ℤ) (t : Session) : Type 0 where
  pub packed : List ℕ
  pub payload : List ℕ
  pub asked_at : Session
  pub packs : pack_id value_id ≡ ok packed
  pub answered : ask packed asked_at ≡ (ok payload, t)
  pub decoded : numerical_from_payload payload ≡ ok (record { value_id = value_id; value = value })

loop-Own :
    (n : ℕ) (value_id value : ℤ) (s t : Session)
    → numerical_loop n value_id s ≡ (ok value, t)
    → Own value_id value t
unfolding numerical_loop
loop-Own zero value_id value s t h = absurd (ground arith)
loop-Own (suc n) value_id value s t h = elim (Result-cases (pack_id value_id)) [
  | inr (e, q) ↦ absurd (ground arith)
  | inl (packed, q) ↦ elim (Result-cases (ask packed s).0) [
    | inr (e, r) ↦ absurd (ground arith)
    | inl (payload, r) ↦ elim (Result-cases (numerical_from_payload payload)) [
      | inr (e, d) ↦ absurd (ground arith)
      | inl (answer, d) ↦ elim (Bool-cases (eq_ℤ answer.value_id value_id)) [
        | inl b ↦ record {
          packed = packed;
          payload = payload;
          asked_at = s;
          packs = q;
          answered = ground arith;
          decoded = ground (arith, eq_of_eq_ℤ answer.value_id value_id b);
        }
        | inr b ↦ loop-Own n value_id value (ask packed s).1 t (ground arith)
      ]
    ]
  ]
]

-- A read that returns a value got it in an answer that names the register it asked for.
pub read_numerical-Own :
    (value_id value : ℤ) (s t : Session)
    → read_numerical value_id s ≡ (ok value, t)
    → Own value_id value t
unfolding read_numerical
read_numerical-Own value_id value s t h = loop-Own 2 value_id value s t h
