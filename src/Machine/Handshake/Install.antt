-- ===== src/Machine/Handshake/Install.antt =====
-- When the handshake makes the session ready.
use hass_melitta_barista_ts.Prelude.{
  ℕ, ◌≤◌, ◌≡◌, ◌≢◌, ◌⊎◌, inl, inr, refl, sym, ap, ◌∙◌, true, bytes_eq, bytes_eq_refl,
  eq_of_bytes_eq, List, [], ◌∷◌, ◌++◌, none, some, length, take, drop, arith, All, length-append,
}
use hass_melitta_barista_ts.Errors.{Exception, Result, ok, err}
use hass_melitta_barista_ts.Const.Framing.{cmd_handshake}
use hass_melitta_barista_ts.Protocol.Rc4.Schedule.{IsByte}
use hass_melitta_barista_ts.Protocol.Checksum.{hu_verifier}
use hass_melitta_barista_ts.Protocol.Checksum.Detection.{hu_verifier_detects}
use hass_melitta_barista_ts.Machine.Session.{
  Session, Exchange, Event, frame, reply, request, resolves,
}
use hass_melitta_barista_ts.Machine.Session.Laws.{Result-cases, request-KeepsKey, request_answered}
use hass_melitta_barista_ts.Machine.Handshake.{accept_response, handshake}

-- What the tests on the answer come to: it is long enough, it echoes the challenge, and its last two
-- bytes verify the echo and the key.
pub record IsAnswer (challenge response key : List ℕ) : Type 0 where
  pub long : 8 ≤ length response
  pub echo : take 4 response ≡ challenge
  pub key_at : drop 4 (take 6 response) ≡ key
  pub verified : hu_verifier (take 6 response) ≡ ok (drop 6 (take 8 response))

pub accept_response-IsAnswer :
    (challenge response key : List ℕ)
    → accept_response challenge response ≡ ok key
    → IsAnswer challenge response key
unfolding accept_response
accept_response-IsAnswer challenge response key h =
    elim (Result-cases (hu_verifier (take 6 response))) [
      | inr (e, q) ↦ absurd (ground arith)
      | inl (expected, q) ↦
          let same : drop 6 (take 8 response) ≡ expected =
            ground (arith, eq_of_bytes_eq (drop 6 (take 8 response)) expected) in
          record {
            long = ground arith;
            echo = ground (arith, eq_of_bytes_eq (take 4 response) challenge);
            key_at = ground arith;
            verified = cc;
          }
    ]

pub IsAnswer-accept_response :
    (challenge response key : List ℕ)
    → IsAnswer challenge response key
    → accept_response challenge response ≡ ok key
unfolding accept_response
IsAnswer-accept_response challenge response key a =
    rw (a.verified, accept_response)
      (rw (a.echo, bytes_eq_refl challenge, bytes_eq_refl (drop 6 (take 8 response)))
        (ground arith))

-- The session in which the challenge is sent, and the answer to it.
abbrev pub challenged : List ℕ → Session → Session
challenged challenge s = record s { key_prefix = none; challenge = some challenge }

abbrev pub answer_to : List ℕ → List ℕ → Session → Result (List ℕ) × Session
answer_to challenge verifier s =
    request cmd_handshake (challenge ++ verifier) (reply cmd_handshake) true
      (challenged challenge s)

pub record Installed (challenge : List ℕ) (s : Session) : Type 0 where
  pub verifier : List ℕ
  pub response : List ℕ
  pub key : List ℕ
  pub verifies : hu_verifier challenge ≡ ok verifier
  pub answered : (answer_to challenge verifier s).0 ≡ ok response
  pub is_answer : IsAnswer challenge response key
  pub result : (handshake challenge s).0 ≡ ok tt
  pub installed : (handshake challenge s).1.key_prefix ≡ some key

-- However the machine answers, the handshake either returns, and then the session has the key that the
-- answer carries, which passed the three tests; or it raises, and then there is no session key.
pub handshake_outcome :
    (challenge : List ℕ) (s : Session)
    → Installed challenge s
      ⊎ ((e : Exception) × ((handshake challenge s).0 ≡ err e)
          × ((handshake challenge s).1.key_prefix ≡ none))
unfolding handshake
handshake_outcome challenge s = elim (Result-cases (hu_verifier challenge)) [
  | inr (e, q) ↦ inr (e, ground arith, ground arith)
  | inl (v, q) ↦ elim (Result-cases (answer_to challenge v s).0) [
    | inr (e, r) ↦ inr (
      e,
      ground arith,
      ground (
        arith,
        request-KeepsKey cmd_handshake (challenge ++ v) (reply cmd_handshake) true
            (challenged challenge s),
      ),
    )
    | inl (response, r) ↦ elim (Result-cases (accept_response challenge response)) [
      | inr (e, k) ↦ inr (
        e,
        ground arith,
        ground (
          arith,
          request-KeepsKey cmd_handshake (challenge ++ v) (reply cmd_handshake) true
              (challenged challenge s),
        ),
      )
      | inl (key, k) ↦ inl (record {
        verifier = v;
        response = response;
        key = key;
        verifies = q;
        answered = r;
        is_answer = accept_response-IsAnswer challenge response key k;
        result = ground arith;
        installed = ground arith;
      })
    ]
  ]
]

verifier_of : (b : ℕ) (rest : List ℕ) → (v : List ℕ) × (hu_verifier (b ∷ rest) ≡ ok v)
unfolding hu_verifier
verifier_of b rest = (_, refl)

-- The two slices of an answer of six bytes and two.
cut_six :
    (six : List ℕ) (v0 v1 : ℕ)
    → length six ≡ 6
    → (take 6 (six ++ v0 ∷ v1 ∷ []) ≡ six) × (drop 6 (take 8 (six ++ v0 ∷ v1 ∷ [])) ≡ v0 ∷ v1 ∷ [])
cut_six [] v0 v1 e = absurd (omega arith)
cut_six (a ∷ []) v0 v1 e = absurd (omega arith)
cut_six (a ∷ b ∷ []) v0 v1 e = absurd (omega arith)
cut_six (a ∷ b ∷ c ∷ []) v0 v1 e = absurd (omega arith)
cut_six (a ∷ b ∷ c ∷ d ∷ []) v0 v1 e = absurd (omega arith)
cut_six (a ∷ b ∷ c ∷ d ∷ f ∷ []) v0 v1 e = absurd (omega arith)
cut_six (a ∷ b ∷ c ∷ d ∷ f ∷ g ∷ []) v0 v1 e = (refl, refl)
cut_six (a ∷ b ∷ c ∷ d ∷ f ∷ g ∷ h ∷ six) v0 v1 e = absurd (omega arith)

-- A machine whose first answer echoes the four bytes of the challenge, adds two of a key and
-- verifies the six gets its key installed, and the handshake returns.
pub handshake_completes :
    (c0 c1 c2 c3 k0 k1 v0 v1 : ℕ) (s : Session) (rest : List Event) (more : List Exchange)
    → hu_verifier (c0 ∷ c1 ∷ c2 ∷ c3 ∷ k0 ∷ k1 ∷ []) ≡ ok (v0 ∷ v1 ∷ [])
    → s.script
      ≡ record {
        failure = none;
        events = frame cmd_handshake (c0 ∷ c1 ∷ c2 ∷ c3 ∷ k0 ∷ k1 ∷ v0 ∷ v1 ∷ []) ∷ rest;
      }
        ∷ more
    → ((handshake (c0 ∷ c1 ∷ c2 ∷ c3 ∷ []) s).0 ≡ ok tt)
      × ((handshake (c0 ∷ c1 ∷ c2 ∷ c3 ∷ []) s).1.key_prefix ≡ some (k0 ∷ k1 ∷ []))
unfolding handshake
handshake_completes c0 c1 c2 c3 k0 k1 v0 v1 s rest more hv hs =
    let challenge : List ℕ = c0 ∷ c1 ∷ c2 ∷ c3 ∷ [] in
    let response : List ℕ = c0 ∷ c1 ∷ c2 ∷ c3 ∷ k0 ∷ k1 ∷ v0 ∷ v1 ∷ [] in
    let (v, q) = verifier_of c0 (c1 ∷ c2 ∷ c3 ∷ []) in
    let r : (answer_to challenge v s).0 ≡ ok response =
      unfold resolves bytes_eq in
      request_answered cmd_handshake (challenge ++ v) (reply cmd_handshake) true
        (challenged challenge s) cmd_handshake response rest more hs refl in
    let k : accept_response challenge response ≡ ok (k0 ∷ k1 ∷ []) =
      IsAnswer-accept_response challenge response (k0 ∷ k1 ∷ [])
        (record { long = omega arith; echo = refl; key_at = refl; verified = hv }) in
    (ground arith, ground arith)

-- An answer whose echo or key was changed in one byte, under the verifier of the true one, is refused.
pub accept_response_tampered :
    (challenge before after key : List ℕ) (x y v0 v1 : ℕ)
    → IsByte x
    → IsByte y
    → All IsByte after
    → x ≢ y
    → length (before ++ x ∷ after) ≡ 6
    → hu_verifier (before ++ x ∷ after) ≡ ok (v0 ∷ v1 ∷ [])
    → accept_response challenge (before ++ y ∷ after ++ v0 ∷ v1 ∷ []) ≢ ok key
accept_response_tampered challenge before after key x y v0 v1 hx hy ha ne len hv h =
    let a = accept_response-IsAnswer challenge (before ++ y ∷ after ++ v0 ∷ v1 ∷ []) key h in
    let six : length (before ++ y ∷ after) ≡ 6 =
      omega (arith, length-append before (x ∷ after), length-append before (y ∷ after)) in
    let (t, d) = cut_six (before ++ y ∷ after) v0 v1 six in
    hu_verifier_detects before after x y hx hy ha ne
      (hv ∙ ap ok (sym d) ∙ sym a.verified ∙ ap hu_verifier t)
