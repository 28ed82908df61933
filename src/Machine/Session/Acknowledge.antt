-- ===== src/Machine/Session/Acknowledge.antt =====
-- How a write that waits for an acknowledgement ends.
use hass_melitta_barista_ts.Prelude.{
  ℕ, ◌≡◌, refl, ap, ◌∙◌, false, List, [], ◌∷◌, none, some, arith, bytes_eq,
}
use hass_melitta_barista_ts.Errors.{
  Exception, Result, ok, err, command_timeout, not_acknowledged, timeout_error, cancelled_error,
}
use hass_melitta_barista_ts.Const.Framing.{Command, cmd_ack, cmd_nack}
use hass_melitta_barista_ts.Machine.Session.{
  Session, Exchange, Event, frame, link_lost, ack, exchange, wait_for, resolves, request,
  request_ack, next_exchange, silence,
}
use hass_melitta_barista_ts.Machine.Session.Laws.{request_lem, request_answered}

module _ (command : Command) (payload : List ℕ) (s : Session) where
  -- What a request comes to is what its part of the script comes to.
  ends :
      (x : Exchange) (r : Result (List ℕ))
      → (next_exchange s).0 ≡ x
      → ((chunks : List (List ℕ)) (t : Session) → (exchange ack chunks x t).0 ≡ r)
      → (request command payload ack false s).0 ≡ r
  ends x r e h =
      let (chunks, k) = request_lem command payload ack false s in
      ap (λ (p : Result (List ℕ) × Session). p.0) k ∙ rw (e) (h chunks _)

  raises :
      (e : Exception)
      → (request command payload ack false s).0 ≡ err e
      → (request_ack command payload s).0 ≡ err e
  unfolding request_ack
  raises e h = rw (h, request_ack) refl

  -- A write returns if an acknowledgement comes first. It raises NotAcknowledged if a refusal does,
  -- CommandTimeout if nothing comes or a write of the frame times out, and passes a lost link on as the
  -- cancellation that it is.
  pub request_ack_lem :
      (bytes : List ℕ) (rest : List Event) (more : List Exchange) (n : ℕ)
      → (s.script ≡ record { failure = none; events = frame cmd_ack bytes ∷ rest } ∷ more
          → (request_ack command payload s).0 ≡ ok tt)
        × (s.script ≡ record { failure = none; events = frame cmd_nack bytes ∷ rest } ∷ more
            → (request_ack command payload s).0 ≡ err not_acknowledged)
        × (s.script ≡ [] → (request_ack command payload s).0 ≡ err command_timeout)
        × (s.script ≡ record { failure = some (n, timeout_error); events = rest } ∷ more
            → (request_ack command payload s).0 ≡ err command_timeout)
        × (s.script ≡ record { failure = none; events = link_lost ∷ rest } ∷ more
            → (request_ack command payload s).0 ≡ err cancelled_error)
  unfolding request_ack
  request_ack_lem bytes rest more n = (
    λ h.
        rw (answered cmd_ack h (unfold resolves bytes_eq in refl), request_ack)
          (unfold resolves bytes_eq in refl),
    λ h.
        rw (answered cmd_nack h (unfold resolves bytes_eq in refl), request_ack)
          (unfold resolves bytes_eq in refl),
    λ h. raises command_timeout (
        ends silence (err command_timeout) (ground arith)
          (λ chunks t. unfold exchange wait_for in refl)),
    λ h.
        raises command_timeout
          (ends _ (err command_timeout) (first h) (λ chunks t. unfold exchange in refl)),
    λ h.
        raises cancelled_error
          (ends _ (err cancelled_error) (first h) (λ chunks t. unfold exchange wait_for in refl)),
  )
    where
      answered :
          (answer : Command)
          → s.script ≡ record { failure = none; events = frame answer bytes ∷ rest } ∷ more
          → (resolves answer bytes).0 ≡ ack
          → (request command payload ack false s).0 ≡ ok (resolves answer bytes).1
      answered answer h k = request_answered command payload ack false s answer bytes rest more h k

      first : {x : Exchange} → s.script ≡ x ∷ more → (next_exchange s).0 ≡ x
      first h = ground arith
