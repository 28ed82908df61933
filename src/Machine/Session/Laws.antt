-- ===== src/Machine/Session/Laws.antt =====
-- What a request does to the session, whatever the script holds.
use hass_melitta_barista_ts.Prelude.{
  ℕ, Bool, true, false, ◌≡◌, refl, ◌∙◌, ap, ◌⊎◌, inl, inr, List, [], ◌∷◌, ◌++◌, none, some, arith,
  Option-cases, bytes_eq_refl,
}
use hass_melitta_barista_ts.Errors.{Exception, Result, ok, err}
use hass_melitta_barista_ts.Const.Framing.{Command, ble_mtu}
use hass_melitta_barista_ts.Protocol.Frame.{build_frame, chunk_for_ble}
use hass_melitta_barista_ts.Machine.Session.{
  Session, Exchange, Event, frame, link_lost, Key, ack, reply, M, ◌>>=◌, reset, notify_status,
  wait_for, exchange, request, request_ack, idle_events, sleep, resolves, next_exchange, or_none,
  key_eq,
}

pub Result-cases :
    {A : Type 0} (r : Result A) → ((a : A) × (r ≡ ok a)) ⊎ ((e : Exception) × (r ≡ err e))
Result-cases (ok a) = inl (a, refl)
Result-cases (err e) = inr (e, refl)

module _ {A B : Type 0} (m : M A) (f : A → M B) (s : Session) where
  pub bind-ok : {a : A} → (m s).0 ≡ ok a → (m >>= f) s ≡ f a (m s).1
  bind-ok h = ground arith

  pub bind-err : {e : Exception} → (m s).0 ≡ err e → (m >>= f) s ≡ (err e, (m s).1)
  bind-err h = ground arith

sent-notify_status : (c : Command) (p : List ℕ) (s : Session) → (notify_status c p s).sent ≡ s.sent
unfolding notify_status
sent-notify_status c p s = ground arith

key-notify_status :
    (c : Command) (p : List ℕ) (s : Session) → (notify_status c p s).key_prefix ≡ s.key_prefix
unfolding notify_status
key-notify_status c p s = ground arith

sent-wait_for : (key : Key) (es : List Event) (s : Session) → (wait_for key es s).1.sent ≡ s.sent
unfolding wait_for
sent-wait_for key [] s = refl
sent-wait_for key (link_lost ∷ rest) s = refl
sent-wait_for key (frame c p ∷ rest) s =
    ground (arith, sent-wait_for key rest (notify_status c p s), sent-notify_status c p s)

sent-exchange :
    (key : Key) (chunks : List (List ℕ)) (x : Exchange) (s : Session)
    → (exchange key chunks x s).1.sent ≡ s.sent
unfolding exchange
sent-exchange key chunks x s = elim (Option-cases x.failure) [
  | inl e ↦ rw (e, exchange) (sent-wait_for key x.events (record s { writes = s.writes ++ chunks }))
  | inr (f, e) ↦ rw (e, exchange) refl
]

-- A lost link is all that takes the session key away.
abbrev pub KeepsKey : Session → Session → Type 0
KeepsKey s t = (t.key_prefix ≡ s.key_prefix) ⊎ (t.key_prefix ≡ none)

wait_for-KeepsKey : (key : Key) (es : List Event) (s : Session) → KeepsKey s (wait_for key es s).1
unfolding wait_for
wait_for-KeepsKey key [] s = inl refl
wait_for-KeepsKey key (link_lost ∷ rest) s = inr refl
wait_for-KeepsKey key (frame c p ∷ rest) s =
    ground (arith, wait_for-KeepsKey key rest (notify_status c p s), key-notify_status c p s)

exchange-KeepsKey :
    (key : Key) (chunks : List (List ℕ)) (x : Exchange) (s : Session)
    → KeepsKey s (exchange key chunks x s).1
unfolding exchange
exchange-KeepsKey key chunks x s = elim (Option-cases x.failure) [
  | inl e ↦
      rw (e, exchange) (wait_for-KeepsKey key x.events (record s { writes = s.writes ++ chunks }))
  | inr (f, e) ↦ rw (e, exchange) (inl refl)
]

-- The MTU is not 0, so a frame can be cut.
chunks_of : (bytes : List ℕ) → (chunks : List (List ℕ)) × (chunk_for_ble bytes ble_mtu ≡ ok chunks)
unfolding chunk_for_ble
chunks_of bytes = (_, refl)

-- The session in which a request waits.
abbrev pub issued : Command → List ℕ → Session → Session
issued command payload s =
    let t : Session = (next_exchange s).1 in record t { sent = t.sent ++ (command, payload) ∷ [] }

pub request_lem :
    (command : Command) (payload : List ℕ) (key : Key) (handshake : Bool) (s : Session)
    → (chunks : List (List ℕ)) × (request command payload key handshake s
        ≡ exchange key chunks (next_exchange s).0 (issued command payload s))
unfolding request
request_lem command payload key handshake s =
    let (chunks, e) =
      chunks_of (build_frame command (some payload) (or_none handshake s.key_prefix) true) in
    (chunks, rw (e, request) refl)

sent-next_exchange : (s : Session) → (next_exchange s).1.sent ≡ s.sent
sent-next_exchange s = ground arith

key-next_exchange : (s : Session) → (next_exchange s).1.key_prefix ≡ s.key_prefix
key-next_exchange s = ground arith

-- Exactly one request goes out, also where it fails.
pub sent-request :
    (command : Command) (payload : List ℕ) (key : Key) (handshake : Bool) (s : Session)
    → (request command payload key handshake s).1.sent ≡ s.sent ++ (command, payload) ∷ []
sent-request command payload key handshake s =
    let (chunks, e) = request_lem command payload key handshake s in
    rw e (
      sent-exchange key chunks (next_exchange s).0 (issued command payload s)
      ∙ ap (λ (l : List (Command × List ℕ)). l ++ (command, payload) ∷ []) (sent-next_exchange s))

KeepsKey-of : (s t u : Session) → t.key_prefix ≡ s.key_prefix → KeepsKey t u → KeepsKey s u
KeepsKey-of s t u e k = ground arith

pub request-KeepsKey :
    (command : Command) (payload : List ℕ) (key : Key) (handshake : Bool) (s : Session)
    → KeepsKey s (request command payload key handshake s).1
request-KeepsKey command payload key handshake s =
    let (chunks, e) = request_lem command payload key handshake s in
    rw e (
      KeepsKey-of s (issued command payload s)
        (exchange key chunks (next_exchange s).0 (issued command payload s)).1 (key-next_exchange s)
        (exchange-KeepsKey key chunks (next_exchange s).0 (issued command payload s)))

key_eq_refl : (k : Key) → key_eq k k ≡ true
key_eq_refl ack = refl
key_eq_refl (reply c) = bytes_eq_refl c

wait_for_first :
    (key : Key) (c : Command) (p : List ℕ) (rest : List Event) (s : Session)
    → (resolves c p).0 ≡ key
    → (wait_for key (frame c p ∷ rest) s).0 ≡ ok (resolves c p).1
unfolding wait_for
wait_for_first key c p rest s e = rw (← e, key_eq_refl (resolves c p).0) refl

-- An answer that comes first is the result.
pub request_answered :
    (command : Command) (payload : List ℕ) (key : Key) (handshake : Bool) (s : Session)
    (answer : Command) (bytes : List ℕ) (rest : List Event) (more : List Exchange)
    → s.script ≡ record { failure = none; events = frame answer bytes ∷ rest } ∷ more
    → (resolves answer bytes).0 ≡ key
    → (request command payload key handshake s).0 ≡ ok (resolves answer bytes).1
unfolding exchange
request_answered command payload key handshake s answer bytes rest more h k =
    let (chunks, e) = request_lem command payload key handshake s in
    let x : (next_exchange s).0 ≡ record { failure = none; events = frame answer bytes ∷ rest } =
      ground arith in
    rw e (
      ap (λ (y : Exchange). (exchange key chunks y (issued command payload s)).0) x
      ∙ wait_for_first key answer bytes rest _ k)

pub sent-request_ack :
    (command : Command) (payload : List ℕ) (s : Session)
    → (request_ack command payload s).1.sent ≡ s.sent ++ (command, payload) ∷ []
unfolding request_ack
sent-request_ack command payload s = ground (arith, sent-request command payload ack false s)

sent-idle_events : (es : List Event) (s : Session) → (idle_events es s).sent ≡ s.sent
unfolding idle_events
sent-idle_events [] s = refl
sent-idle_events (link_lost ∷ rest) s = sent-idle_events rest (reset s)
sent-idle_events (frame c p ∷ rest) s =
    sent-idle_events rest (notify_status c p s) ∙ sent-notify_status c p s

pub sent-sleep : (s : Session) → (sleep s).1.sent ≡ s.sent
unfolding sleep
sent-sleep s =
    sent-idle_events (next_exchange s).0.events (next_exchange s).1 ∙ sent-next_exchange s
