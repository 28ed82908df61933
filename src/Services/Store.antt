-- ===== src/Services/Store.antt =====
-- services.py: what a service does to the machines of the target, one after the other.
use hass_melitta_barista_ts.Prelude.{ℕ, ◌==◌, if◌then◌else◌, List, [], ◌∷◌}
use hass_melitta_barista_ts.Errors.{service_validation_error, Result, ok, err}
use hass_melitta_barista_ts.Client.Text.{Text}
use hass_melitta_barista_ts.Coordinator.Reported.{reported}
use hass_melitta_barista_ts.Client.State.{Failure}
use hass_melitta_barista_ts.Client.Connect.{Outcome, done, failed}
use hass_melitta_barista_ts.Coordinator.State.{Coordinator, C}

-- The coordinators, by the identity that entries carry.
abbrev pub Store : Type 0
Store = ℕ → Coordinator

abbrev pub update : Store → ℕ → Coordinator → Store
update store c s d = if c == d then s else store d

-- Actions of a service.
abbrev pub S : Type 0 → Type 0
S A = Store → Outcome A × Store

abbrev pub pure : {A : Type 0} → A → S A
pure a store = (done a, store)

abbrev pub raise : {A : Type 0} → Failure → S A
raise f store = (failed f, store)

abbrev continue : {A B : Type 0} → Outcome A → (A → S B) → Store → Outcome B × Store
continue (done a) next store = next a store
continue (failed f) next store = (failed f, store)

infixl 5 ◌>>=◌ ◌>>◌
abbrev pub ◌>>=◌ : {A B : Type 0} → S A → (A → S B) → S B
◌>>=◌ action next store = let (r, store') = action store in continue r next store'

abbrev pub ◌>>◌ : {A B : Type 0} → S A → S B → S B
first >> second = first >>= λ _. second

abbrev pub on : {A : Type 0} → ℕ → C A → S A
on c action store = let (r, s) = action (store c) in (r, update store c s)

-- A ServiceValidationError; of its text nothing is kept.
abbrev pub invalid : Failure
invalid = record { exception = service_validation_error; message = [] }

abbrev pub resolved : {A : Type 0} → Result A → S A
resolved (ok a) = pure a
resolved (err e) = raise (record { exception = e; message = [] })

-- `for coordinator in _coordinators(...)`, with its `try`.
unfoldable pub for_each : Text → (ℕ → C (Unit {0})) → List ℕ → S (Unit {0})
for_each prefix action [] = pure tt
for_each prefix action (c ∷ cs) = on c (reported prefix (action c)) >> for_each prefix action cs
