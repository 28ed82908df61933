-- ===== src/Setup/Flow/Unique.antt =====
-- No machine gets two entries, whatever flows run side by side.
use hass_melitta_barista_ts.Prelude.{
  ℕ, Bool, ◌≡◌, inl, inr, refl, sym, ap, ◌∙◌, true, false, Bool-cases, ◌==◌, bytes_eq,
  bytes_eq_refl, List, [], ◌∷◌, ◌++◌, Option, none, some,
}
use mathlib.Core.Path.{subst}
use hass_melitta_barista_ts.Prelude.In.{In}
use hass_melitta_barista_ts.Client.Text.{Text}
use hass_melitta_barista_ts.Services.Targets.{is_among}
use hass_melitta_barista_ts.Setup.Flow.Entries.{
  Stage, Entry, System, ids, configured, at, settle, Step, Reach,
}
use hass_melitta_barista_ts.Setup.Flow.{
  Info, FlowResult, Flow, new_flow, async_step_confirm, async_step_bluetooth, async_step_user,
  async_submit_user, is_supported, picked, offered, at_address,
}

abbrev pub addresses : List Entry → List Text
addresses [] = []
addresses (e ∷ rest) = e.address ∷ addresses rest

-- Every entry has its machine's address as its unique id, and no two have the same.
abbrev pub AreUnique : List Entry → Type 0
AreUnique [] = Unit
AreUnique (e ∷ rest) =
    (e.unique_id ≡ some e.address) × (¬ In e.address (addresses rest)) × AreUnique rest

-- A flow that waits for a confirmation has the discovered machine's address as its unique id.
abbrev Waits : Stage × Flow → Type 0
Waits (Stage.confirming, flow) =
    (info : Info) × (flow.discovery ≡ some info) × (flow.unique_id ≡ some info.address)
Waits (Stage.choosing, flow) = Unit
Waits (Stage.over, flow) = Unit

pub record IsSound (s : System) : Type 0 where
  pub unique : AreUnique s.entries
  pub waits : (i : ℕ) → Waits (s.flows i)

-- What a step of a flow may come to.
abbrev Permitted : System → FlowResult × Flow → Type 0
Permitted s (FlowResult.entry title address, flow) =
    (flow.unique_id ≡ some address) × (is_among address (configured s) ≡ false)
Permitted s (FlowResult.confirm_form title address, flow) = Waits (Stage.confirming, flow)
Permitted s (FlowResult.user_form choices, flow) = Unit
Permitted s (FlowResult.already_in_progress, flow) = Unit
Permitted s (FlowResult.already_configured, flow) = Unit
Permitted s (FlowResult.not_supported, flow) = Unit
Permitted s (FlowResult.no_devices_found, flow) = Unit
Permitted s (FlowResult.raised e, flow) = Unit
Permitted s (FlowResult.failed_assertion, flow) = Unit

ids_lem : (es : List Entry) → AreUnique es → ids es ≡ addresses es
ids_lem [] h = refl
ids_lem (e ∷ rest) h = rw h.0 (ap (λ (l : List Text). e.address ∷ l) (ids_lem rest h.2))

In-is_among : (a : Text) (xs : List Text) → In a xs → is_among a xs ≡ true
In-is_among a [] h = absurd h
In-is_among a (x ∷ xs) (inl e) = rw (e, bytes_eq_refl a) refl
In-is_among a (x ∷ xs) (inr h) = elim (Bool-cases (bytes_eq x a)) [
  | inl e ↦ rw e refl
  | inr e ↦ rw e (In-is_among a xs h)
]

In-addresses_dropped :
    (a : Text) (before : List Entry) (e : Entry) (rest : List Entry)
    → In a (addresses (before ++ rest))
    → In a (addresses (before ++ e ∷ rest))
In-addresses_dropped a [] e rest h = inr h
In-addresses_dropped a (b ∷ before) e rest (inl p) = inl p
In-addresses_dropped a (b ∷ before) e rest (inr h) = inr (In-addresses_dropped a before e rest h)

AreUnique-dropped :
    (before : List Entry) (e : Entry) (rest : List Entry)
    → AreUnique (before ++ e ∷ rest)
    → AreUnique (before ++ rest)
AreUnique-dropped [] e rest h = h.2
AreUnique-dropped (b ∷ before) e rest h = (
  h.0,
  λ m. h.1 (In-addresses_dropped b.address before e rest m),
  AreUnique-dropped before e rest h.2,
)

at-Waits :
    (flows : ℕ → Stage × Flow) (i : ℕ) (x : Stage × Flow)
    → ((j : ℕ) → Waits (flows j))
    → Waits x
    → (j : ℕ) → Waits (at flows i x j)
at-Waits flows i x w h j = elim (Bool-cases (i == j)) [ inl e ↦ rw e h | inr e ↦ rw e (w j) ]

at-IsSound :
    (s : System) (i : ℕ) (x : Stage × Flow)
    → IsSound s
    → Waits x
    → IsSound (record s { flows = at s.flows i x })
at-IsSound s i x h w = record { unique = h.unique; waits = at-Waits s.flows i x h.waits w }

settle-IsSound :
    (s : System) (i : ℕ) (r : FlowResult) (flow : Flow)
    → IsSound s
    → Permitted s (r, flow)
    → IsSound (settle s i (r, flow))
settle-IsSound s i (FlowResult.entry title address) flow h p = record {
  unique = (
    p.0,
    λ m.
        let no : true ≡ false =
          sym (In-is_among address (configured s) (rw (ids_lem s.entries h.unique) m)) ∙ p.1 in
        cc,
    h.unique,
  );
  waits = at-Waits s.flows i (Stage.over, flow) h.waits tt;
}
settle-IsSound s i (FlowResult.confirm_form title address) flow h p =
    at-IsSound s i (Stage.confirming, flow) h p
settle-IsSound s i (FlowResult.user_form choices) flow h p =
    at-IsSound s i (Stage.choosing, flow) h tt
settle-IsSound s i FlowResult.already_in_progress flow h p = at-IsSound s i (Stage.over, flow) h tt
settle-IsSound s i FlowResult.already_configured flow h p = at-IsSound s i (Stage.over, flow) h tt
settle-IsSound s i FlowResult.not_supported flow h p = at-IsSound s i (Stage.over, flow) h tt
settle-IsSound s i FlowResult.no_devices_found flow h p = at-IsSound s i (Stage.over, flow) h tt
settle-IsSound s i (FlowResult.raised e) flow h p = at-IsSound s i (Stage.over, flow) h tt
settle-IsSound s i FlowResult.failed_assertion flow h p = at-IsSound s i (Stage.over, flow) h tt

confirm-Permitted :
    (s : System) (flow : Flow)
    → Waits (Stage.confirming, flow)
    → Permitted s (async_step_confirm (configured s) true flow)
unfolding async_step_confirm
confirm-Permitted s flow (info, d, u) = elim (Bool-cases (is_among info.address (configured s))) [
  | inl e ↦ rw (d, u, e) tt
  | inr e ↦ rw (d, u, e) (refl, e)
]

bluetooth-Permitted :
    (s : System) (in_progress : Bool) (info : Info)
    → Permitted s (async_step_bluetooth (configured s) in_progress info new_flow)
unfolding async_step_bluetooth async_step_confirm
bluetooth-Permitted s true info = tt
bluetooth-Permitted s false info = elim (Bool-cases (is_among info.address (configured s))) [
  | inl e ↦ rw e tt
  | inr e ↦ elim (Bool-cases (is_supported info)) [
    | inl k ↦ rw (e, k) (info, refl, refl)
    | inr k ↦ rw (e, k) tt
  ]
]

offered-Permitted :
    (s : System) (found : List Info) (flow : Flow) → Permitted s (offered found, flow)
offered-Permitted s [] flow = tt
offered-Permitted s (i ∷ rest) flow = tt

picked-Permitted :
    (s : System) (address : Text) (found : Option Info) (flow : Flow)
    → flow.unique_id ≡ some address
    → is_among address (configured s) ≡ false
    → Permitted s (picked address found, flow)
picked-Permitted s address none flow u e = tt
picked-Permitted s address (some info) flow u e = (u, e)

submit-Permitted :
    (s : System) (address : Text) (flow : Flow)
    → Permitted s (async_submit_user (configured s) address flow)
unfolding async_submit_user
submit-Permitted s address flow = elim (Bool-cases (is_among address (configured s))) [
  | inl e ↦ rw e tt
  | inr e ↦ rw e (picked-Permitted s address (at_address address flow.discovered) _ refl e)
]

Step-IsSound : {s t : System} → Step s t → IsSound s → IsSound t
unfolding async_step_user
Step-IsSound {s} (Step.discovers i in_progress info) h =
    settle-IsSound s i _ _ h (bluetooth-Permitted s in_progress info)
Step-IsSound {s} (Step.user_starts i infos) h = settle-IsSound s i _ _ h (offered-Permitted s _ _)
Step-IsSound {s} (Step.confirms i stage) h =
    settle-IsSound s i _ _ h
      (confirm-Permitted s (s.flows i).1 (subst (λ g. Waits (g, (s.flows i).1)) stage (h.waits i)))
Step-IsSound {s} (Step.chooses i address stage) h =
    settle-IsSound s i _ _ h (submit-Permitted s address (s.flows i).1)
Step-IsSound {s} (Step.removes before e rest same) h = record {
  unique = AreUnique-dropped before e rest (rw same at h.unique);
  waits = h.waits;
}

-- However many flows run side by side, started by discoveries or by the user, and whatever entries are
-- removed in between: every entry has its machine's address as its unique id, and no machine has two.
pub Reach-IsSound : {s t : System} → IsSound s → Reach s t → IsSound t
Reach-IsSound h Reach.here = h
Reach-IsSound h (Reach.next r step) = Step-IsSound step (Reach-IsSound h r)
