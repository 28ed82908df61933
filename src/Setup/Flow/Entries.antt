-- ===== src/Setup/Flow/Entries.antt =====
-- config_flow.py with Home Assistant around it: the entries, the flows that run side by side, and what
-- becomes of the result of a step.
use hass_melitta_barista_ts.Prelude.{
  ℕ, Bool, true, ◌==◌, ◌≡◌, if◌then◌else◌, List, [], ◌∷◌, ◌++◌, Option, none, some,
}
use hass_melitta_barista_ts.Client.Text.{Text}
use hass_melitta_barista_ts.Setup.Flow.{
  Info, FlowResult, Flow, new_flow, async_step_confirm, async_step_bluetooth, async_step_user,
  async_submit_user,
}

-- Where a flow stands: which step the form that it shows goes to.
pub data Stage : Type 0 where
  confirming choosing over : Stage

-- An entry has the unique id of the flow that made it, and the address in its data.
pub record Entry : Type 0 where
  pub unique_id : Option Text
  pub address : Text

pub record System : Type 0 where
  pub entries : List Entry
  pub flows : ℕ → Stage × Flow

abbrev pub ids : List Entry → List Text
ids [] = []
ids (e ∷ rest) = elim e.unique_id [ none ↦ ids rest | some id ↦ id ∷ ids rest ]

abbrev pub configured : System → List Text
configured s = ids s.entries

abbrev pub at : (ℕ → Stage × Flow) → ℕ → Stage × Flow → ℕ → Stage × Flow
at flows i x j = if i == j then x else flows j

-- Home Assistant on the result of a step: an entry ends the flow and is kept under the flow's unique
-- id, a form waits for its input, and everything else ends the flow.
abbrev pub settle : System → ℕ → FlowResult × Flow → System
settle s i (FlowResult.entry title address, flow) = record s {
  entries = record { unique_id = flow.unique_id; address = address } ∷ s.entries;
  flows = at s.flows i (Stage.over, flow);
}
settle s i (FlowResult.confirm_form title address, flow) = record s {
  flows = at s.flows i (Stage.confirming, flow);
}
settle s i (FlowResult.user_form choices, flow) = record s {
  flows = at s.flows i (Stage.choosing, flow);
}
settle s i (FlowResult.already_in_progress, flow) = record s {
  flows = at s.flows i (Stage.over, flow);
}
settle s i (FlowResult.already_configured, flow) = record s {
  flows = at s.flows i (Stage.over, flow);
}
settle s i (FlowResult.not_supported, flow) = record s { flows = at s.flows i (Stage.over, flow) }
settle s i (FlowResult.no_devices_found, flow) = record s {
  flows = at s.flows i (Stage.over, flow);
}
settle s i (FlowResult.raised e, flow) = record s { flows = at s.flows i (Stage.over, flow) }
settle s i (FlowResult.failed_assertion, flow) = record s {
  flows = at s.flows i (Stage.over, flow);
}

-- A flow starts with a discovery or with the user, an open form is submitted, or an entry is removed.
pub data Step (s : System) : System → Type 0 where
  discovers :
      (i : ℕ) (in_progress : Bool) (info : Info)
      → Step s (settle s i (async_step_bluetooth (configured s) in_progress info new_flow))
  user_starts :
      (i : ℕ) (infos : List Info)
      → Step s (settle s i (async_step_user (configured s) infos new_flow))
  confirms :
      (i : ℕ)
      → (s.flows i).0 ≡ Stage.confirming
      → Step s (settle s i (async_step_confirm (configured s) true (s.flows i).1))
  chooses :
      (i : ℕ) (address : Text)
      → (s.flows i).0 ≡ Stage.choosing
      → Step s (settle s i (async_submit_user (configured s) address (s.flows i).1))
  removes :
      (before : List Entry) (e : Entry) (rest : List Entry)
      → s.entries ≡ before ++ e ∷ rest
      → Step s (record s { entries = before ++ rest })

pub data Reach (s : System) : System → Type 0 where
  here : Reach s s
  next : {t u : System} → Reach s t → Step t u → Reach s u
