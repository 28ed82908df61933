-- ===== src/Coordinator/Commands/Guards.antt =====
-- When the commands reach the machine, and what they leave behind.
use hass_melitta_barista_ts.Prelude.{
  ℕ, suc, ◌≡◌, inl, inr, refl, ap, ◌∙◌, true, false, not, [], ◌∷◌, Option, none, some, arith,
}
use hass_melitta_barista_ts.Prelude.Int.{pos}
use hass_melitta_barista_ts.Prelude.Dict.{Dict, lookup}
use hass_melitta_barista_ts.Const.DirectKeys.{DirectKeyCategory}
use hass_melitta_barista_ts.Const.Status.{MachineProcess, machine_process_enum}
use hass_melitta_barista_ts.Protocol.Status.{MachineStatus, is_busy}
use hass_melitta_barista_ts.Const.Enum.{int}
use hass_melitta_barista_ts.Machine.Brew.{brew}
use hass_melitta_barista_ts.Machine.Writes.{start_process}
use hass_melitta_barista_ts.Client.Connect.Outcomes.{Outcome-cases}
use hass_melitta_barista_ts.Client.Text.{Text, text}
use hass_melitta_barista_ts.Client.State.{Failure}
use hass_melitta_barista_ts.Client.Connect.{World, done, failed}
use hass_melitta_barista_ts.Coordinator.State.{Coordinator, C, run, ◌>>◌, request_refresh}
use hass_melitta_barista_ts.Coordinator.Commands.{
  BrewRequest, given_or, filled, is_missing, is_known, machine_failure, async_brew_slot,
  async_brew_profile, async_press_direct_key, async_start_care,
}

is_known-lookup :
    (profile : ℕ) (names : Dict Text) → lookup profile names ≡ none → is_known profile names ≡ false
is_known-lookup profile [] h = refl
is_known-lookup profile ((p, name) ∷ rest) h = ground (arith, is_known-lookup profile rest)

is_missing-lookup :
    (profile : ℕ) (e : ℕ × Text) (rest : Dict Text)
    → lookup profile (e ∷ rest) ≡ none
    → is_missing profile (e ∷ rest) ≡ true
unfolding is_missing
is_missing-lookup profile e rest h = ap not (is_known-lookup profile (e ∷ rest) h)

module _ (world : World) where
  -- Once profile names were read, a profile that is not among them reaches neither command of the
  -- profiles: both raise at once, and the client, the settings and the counters are as before.
  pub unknown_profile_refused :
      (profile : ℕ) (category : DirectKeyCategory) (r : BrewRequest) (s : Coordinator)
      (e : ℕ × Text) (rest : Dict Text)
      → s.content.profile_names ≡ e ∷ rest
      → lookup profile (e ∷ rest) ≡ none
      → (async_brew_profile world (some profile) (some category) r s
          ≡ (failed (machine_failure (text "this machine has no profile")), s))
        × (s.selected_profile ≡ profile
            → async_press_direct_key world category s
              ≡ (failed (machine_failure (text "this machine has no profile")), s))
  unfolding async_brew_profile async_press_direct_key
  unknown_profile_refused profile category r s e rest hn h =
      let missing : is_missing profile s.content.profile_names ≡ true =
        ap (is_missing profile) hn ∙ is_missing-lookup profile e rest h in
      (rw (missing) refl, λ same. rw (same, missing) refl)

  -- A brew that comes through makes the counters due and asks for a refresh; one that fails does
  -- neither.
  pub async_brew_slot_lem :
      (recipe_id : ℕ) (name : Option Text) (r : BrewRequest) (s : Coordinator)
      → let (o, s') = async_brew_slot world recipe_id name r s in
        (o ≡ done tt → (s'.counters_due ≡ true) × (s'.refreshes ≡ suc s.refreshes))
        × ((f : Failure)
            → o ≡ failed f
            → (s'.counters_due ≡ s.counters_due) × (s'.refreshes ≡ s.refreshes))
  unfolding async_brew_slot
  async_brew_slot_lem recipe_id name r s = elim (Outcome-cases (brewed s).0) [
    | inl (u, h) ↦ rw (h, async_brew_slot) (λ e. (refl, refl), λ f e. absurd (cc))
    | inr (g, h) ↦ rw (h, async_brew_slot) (λ e. absurd (cc), λ f e. (refl, refl))
  ]
    where
      brewed : C (Unit {0})
      brewed = run world (
          brew recipe_id name (given_or r.two_cups s.brew_settings.two_cups)
            (filled r s.brew_settings))

  -- A care programme is refused, with nothing changed, while the last status decodes as busy.
  -- While it decodes as ready, the command is the start of that process followed by a request of a
  -- refresh.
  pub async_start_care_lem :
      (process : MachineProcess) (s : Coordinator) (status : MachineStatus)
      → s.content.status ≡ some status
      → (is_busy status ≡ true
          → async_start_care world process s
            ≡ (failed (machine_failure (text "the machine is busy")), s))
        × (is_busy status ≡ false
            → async_start_care world process s
              ≡ (run world (start_process (pos (int ⦃e = machine_process_enum⦄ process)) false)
                    >> request_refresh)
                  s)
  unfolding async_start_care is_busy
  async_start_care_lem process s status h = (λ b. rw (h, b) refl, λ b. rw (h, b) refl)
