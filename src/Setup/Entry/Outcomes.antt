-- ===== src/Setup/Entry/Outcomes.antt =====
-- What the set-up of an entry leaves behind, whichever way it ends.
use hass_melitta_barista_ts.Prelude.{
  ◌≡◌, ◌⊎◌, inl, inr, refl, true, false, Bool, if◌then◌else◌, List, [], ◌∷◌, some, Bool-cases,
}
use hass_melitta_barista_ts.Prelude.In.{In}
use hass_melitta_barista_ts.Errors.{Exception, cancelled_error, config_entry_not_ready}
use hass_melitta_barista_ts.Client.Text.{Text}
use hass_melitta_barista_ts.Client.Adapters.{Device}
use hass_melitta_barista_ts.Client.State.{Failure, Client, disconnected}
use hass_melitta_barista_ts.Client.Connect.{World, Outcome, done, failed}
use hass_melitta_barista_ts.Client.Connect.Outcomes.{IsDown, disconnected-IsDown, Outcome-cases}
use hass_melitta_barista_ts.Client.Bond.{async_close}
use hass_melitta_barista_ts.Coordinator.State.{C, Coordinator}
use hass_melitta_barista_ts.Coordinator.Lifecycle.{async_shutdown}
use hass_melitta_barista_ts.Coordinator.Polling.{Clock, async_update_data}
use hass_melitta_barista_ts.Coordinator.Polling.Freshness.{async_update_data_lem}
use hass_melitta_barista_ts.Setup.Provider.{device_provider, heard_devices, usable, or_start_over}
use hass_melitta_barista_ts.Setup.Provider.Choices.{Provides, device_provider-Provides}
use hass_melitta_barista_ts.Setup.Entry.{
  Heard, Ahead, SetUp, new_client, new_coordinator, after_refresh, refreshed, if_in_range,
  async_setup_entry, async_unload_entry,
}

-- What `async_config_entry_first_refresh` makes of what an update raises: it is logged and comes out as
-- ConfigEntryNotReady, but a cancellation passes through.
abbrev pub is_cancelled : Exception → Bool
is_cancelled Exception.cancelled_error = true
is_cancelled _ = false

abbrev pub raised : Exception → Exception
raised e = if is_cancelled e then cancelled_error else config_entry_not_ready

-- What Home Assistant documents of the first refresh.
pub record Refreshes (first_refresh : C (Unit {0}) → C (Unit {0})) : Type 0 where
  pub succeeds :
      (update : C (Unit {0})) (s : Coordinator)
      → (update s).0 ≡ done tt
      → first_refresh update s ≡ (done tt, record (update s).1 { last_update_success = true })
  pub fails :
      (update : C (Unit {0})) (s : Coordinator) (f : Failure)
      → (update s).0 ≡ failed f
      → (g : Failure) × ((first_refresh update s).0 ≡ failed g)
        × (g.exception ≡ raised f.exception)
        × ((first_refresh update s).1.client ≡ (update s).1.client)

-- A client that is closed, with its link down and no session key.
pub record IsClosed (c : Client) : Type 0 where
  pub closing : c.closing ≡ true
  pub down : IsDown c

async_close-IsClosed : (c : Client) → IsClosed (async_close c)
unfolding async_close disconnected
async_close-IsClosed c = record {
  closing = refl;
  down = disconnected-IsDown (record c { closing = true });
}

unload-IsClosed : (s : Coordinator) → IsClosed (async_unload_entry true s).1.client
unfolding async_unload_entry async_shutdown
unload-IsClosed s = async_close-IsClosed s.client

-- What is true of an entry when its set-up ends.
abbrev pub Ended : Clock → SetUp → Type 0
Ended clock (SetUp.loaded s) =
    (s.last_success_at ≡ some clock.at_success)
    × (s.first_refresh_done ≡ true)
    × (s.last_update_success ≡ true)
    × IsClosed (async_unload_entry true s).1.client
Ended clock (SetUp.not_found f) = f.exception ≡ config_entry_not_ready
Ended clock (SetUp.abandoned f s) =
    (f.exception ≡ cancelled_error) ⊎ ((f.exception ≡ config_entry_not_ready) × IsClosed s.client)

abandoned-Ended :
    (clock : Clock) (e : Exception) (g : Failure) (s : Coordinator)
    → g.exception ≡ raised e
    → Ended clock (after_refresh (failed g) s)
abandoned-Ended clock e g s h = elim (Bool-cases (is_cancelled e)) [
  | inl k ↦ inl (rw k at h)
  | inr k ↦
      let same : g.exception ≡ config_entry_not_ready = rw k at h in
      rw same (inr (refl, async_close-IsClosed s.client))
]

after_refresh_made :
    (o : Outcome (Unit {0})) (s : Coordinator) (f : Failure)
    → ¬ after_refresh o s ≡ SetUp.not_found f
after_refresh_made (done u) s f e = absurd (cc)
after_refresh_made (failed g) s f e = absurd (cc)

none_given :
    (us devices : List Device) (refused : List Text)
    → (or_start_over us devices refused).0 ≡ []
    → (or_start_over us devices refused).1 ≡ refused
none_given [] [] refused e = refl
none_given [] (x ∷ xs) refused e = absurd (cc)
none_given (u ∷ us) devices refused e = refl

module _ (first_refresh : C (Unit {0}) → C (Unit {0})) (world : World) (clock : Clock) where
  abbrev update : C (Unit {0})
  update = async_update_data world clock

  refreshed-Ended :
      (heard : Heard) (ahead : Ahead) (refused : List Text)
      → Refreshes first_refresh
      → Ended clock (refreshed first_refresh world clock heard ahead refused).0
  refreshed-Ended heard ahead refused h =
      let p = device_provider heard.scanned heard.single refused in
      let c = new_coordinator (new_client p.0 ahead) in
      elim (Outcome-cases (update c).0) [
        | inl (u, e) ↦
            let noted = (async_update_data_lem world clock c).0 e in
            rw (h.succeeds update c e) (noted.0, noted.1, refl, unload-IsClosed _)
        | inr (f, e) ↦
            let (g, q, k, same) = h.fails update c f e in
            rw q (abandoned-Ended clock f.exception g (first_refresh update c).1 k)
      ]

  -- The coordinator of an entry whose refusals are known, before its first refresh.
  abbrev pub fresh : Heard → Ahead → List Text → Coordinator
  fresh heard ahead refused =
      new_coordinator (new_client (device_provider heard.scanned heard.single refused).0 ahead)

  refreshed-loaded :
      (heard : Heard) (ahead : Ahead) (refused : List Text)
      → Refreshes first_refresh
      → (update (fresh heard ahead refused)).0 ≡ done tt
      → (s : Coordinator) × ((refreshed first_refresh world clock heard ahead refused).0
          ≡ SetUp.loaded s)
  refreshed-loaded heard ahead refused h e =
      rw (h.succeeds update (fresh heard ahead refused) e) (_, refl)

  -- What the set-up comes to with what the provider gave at first, for the devices heard then.
  abbrev pub Decided :
      List Device → List Text → List Device × List Text → SetUp × List Text → Heard → Ahead → Type 0
  Decided devices refused p r during ahead =
      Ended clock r.0
      × ((f : Failure) → r.0 ≡ SetUp.not_found f → (devices ≡ []) × (r.1 ≡ refused))
      × ((e : Device)
          → In e devices
          → (update (fresh during ahead p.1)).0 ≡ done tt
          → (s : Coordinator) × (r.0 ≡ SetUp.loaded s))

  found-Decided :
      (address : Text) (devices : List Device) (refused : List Text) (p : List Device × List Text)
      (during : Heard) (ahead : Ahead)
      → Refreshes first_refresh
      → Provides devices p.0 refused p.1
      → (p.0 ≡ [] → p.1 ≡ refused)
      → Decided devices refused p
          (if_in_range first_refresh world clock address p during ahead)
          during
          ahead
  found-Decided address [] refused ([], after) during ahead h p k =
      (refl, λ f e. (refl, k refl), λ e m. absurd m)
  found-Decided address (x ∷ xs) refused ([], after) during ahead h p k =
      absurd (p.any x (inl refl)).1
  found-Decided address devices refused (d ∷ ds, after) during ahead h p k = (
    refreshed-Ended during ahead after h,
    λ f e. absurd (after_refresh_made _ _ f e),
    λ e m. refreshed-loaded during ahead after h,
  )

  -- However the set-up of an entry ends: a coordinator that is handed over has been refreshed, at the
  -- time of that refresh, and unloading it closes its client with the link down; a set-up that fails
  -- raises ConfigEntryNotReady and leaves no client, or one that is closed with the link down, unless
  -- it was cancelled. The machine counts as not found only when no adapter hears it, and then no
  -- refusal is forgotten. When one hears it and the first update of the new coordinator comes through,
  -- the entry is loaded.
  pub async_setup_entry_lem :
      (address : Text) (before during : Heard) (ahead : Ahead) (refused : List Text)
      → Refreshes first_refresh
      → Decided
          (heard_devices before.scanned before.single)
          refused
          (device_provider before.scanned before.single refused)
          (async_setup_entry first_refresh world clock address before during ahead refused)
          during
          ahead
  unfolding async_setup_entry
  async_setup_entry_lem address before during ahead refused h =
      found-Decided address (heard_devices before.scanned before.single) refused
        (device_provider before.scanned before.single refused) during ahead h
        (device_provider-Provides before.scanned before.single refused)
        (unfold device_provider in
          none_given (usable refused (heard_devices before.scanned before.single)) _ refused)
