-- ===== src/Client/Bond/Shutdown.antt =====
-- What clearing a bond and closing leave behind.
use hass_melitta_barista_ts.Prelude.{ℕ, ◌≡◌, refl, true, none, some}
use hass_melitta_barista_ts.Machine.Session.{M}
use hass_melitta_barista_ts.Client.Adapters.{Device, pick_device}
use hass_melitta_barista_ts.Client.State.{Failure, Client, disconnected}
use hass_melitta_barista_ts.Client.Connect.{World, Outcome, done, failed, async_run, shut}
use hass_melitta_barista_ts.Client.Connect.Outcomes.{IsDown, disconnected-IsDown}
use hass_melitta_barista_ts.Client.Bond.{
  Clearing, forget_bond, async_clear_bond, after_clearing, async_close,
}

-- What a clearing does with the adapter, when one hears the machine.
pub record Cleared (o : Outcome (Unit {0})) (c c' : Client) : Type 0 where
  pub down : IsDown c'
  pub forgotten : o ≡ done tt → c'.last_good_source ≡ none
  pub kept : (f : Failure) → o ≡ failed f → c'.last_good_source ≡ c.last_good_source

after_clearing-Cleared :
    (o : Outcome (Unit {0})) (n : ℕ) (c : Client)
    → let (r, c') = after_clearing o (disconnected (record c { candidates = n })) in Cleared r c c'
unfolding disconnected
after_clearing-Cleared (done u) n c = record {
  down = record { no_link = refl; no_key = refl };
  forgotten = λ e. refl;
  kept = λ f e. absurd (cc);
}
after_clearing-Cleared (failed g) n c = record {
  down = disconnected-IsDown (record c { candidates = n });
  forgotten = λ e. absurd (cc);
  kept = λ f e. refl;
}

-- With an adapter that hears the machine, clearing the bond takes the link down, and on success the
-- adapter of the last session is forgotten with it; a failure of the stack that is not absorbed keeps
-- it. With none, the call fails and the link stays as it was.
pub async_clear_bond_lem :
    (world : World) (x : Clearing) (c : Client)
    → let (o, c') = async_clear_bond world x c in
      ((d : Device)
        → (pick_device c.provided c.last_good_source c.rotation).0 ≡ some d
        → Cleared o c c')
      × ((pick_device c.provided c.last_good_source c.rotation).0 ≡ none
          → ((f : Failure) × (o ≡ failed f)) × (c'.link ≡ c.link) × (c'.session ≡ c.session))
unfolding async_clear_bond
async_clear_bond_lem world x c = (
  λ d h.
      rw (h, async_clear_bond)
        (after_clearing-Cleared (forget_bond x)
          (pick_device c.provided c.last_good_source c.rotation).1 c),
  λ h. rw (h, async_clear_bond) ((_, refl), refl, refl),
)

-- A closed client runs nothing more: whatever the action, it is refused, and the client stays as
-- closing left it, with the link down and no session key.
pub async_run-async_close :
    {A : Type 0} (world : World) (action : M A) (c : Client)
    → (async_run world action (async_close c) ≡ shut world (async_close c)) × IsDown (async_close c)
unfolding async_run async_close disconnected
async_run-async_close world action c = (refl, disconnected-IsDown (record c { closing = true }))
