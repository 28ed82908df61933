-- ===== src/Client/Connect/Running.antt =====
-- What an action of the machine runs on, and what is left of the link when its transport fails.
use hass_melitta_barista_ts.Prelude.{◌≡◌, true}
use hass_melitta_barista_ts.Machine.Session.{M}
use hass_melitta_barista_ts.Client.State.{Client, connected}
use hass_melitta_barista_ts.Client.Connect.{World, Outcome, run_action}

-- That an action ran on a client with its link up and a session key.
pub record Ran {A : Type 0} (world : World) (action : M A) (result : Outcome A × Client)
    : Type 0 where
  pub on : Client
  pub is_up : connected on ≡ true
  pub ran : run_action world action on ≡ result
