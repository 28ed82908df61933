-- ===== src/Services/Frames.antt =====
-- The services of services.py keep to the machines of their target.
use hass_melitta_barista_ts.Prelude.{ℕ}
use hass_melitta_barista_ts.Prelude.In.{In}
use Prim.Native.String.{String}
use hass_melitta_barista_ts.Errors
use hass_melitta_barista_ts.Client.Text.{Text}
use hass_melitta_barista_ts.Client.Connect.{World}
use hass_melitta_barista_ts.Services.Targets.{Hass, Target}
use hass_melitta_barista_ts.Services.Targets.Entries.{WalksSets}
use hass_melitta_barista_ts.Services.Targets.Resolved.{Reaches}
use hass_melitta_barista_ts.Services.Contained.{Contained}

module _ (hass : Hass) (walks : WalksSets hass) (worlds : ℕ → World) (target : Target) where
  abbrev Targeted : ℕ → Type 0
  Targeted = Reaches hass target
