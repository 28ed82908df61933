-- ===== src/Services/Scan.antt =====
-- services.py, `_async_scan_settings`.
pub mod Ledger
use hass_melitta_barista_ts.Prelude.{
  ℕ, zero, suc, ◌+◌, ◌-◌, Bool, true, false, ltb, if◌then◌else◌, List, [], ◌∷◌, ◌++◌, Option, none,
  some,
}
use hass_melitta_barista_ts.Prelude.Int.{ℤ, pos}
use hass_melitta_barista_ts.Prelude.Dict.{Dict, insert}
use hass_melitta_barista_ts.Errors.{is_machine_error}
use hass_melitta_barista_ts.Client.Connect.{World, Outcome, done, failed}
use hass_melitta_barista_ts.Coordinator.State.{Coordinator, C}
use hass_melitta_barista_ts.Coordinator.Commands.{async_read_setting}
use hass_melitta_barista_ts.Services.Targets.{Hass, Target, one_coordinator}
use hass_melitta_barista_ts.Services.Store.{S, raise, ◌>>=◌, on, invalid, resolved}

abbrev pub max_scan_span : ℕ
max_scan_span = 128

-- The keys of `values` are the registers; the source writes them in decimal.
pub record Scan : Type 0 where
  pub values : Dict ℤ
  pub unreadable : List ℕ

abbrev pub nothing_scanned : Scan
nothing_scanned = record { values = []; unreadable = [] }

module _ (world : World) where
  -- One round of the loop, and what follows it.
  abbrev pub scan_next :
      ℕ → Scan → (Scan → C Scan) → Outcome ℤ → Coordinator → Outcome Scan × Coordinator
  scan_next id scan next (done value) s =
      next (record scan { values = insert id value scan.values }) s
  scan_next id scan next (failed f) s =
      if is_machine_error f.exception
      then next (record scan { unreadable = scan.unreadable ++ id ∷ [] }) s
      else (failed f, s)

  -- The loop, with the number of registers left and the next one.
  unfoldable pub scan_loop : ℕ → ℕ → Scan → C Scan
  scan_loop zero id scan s = (done scan, s)
  scan_loop (suc left) id scan s =
      let (r, s') = async_read_setting world (pos id) s in
      scan_next id scan (scan_loop left (suc id)) r s'

module _ (hass : Hass) (worlds : ℕ → World) where
  -- `range(first, last + 1)`
  abbrev pub scan_one : ℕ → ℕ → ℕ → C Scan
  scan_one first last c = scan_loop (worlds c) (suc last - first) first nothing_scanned

  unfoldable pub scan_settings_service : Target → ℕ → ℕ → S Scan
  unfolding scan_loop
  scan_settings_service target first last =
      let scanned : S Scan = (do
        c ← resolved (one_coordinator hass target)
        on c (scan_one first last c)) in
      if ltb last first
      then raise invalid
      else if ltb max_scan_span (last - first + 1)
      then raise invalid
      else scanned
