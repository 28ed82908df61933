-- ===== src/Services/Scan/Ledger.antt =====
-- What a scan finds out: every register of the range, once.
use hass_melitta_barista_ts.Prelude.{
  ℕ, zero, suc, ◌+◌, ◌-◌, ◌≤◌, ◌<◌, ◌≡◌, ◌≢◌, inl, inr, refl, sym, ap, ◌∙◌, true, Bool-cases, ltb,
  List, [], ◌∷◌, ◌++◌, arith,
}
use mathlib.Core.List.{append_assoc, append-nil}
use mathlib.Core.Path.{subst}
use hass_melitta_barista_ts.Prelude.Int.{ℤ, pos}
use hass_melitta_barista_ts.Prelude.Dict.{Dict, insert}
use hass_melitta_barista_ts.Errors.{is_machine_error, Result, ok, err}
use hass_melitta_barista_ts.Client.State.{Failure}
use hass_melitta_barista_ts.Client.Connect.{World, Outcome, done, failed}
use hass_melitta_barista_ts.Coordinator.State.{Coordinator}
use hass_melitta_barista_ts.Coordinator.Commands.{async_read_setting}
use hass_melitta_barista_ts.Services.Targets.{Hass, Target, one_coordinator}
use hass_melitta_barista_ts.Services.Contained.{update_self, update_other}
use hass_melitta_barista_ts.Services.Store.{Store, update, on, resolved, ◌>>=◌}
use hass_melitta_barista_ts.Services.Scan.{
  scan_one, Scan, scan_next, scan_loop, scan_settings_service, nothing_scanned, max_scan_span,
}

-- What a scan of `left` registers from `id` on does to the coordinator, and finds out: each register is
-- read once, in their order, from the state in which the read before it left the coordinator. A read
-- that gives a value enters it, one that raises a MachineError enters the register as unreadable.
pub data Scans (world : World) : ℕ → ℕ → Coordinator → Dict ℤ → List ℕ → Coordinator → Type 0 where
  finish : {id : ℕ} {s : Coordinator} → Scans world zero id s [] [] s
  value :
      {left id : ℕ} {s s' t : Coordinator} {values : Dict ℤ} {unreadable : List ℕ} (v : ℤ)
      → async_read_setting world (pos id) s ≡ (done v, s')
      → Scans world left (suc id) s' values unreadable t
      → Scans world (suc left) id s ((id, v) ∷ values) unreadable t
  missing :
      {left id : ℕ} {s s' t : Coordinator} {values : Dict ℤ} {unreadable : List ℕ} (f : Failure)
      → async_read_setting world (pos id) s ≡ (failed f, s')
      → is_machine_error f.exception ≡ true
      → Scans world left (suc id) s' values unreadable t
      → Scans world (suc left) id s values (id ∷ unreadable) t

-- Every key is below `id`.
abbrev AllBelow : ℕ → Dict ℤ → Type 0
AllBelow id [] = Unit
AllBelow id (e ∷ rest) = (e.0 < id) × AllBelow id rest

AllBelow-suc : (id : ℕ) (d : Dict ℤ) → AllBelow id d → AllBelow (suc id) d
AllBelow-suc id [] h = tt
AllBelow-suc id (e ∷ rest) h = (omega (arith, h.0), AllBelow-suc id rest h.1)

AllBelow-append :
    (id : ℕ) (v : ℤ) (d : Dict ℤ) → AllBelow id d → AllBelow (suc id) (d ++ (id, v) ∷ [])
AllBelow-append id v [] h = (omega arith, tt)
AllBelow-append id v (e ∷ rest) h = (omega (arith, h.0), AllBelow-append id v rest h.1)

insert-AllBelow : (id : ℕ) (v : ℤ) (d : Dict ℤ) → AllBelow id d → insert id v d ≡ d ++ (id, v) ∷ []
insert-AllBelow id v [] h = refl
insert-AllBelow id v ((k, w) ∷ rest) h = ground (arith, h.0, insert-AllBelow id v rest h.1)

-- The accumulated scan, followed by what the rest of the loop finds out.
record Extends (world : World) (left id : ℕ) (scan : Scan) (s : Coordinator) (found : Scan)
    (t : Coordinator) : Type 0 where
  values : Dict ℤ
  unreadable : List ℕ
  run : Scans world left id s values unreadable t
  values_lem : found.values ≡ scan.values ++ values
  unreadable_lem : found.unreadable ≡ scan.unreadable ++ unreadable

module _ (world : World) where
  -- The claim for a loop of `left` registers from `id` on.
  abbrev Holds : ℕ → ℕ → Type 0
  Holds left id =
      (scan : Scan) (s t : Coordinator) (found : Scan)
      → AllBelow id scan.values
      → scan_loop world left id scan s ≡ (done found, t)
      → Extends world left id scan s found t

  scan_next-Extends :
      (left id : ℕ) (scan : Scan) (s s' t : Coordinator) (found : Scan) (r : Outcome ℤ)
      → Holds left (suc id)
      → AllBelow id scan.values
      → async_read_setting world (pos id) s ≡ (r, s')
      → scan_next world id scan (scan_loop world left (suc id)) r s' ≡ (done found, t)
      → Extends world (suc left) id scan s found t
  scan_next-Extends left id scan s s' t found (done v) later below read h =
      let e =
        later (record scan { values = insert id v scan.values }) s' t found
          (rw (insert-AllBelow id v scan.values below) (AllBelow-append id v scan.values below))
          h in
      record {
        values = (id, v) ∷ e.values;
        unreadable = e.unreadable;
        run = Scans.value v read e.run;
        values_lem =
            e.values_lem
            ∙ rw (insert-AllBelow id v scan.values below)
                (append_assoc scan.values ((id, v) ∷ []) e.values);
        unreadable_lem = e.unreadable_lem;
      }
  scan_next-Extends left id scan s s' t found (failed f) later below read h =
      elim (Bool-cases (is_machine_error f.exception)) [
        | inl caught ↦
            let e =
              later (record scan { unreadable = scan.unreadable ++ id ∷ [] }) s' t found
                (AllBelow-suc id scan.values below) (rw caught at h) in
            record {
              values = e.values;
              unreadable = id ∷ e.unreadable;
              run = Scans.missing f read caught e.run;
              values_lem = e.values_lem;
              unreadable_lem =
                  e.unreadable_lem ∙ append_assoc scan.unreadable (id ∷ []) e.unreadable;
            }
        | inr escaped ↦ absurd (ground arith)
      ]

  scan_loop-Extends : (left id : ℕ) → Holds left id
  unfolding scan_loop
  scan_loop-Extends zero id scan s t found below h =
      let same : scan ≡ found = cc in
      let stay : s ≡ t = cc in
      record {
        values = [];
        unreadable = [];
        run = subst (λ u. Scans world zero id s [] [] u) stay Scans.finish;
        values_lem = ap (λ (x : Scan). x.values) (sym same) ∙ sym (append-nil scan.values);
        unreadable_lem =
            ap (λ (x : Scan). x.unreadable) (sym same) ∙ sym (append-nil scan.unreadable);
      }
  scan_loop-Extends (suc left) id scan s t found below h =
      let (r, s') = async_read_setting world (pos id) s in
      scan_next-Extends left id scan s s' t found r (scan_loop-Extends left (suc id)) below refl h

-- What the service answers to a scan that comes through.
pub record Scanned (hass : Hass) (worlds : ℕ → World) (target : Target) (first last : ℕ)
    (found : Scan) (before after : Store) : Type 0 where
  pub machine : ℕ
  pub only : one_coordinator hass target ≡ ok machine
  pub ordered : first ≤ last
  pub short : suc last - first ≤ max_scan_span
  pub run :
      Scans
        (worlds machine)
        (suc last - first)
        first
        (before machine)
        found.values
        found.unreadable
        (after machine)
  pub others : (c : ℕ) → c ≢ machine → after c ≡ before c

module _ (hass : Hass) (worlds : ℕ → World) (target : Target) (first last : ℕ)
    (before after : Store) (found : Scan) where
  scan_one-Scanned :
      (c : ℕ)
      → one_coordinator hass target ≡ ok c
      → first ≤ last
      → suc last - first ≤ max_scan_span
      → on c (scan_one hass worlds first last c) before ≡ (done found, after)
      → Scanned hass worlds target first last found before after
  scan_one-Scanned c only ordered short h =
      let t : Coordinator = (scan_one hass worlds first last c (before c)).1 in
      let came : (scan_one hass worlds first last c (before c)).0 ≡ done found = cc in
      let stored : update before c t ≡ after = cc in
      let update_self : after c ≡ t =
        sym (ap (λ (f : Store). f c) stored) ∙ update_self before c t in
      let e =
        scan_loop-Extends (worlds c) (suc last - first) first nothing_scanned (before c) t found tt
          (λ i. (came i, t)) in
      record {
        machine = c;
        only = only;
        ordered = ordered;
        short = short;
        run = rw (update_self, e.values_lem, e.unreadable_lem) e.run;
        others = λ d ne. sym (ap (λ (f : Store). f d) stored) ∙ update_other before c d t ne;
      }

  from_result :
      (r : Result ℕ)
      → one_coordinator hass target ≡ r
      → first ≤ last
      → suc last - first ≤ max_scan_span
      → (resolved r >>= λ c. on c (scan_one hass worlds first last c)) before ≡ (done found, after)
      → Scanned hass worlds target first last found before after
  from_result (ok c) only ordered short h = scan_one-Scanned c only ordered short h
  from_result (err e) only ordered short h = absurd (cc)

  -- A scan that answers has refined its specification: the target is one machine, the range is in order
  -- and has at most 128 registers, each of them was read once, in order, and entered as a value or as
  -- unreadable by what the read came to, and no other machine was touched.
  pub scan_settings_service_lem :
      scan_settings_service hass worlds target first last before ≡ (done found, after)
      → Scanned hass worlds target first last found before after
  unfolding scan_settings_service
  scan_settings_service_lem h = elim (Bool-cases (ltb last first)) [
    | inl bad ↦ absurd (ground arith)
    | inr ordered ↦ elim (Bool-cases (ltb max_scan_span (last - first + 1))) [
      | inl bad ↦ absurd (ground arith)
      | inr short ↦
          from_result (one_coordinator hass target) refl (ground arith) (ground arith)
            (rw (ordered, short) at h)
    ]
  ]
