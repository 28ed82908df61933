-- ===== src/Services/Contained.antt =====
-- What no service does: touch a machine that its call does not target, or let a MachineError through.
use hass_melitta_barista_ts.Prelude.{
  ℕ, zero, suc, ◌≡◌, ◌≢◌, inl, inr, refl, sym, ap, ◌∙◌, false, Bool-cases, ==_iff, ◌==◌, List, [],
  ◌∷◌, ◌++◌,
}
use hass_melitta_barista_ts.Prelude.Int.{ℤ, pos}
use hass_melitta_barista_ts.Prelude.Dict.{insert}
use hass_melitta_barista_ts.Coordinator.Commands.{async_read_setting}
use hass_melitta_barista_ts.Prelude.In.{In}
use mathlib.Core.Path.{subst}
use hass_melitta_barista_ts.Errors.{is_machine_error}
use hass_melitta_barista_ts.Client.Text.{Text}
use hass_melitta_barista_ts.Client.State.{Failure}
use hass_melitta_barista_ts.Client.Connect.{World, Outcome, done, failed}
use hass_melitta_barista_ts.Client.Connect.Outcomes.{Outcome-cases}
use hass_melitta_barista_ts.Coordinator.State.{Coordinator, C}
use hass_melitta_barista_ts.Coordinator.Reported.{as_reported, reported_outcome, reported}
use hass_melitta_barista_ts.Services.Store.{pure, raise, Store, S, update, on, for_each, ◌>>=◌}
use hass_melitta_barista_ts.Services.Scan.{Scan, scan_next, scan_loop}

pub update_self : (store : Store) (c : ℕ) (s : Coordinator) → update store c s c ≡ s
update_self store c s = rw ((==_iff c c).1 refl) refl

pub update_other :
    (store : Store) (c d : ℕ) (s : Coordinator) → d ≢ c → update store c s d ≡ store d
update_other store c d s ne = elim (Bool-cases (c == d)) [
  | inl e ↦ absurd (ne (sym ((==_iff c d).0 e)))
  | inr e ↦ rw e refl
]

-- The machines that `touched` does not hold for stay as they are, and what is raised is no MachineError.
pub record Contained {A : Type 0} (touched : ℕ → Type 0) (action : S A) : Type 0 where
  pub others : (store : Store) (c : ℕ) → ¬ touched c → (action store).1 c ≡ store c
  pub told :
      (store : Store) (f : Failure)
      → (action store).0 ≡ failed f
      → is_machine_error f.exception ≡ false

as_reported-told :
    (prefix : Text) (f : Failure) → is_machine_error (as_reported prefix f).exception ≡ false
as_reported-told prefix f = elim (Bool-cases (is_machine_error f.exception)) [
  | inl e ↦ rw e refl
  | inr e ↦ rw e e
]

reported_outcome-told :
    {A : Type 0} (prefix : Text) (o : Outcome A) (f : Failure)
    → reported_outcome prefix o ≡ failed f
    → is_machine_error f.exception ≡ false
reported_outcome-told prefix (done a) f h = absurd (cc)
reported_outcome-told prefix (failed g) f h =
    let same : as_reported prefix g ≡ f = cc in
    ap (λ (x : Failure). is_machine_error x.exception) (sym same) ∙ as_reported-told prefix g

pub on-Contained :
    {A : Type 0} (touched : ℕ → Type 0) (prefix : Text) (action : C A) (c : ℕ)
    → touched c
    → Contained touched (on c (reported prefix action))
on-Contained touched prefix action c t = record {
  others = λ store d n.
      update_other store c d (reported prefix action (store c)).1
        (λ e. n (subst touched (sym e) t));
  told = λ store f h. reported_outcome-told prefix (action (store c)).0 f h;
}

pub >>=-Contained :
    {A B : Type 0} (touched : ℕ → Type 0) (first : S A) (next : A → S B)
    → Contained touched first
    → ((a : A) → Contained touched (next a))
    → Contained touched (first >>= next)
>>=-Contained {B = B} touched first next f n = record {
  others = λ store c h. elim (Outcome-cases (first store).0) [
    | inl (a, e) ↦ rw e ((n a).others (first store).1 c h ∙ f.others store c h)
    | inr (g, e) ↦ rw e (f.others store c h)
  ];
  told = λ store g h. elim (Outcome-cases (first store).0) [
    | inl (a, e) ↦ (n a).told (first store).1 g (rw e at h)
    | inr (k, e) ↦
        let raised : ◌≡◌ {A = Outcome B} (failed k) (failed g) = rw e at h in
        let same : k ≡ g = cc in f.told store g (e ∙ ap (λ (x : Failure). failed x) same)
  ];
}

scan_next-told :
    (world : World) (id : ℕ) (scan : Scan) (next : Scan → C Scan)
    → ((x : Scan) (t : Coordinator) (g : Failure)
        → (next x t).0 ≡ failed g
        → is_machine_error g.exception ≡ false)
    → (r : Outcome ℤ) (s : Coordinator) (f : Failure)
    → (scan_next world id scan next r s).0 ≡ failed f
    → is_machine_error f.exception ≡ false
scan_next-told world id scan next later (done v) s f e =
    later (record scan { values = insert id v scan.values }) s f e
scan_next-told world id scan next later (failed g) s f e =
    elim (Bool-cases (is_machine_error g.exception)) [
      | inl b ↦ later (record scan { unreadable = scan.unreadable ++ id ∷ [] }) s f (rw b at e)
      | inr b ↦
          let raised : ◌≡◌ {A = Outcome Scan} (failed g) (failed f) = rw b at e in
          let same : g ≡ f = cc in ap (λ (x : Failure). is_machine_error x.exception) (sym same) ∙ b
    ]

pub scan_loop-told :
    (world : World) (left id : ℕ) (scan : Scan) (s : Coordinator) (f : Failure)
    → (scan_loop world left id scan s).0 ≡ failed f
    → is_machine_error f.exception ≡ false
unfolding scan_loop
scan_loop-told world zero id scan s f h = absurd (cc)
scan_loop-told world (suc left) id scan s f h =
    let (r, s') = async_read_setting world (pos id) s in
    scan_next-told world id scan (scan_loop world left (suc id))
      (scan_loop-told world left (suc id)) r s' f h

pub pure-Contained : {A : Type 0} (touched : ℕ → Type 0) (a : A) → Contained touched (pure a)
pure-Contained touched a = record { others = λ store c n. refl; told = λ store f h. absurd (cc) }

pub raise-Contained :
    {A : Type 0} (touched : ℕ → Type 0) (f : Failure)
    → is_machine_error f.exception ≡ false
    → Contained touched (raise {A = A} f)
raise-Contained touched f h = record {
  others = λ store c n. refl;
  told = λ store g e.
      let same : f ≡ g = cc in ap (λ (x : Failure). is_machine_error x.exception) (sym same) ∙ h;
}

pub for_each-Contained :
    (touched : ℕ → Type 0) (prefix : Text) (action : ℕ → C (Unit {0})) (cs : List ℕ)
    → ((c : ℕ) → In c cs → touched c)
    → Contained touched (for_each prefix action cs)
unfolding for_each
for_each-Contained touched prefix action [] h = pure-Contained touched tt
for_each-Contained touched prefix action (c ∷ cs) h =
    >>=-Contained touched (on c (reported prefix (action c))) (λ u. for_each prefix action cs)
      (on-Contained touched prefix (action c) c (h c (inl refl)))
      (λ u. for_each-Contained touched prefix action cs (λ d g. h d (inr g)))
