-- ===== src/Entities/Sensors/Values.antt =====
-- What the sensors show.
use Prim.Native.String.{String}
use hass_melitta_barista_ts.Prelude.{
  ℕ, ◌+◌, ◌-◌, ◌*◌, ◌/◌, ◌%◌, ◌<◌, ◌≡◌, ◌↔◌, inl, inr, ◌==◌, refl, sym, ap, ◌∙◌, Bool-cases, List,
  [], ◌∷◌, ◌++◌, map, Option, none, some, arith,
}
use hass_melitta_barista_ts.Prelude.Int.{ℤ, pos, negsuc}
use hass_melitta_barista_ts.Prelude.In.{In, In-append_left, In-append_right}
use hass_melitta_barista_ts.Const.Enum.{IntEnum, find_member, find_text}
use hass_melitta_barista_ts.Const.Status.{
  MachineProcess, machine_process_enum, SubProcess, sub_process_enum, Manipulation,
  manipulation_enum as manipulation_class,
}
use hass_melitta_barista_ts.Client.Text.{Text}
use hass_melitta_barista_ts.Protocol.Status.{
  MachineStatus, process_enum, sub_process_enum_of, manipulation_enum,
}
use hass_melitta_barista_ts.Coordinator.State.{MelittaData}
use hass_melitta_barista_ts.Entities.Sensors.{
  unknown, process_slugs, sub_process_slugs, manipulation_slugs, options_of, slug_or_unknown,
  process, sub_process, attention, clock, two_digits,
}

find_member-In :
    {A : Type 0} (value : A → ℕ) (xs : List A) (n : ℕ) (a : A)
    → find_member value xs n ≡ some a
    → In a xs
find_member-In value [] n a h = absurd (cc)
find_member-In value (x ∷ xs) n a h = elim (Bool-cases (value x == n)) [
  | inl e ↦ let found : some x ≡ some a = rw e at h in inl (cc)
  | inr e ↦ inr (find_member-In value xs n a (rw e at h))
]

In-map : {A : Type 0} (f : A → String) (xs : List A) (a : A) → In a xs → In (f a) (map f xs)
In-map f [] a h = absurd h
In-map f (x ∷ xs) a (inl e) = inl (ap f e)
In-map f (x ∷ xs) a (inr h) = inr (In-map f xs a h)

-- A table whose slugs, with the one for unknown, all differ.
record TellsApart {A : Type 0} (e : IntEnum A) (slugs : A → String) : Type 0 where
  member : (a : A) → find_text slugs e.members (slugs a) ≡ some a
  no_member : find_text slugs e.members unknown ≡ none

-- What an enumeration's sensor shows of the decoded number.
abbrev pub Shows : {A : Type 0} → IntEnum A → (A → String) → Option String → Option A → Type 0
Shows e slugs shown decoded =
    (v : String) × (shown ≡ some v)
    × In v (options_of slugs e.members)
    × ((a : _) → (v ≡ slugs a) ↔ (decoded ≡ some a))

slug_or_unknown-Shows :
    {A : Type 0} (e : IntEnum A) (slugs : A → String)
    → TellsApart e slugs
    → (decoded : Option A) → Shows e slugs (some (slug_or_unknown slugs decoded)) decoded
unfolding options_of
slug_or_unknown-Shows e slugs t none = (
  unknown,
  refl,
  In-append_right unknown (map slugs e.members) (unknown ∷ []) (inl refl),
  λ a. (
    λ h.
        let no : none ≡ some a = sym t.no_member ∙ ap (find_text slugs e.members) h ∙ t.member a in
        absurd (cc),
    λ h. absurd (cc),
  ),
)
slug_or_unknown-Shows e slugs t (some b) = (
  slugs b,
  refl,
  In-append_left (slugs b) (map slugs e.members) (unknown ∷ [])
      (In-map slugs e.members b (find_member-In e.value e.members (e.value b) b (e.found b))),
  λ a. (
    λ h. sym (t.member b) ∙ ap (find_text slugs e.members) h ∙ t.member a,
    λ h. let same : b ≡ a = cc in ap slugs same,
  ),
)

process_slugs-member :
    (a : MachineProcess)
    → find_text process_slugs machine_process_enum.members (process_slugs a) ≡ some a
process_slugs-member MachineProcess.ready = refl
process_slugs-member MachineProcess.product = refl
process_slugs-member MachineProcess.cleaning = refl
process_slugs-member MachineProcess.descaling = refl
process_slugs-member MachineProcess.filter_insert = refl
process_slugs-member MachineProcess.filter_replace = refl
process_slugs-member MachineProcess.filter_remove = refl
process_slugs-member MachineProcess.switch_off = refl
process_slugs-member MachineProcess.easy_clean = refl
process_slugs-member MachineProcess.intensive_clean = refl
process_slugs-member MachineProcess.evaporating = refl
process_slugs-member MachineProcess.busy = refl

sub_process_slugs-member :
    (a : SubProcess)
    → find_text sub_process_slugs sub_process_enum.members (sub_process_slugs a) ≡ some a
sub_process_slugs-member SubProcess.none = refl
sub_process_slugs-member SubProcess.grinding = refl
sub_process_slugs-member SubProcess.coffee = refl
sub_process_slugs-member SubProcess.steam = refl
sub_process_slugs-member SubProcess.water = refl
sub_process_slugs-member SubProcess.prepare = refl

manipulation_slugs-member :
    (a : Manipulation)
    → find_text manipulation_slugs manipulation_class.members (manipulation_slugs a) ≡ some a
manipulation_slugs-member Manipulation.none = refl
manipulation_slugs-member Manipulation.bu_removed = refl
manipulation_slugs-member Manipulation.trays_missing = refl
manipulation_slugs-member Manipulation.empty_trays = refl
manipulation_slugs-member Manipulation.fill_water = refl
manipulation_slugs-member Manipulation.close_powder_lid = refl
manipulation_slugs-member Manipulation.fill_powder = refl

-- With a status, each of the three sensors shows one of its options, and a member's slug exactly when
-- the status decodes as that member.
pub sensors_lem :
    (d : MelittaData) (status : MachineStatus)
    → d.status ≡ some status
    → Shows machine_process_enum process_slugs (process d) (process_enum status)
      × Shows sub_process_enum sub_process_slugs (sub_process d) (sub_process_enum_of status)
      × Shows manipulation_class manipulation_slugs (attention d) (manipulation_enum status)
unfolding process sub_process attention
sensors_lem d status h = rw h (
  slug_or_unknown-Shows machine_process_enum process_slugs
      (record { member = process_slugs-member; no_member = refl }) (process_enum status),
  slug_or_unknown-Shows sub_process_enum sub_process_slugs
      (record { member = sub_process_slugs-member; no_member = refl }) (sub_process_enum_of status),
  slug_or_unknown-Shows manipulation_class manipulation_slugs
      (record { member = manipulation_slugs-member; no_member = refl }) (manipulation_enum status),
)

-- The minutes that a text of the clock's form tells.
abbrev pub minutes_of : Text → Option ℕ
minutes_of (a ∷ b ∷ colon ∷ c ∷ e ∷ []) =
    some (((a - 48) * 10 + (b - 48)) * 60 + ((c - 48) * 10 + (e - 48)))
minutes_of _ = none

-- The clock is shown exactly when the register holds a minute of a day, as five characters, and what is
-- shown tells that minute.
pub clock_lem :
    (d : MelittaData) (n : ℤ)
    → d.clock_minutes ≡ some n
    → ((minutes : ℕ)
        → n ≡ pos minutes
        → minutes < 1440
        → (t : Text) × (clock d ≡ some t) × (minutes_of t ≡ some minutes))
      × ((t : Text) → clock d ≡ some t → (minutes : ℕ) × (n ≡ pos minutes) × (minutes < 1440))
unfolding clock
clock_lem d (pos m) h = (
  λ minutes e small.
      let same : m ≡ minutes = cc in
      (two_digits (m / 60) ++ b':' ∷ two_digits (m % 60), ground arith, ap some (omega arith)),
  λ t shown. (m, refl, ground arith),
)
clock_lem d (negsuc m) h = (λ minutes e. absurd (cc), λ t shown. absurd (ground arith))
