-- ===== src/Client/Connect/Outcomes.antt =====
-- A connect is all or nothing.
use hass_melitta_barista_ts.Prelude.{◌≡◌, ◌⊎◌, inl, inr, refl, true, Bool, List, Option, none, ◌||◌}
use hass_melitta_barista_ts.Errors.{is_machine_error}
use hass_melitta_barista_ts.Machine.Session
use hass_melitta_barista_ts.Machine.Session.{ready}
use hass_melitta_barista_ts.Client.Text.{Text}
use hass_melitta_barista_ts.Client.Adapters.{Device}
use hass_melitta_barista_ts.Client.State.{Failure, Link, no_link, Client, connected, disconnected}
use hass_melitta_barista_ts.Client.Connect.{World, Outcome, done, failed, is_bleak, ladder}

-- No link, and no session.
pub record IsDown (c : Client) : Type 0 where
  pub no_link : c.link ≡ none
  pub no_key : c.session.key_prefix ≡ none

pub disconnected-IsDown : (c : Client) → IsDown (disconnected c)
unfolding disconnected Session.reset
disconnected-IsDown c = record { no_link = refl; no_key = refl }

-- What the ladder goes on after.
abbrev is_caught : Failure → Bool
is_caught f = is_machine_error f.exception || is_bleak f.exception

-- What is true after an attempt, for the link it was made on.
abbrev Attempted : Option Link → Outcome (Unit {0}) → Client → Type 0
Attempted link (done u) c = (c.link ≡ link) × (ready c.session ≡ true)
Attempted link (failed f) c = (is_caught f ≡ true) ⊎ IsDown c

-- How an attempt ends that began on a client that was down.
abbrev Ended : Outcome (Unit {0}) → Client → Type 0
Ended (done u) c = connected c ≡ true
Ended (failed f) c = (is_caught f ≡ true) ⊎ IsDown c

pub Outcome-cases :
    {A : Type 0} (r : Outcome A) → ((a : A) × (r ≡ done a)) ⊎ ((f : Failure) × (r ≡ failed f))
Outcome-cases (done u) = inl (u, refl)
Outcome-cases (failed f) = inr (f, refl)

module _ (world : World) where
  -- That a connect came through, or left the client down.
  abbrev pub AllOrNothing : Outcome (Unit {0}) → Client → Type 0
  AllOrNothing (done u) c = connected c ≡ true
  AllOrNothing (failed f) c = IsDown c

  abbrev AllFrom : Device → List Bool → Type 0
  AllFrom device pairs =
      (last_error : Failure) (silent_machine refused : Bool) (c : Client)
      → IsDown c
      → let (r, c') = ladder world device pairs last_error silent_machine refused c in
        AllOrNothing r c'
