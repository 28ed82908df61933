-- ===== src/Client/State.antt =====
-- client.py: what a client keeps, and what it leaves behind when the link goes down.
use hass_melitta_barista_ts.Prelude.{ℕ, Bool, true, false, List, [], Option, none, some, ◌&&◌}
use hass_melitta_barista_ts.Errors.{Exception}
use hass_melitta_barista_ts.Machine.Session
use hass_melitta_barista_ts.Machine.Session.{ready}
use hass_melitta_barista_ts.Client.Text.{Text}
use hass_melitta_barista_ts.Client.Adapters.{Provided}
use hass_melitta_barista_ts.Client.Characteristics.{Characteristic}

-- An exception with its message.
pub record Failure : Type 0 where
  pub exception : Exception
  pub message : Text

-- A GATT link: the characteristics of the vendor service, if the device has it.
pub record Link : Type 0 where
  pub service : Option (List Characteristic)

-- What one call of `establish_connection` comes to, and then the subscriptions.
pub data Opening : Type 0 where
  no_link : Failure → Opening
  link_up : Link → Option Failure → Opening

-- What the message of a failed connect advises.
pub data Advice : Type 0 where
  try_other_adapters : ℕ → Advice
  only_adapter_refused enable_pairing no_advice : Advice

-- `link` is `_client`; one that is set is connected, since `_on_disconnect` takes it away.
pub record Client : Type 0 where
  pub session : Session.Session
  pub link : Option Link
  pub write_char : Option Characteristic
  pub notify_chars : List Text
  pub closing : Bool
  pub last_good_source : Option Text
  pub rotation : ℕ
  pub candidates : ℕ
  -- What `on_pairing_refused` was called with.
  pub refused_sources : List Text
  pub advice : Advice
  -- What the device provider gives, and the script of the openings.
  pub provided : Provided
  pub openings : List Opening
  -- The `pair` arguments of the openings so far.
  pub asked : List Bool
  -- How many challenges were drawn.
  pub drawn : ℕ

abbrev has_link : Option Link → Bool
has_link none = false
has_link (some l) = true

-- `connected`
unfoldable pub connected : Client → Bool
connected c = has_link c.link && ready c.session

-- `_async_disconnect_locked`, and `_on_disconnect`, which does the same to the state.
unfoldable pub disconnected : Client → Client
unfolding Session.reset
disconnected c = record c {
  session = Session.reset c.session;
  link = none;
  write_char = none;
  notify_chars = [];
}
