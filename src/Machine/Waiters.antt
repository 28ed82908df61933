-- ===== src/Machine/Waiters.antt =====
-- machine.py, `_waiters` and `_request_lock`: what requests of several tasks, frames and resets do to
-- them between two awaits. `Session` has the same request as one call.
pub mod Exclusive
use hass_melitta_barista_ts.Prelude.{
  ℕ, suc, Bool, true, false, ◌==◌, ◌&&◌, if◌then◌else◌, List, [], ◌∷◌, ◌++◌, Option, none, some,
  ◌≡◌,
}
use hass_melitta_barista_ts.Const.Framing.{Command}
use hass_melitta_barista_ts.Machine.Session.{Key, key_eq, resolves}

pub data Future : Type 0 where
  pending : Future
  answered : List ℕ → Future
  cancelled : Future

-- The request that holds the lock, with its future, and the frames that arrived since it began.
pub record Request : Type 0 where
  pub number : ℕ
  pub key : Key
  pub future : Future
  pub arrived : List (Command × List ℕ)

-- `waiters` has the number of the request whose future stands under a key. A request that is over has
-- let go of its future.
pub record Waiting : Type 0 where
  pub holder : Option Request
  pub waiters : List (Key × ℕ)
  pub begun : ℕ

abbrev pub idle : Waiting
idle = record { holder = none; waiters = []; begun = 0 }

-- `self._waiters[key] = future`
pub put : Key → ℕ → List (Key × ℕ) → List (Key × ℕ)
put key n [] = (key, n) ∷ []
put key n ((k, m) ∷ rest) = if key_eq k key then (k, n) ∷ rest else (k, m) ∷ put key n rest

-- `self._waiters.pop(key, None)`
pub found : Key → List (Key × ℕ) → Option ℕ
found key [] = none
found key ((k, m) ∷ rest) = if key_eq k key then some m else found key rest

pub popped : Key → List (Key × ℕ) → List (Key × ℕ)
popped key [] = []
popped key ((k, m) ∷ rest) = if key_eq k key then rest else (k, m) ∷ popped key rest

-- `if not future.done(): ...`
abbrev pub if_pending : Future → Future → Future
if_pending Future.pending new = new
if_pending (Future.answered p) new = Future.answered p
if_pending Future.cancelled new = Future.cancelled

abbrev pub settle : Option ℕ → Future → Option Request → Option Request
settle none new holder = holder
settle (some n) new none = none
settle (some n) new (some r) =
    if r.number == n then some (record r { future = if_pending r.future new }) else some r

-- `_resolve`
pub resolve : Key → List ℕ → Waiting → Waiting
unfolding found popped
resolve key payload s = record s {
  holder = settle (found key s.waiters) (Future.answered payload) s.holder;
  waiters = popped key s.waiters;
}

abbrev pub note : Command → List ℕ → Option Request → Option Request
note command payload none = none
note command payload (some r) = some (record r { arrived = r.arrived ++ (command, payload) ∷ [] })

-- `_on_frame`
unfoldable pub on_frame : Command → List ℕ → Waiting → Waiting
unfolding resolve
on_frame command payload s =
    let (key, answer) = resolves command payload in
    resolve key answer (record s { holder = note command payload s.holder })

-- The futures of `reset`.
pub cancel_all : List (Key × ℕ) → Option Request → Option Request
cancel_all [] holder = holder
cancel_all ((k, n) ∷ rest) holder = cancel_all rest (settle (some n) Future.cancelled holder)

unfoldable pub reset : Waiting → Waiting
unfolding cancel_all
reset s = record s { holder = cancel_all s.waiters s.holder; waiters = [] }

-- `_request` up to its first await, once the lock is taken.
unfoldable pub begin : Key → Waiting → Waiting
unfolding put
begin key s = record {
  holder = some (record { number = s.begun; key = key; future = Future.pending; arrived = [] });
  waiters = put key s.begun s.waiters;
  begun = suc s.begun;
}

-- Its `finally` clause and the release of the lock, however the wait ended.
unfoldable pub finish : Request → Waiting → Waiting
finish r s = record s { holder = none; waiters = popped r.key s.waiters }

-- The lock lets a request begin only while none holds it.
pub data Step (s : Waiting) : Waiting → Type 0 where
  begins : (key : Key) → s.holder ≡ none → Step s (begin key s)
  arrives : (command : Command) (payload : List ℕ) → Step s (on_frame command payload s)
  resets : Step s (reset s)
  ends : (r : Request) → s.holder ≡ some r → Step s (finish r s)

pub data Reach (s : Waiting) : Waiting → Type 0 where
  here : Reach s s
  next : {t u : Waiting} → Reach s t → Step t u → Reach s u
