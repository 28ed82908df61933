-- ===== src/Machine/Waiters/Exclusive.antt =====
-- What the lock and the table keep to.
use hass_melitta_barista_ts.Prelude.{
  ℕ, ◌≡◌, inl, inr, refl, sym, ap, true, Bool-cases, ==_iff, bytes_eq_refl, eq_of_bytes_eq, List,
  [], ◌∷◌, ◌++◌, Option, none, some,
}
use mathlib.Core.Path.{subst}
use hass_melitta_barista_ts.Prelude.In.{In, In-append_left, In-append_right}
use hass_melitta_barista_ts.Const.Framing.{Command}
use hass_melitta_barista_ts.Machine.Session.{Key, key_eq, resolves}
use hass_melitta_barista_ts.Machine.Waiters.{
  Future, Request, Waiting, idle, put, found, popped, resolve, on_frame, cancel_all, reset, begin,
  finish, Step, Reach,
}

-- Where a future stands, with the table.
abbrev Stands : Request → Future → List (Key × ℕ) → Type 0
Stands r Future.pending waiters = waiters ≡ (r.key, r.number) ∷ []
Stands r (Future.answered p) waiters =
    (waiters ≡ [])
    × ((command : Command) × (payload : List ℕ) × In (command, payload) r.arrived
        × (resolves command payload ≡ (r.key, p)))
Stands r Future.cancelled waiters = waiters ≡ []

-- The table has the waiter of the request that holds the lock, while its future is pending, and nothing
-- else.
abbrev pub HoldsFor : Option Request → List (Key × ℕ) → Type 0
HoldsFor none waiters = waiters ≡ []
HoldsFor (some r) waiters = Stands r r.future waiters

abbrev pub IsExclusive : Waiting → Type 0
IsExclusive s = HoldsFor s.holder s.waiters

key_eq_refl : (k : Key) → key_eq k k ≡ true
key_eq_refl Key.ack = refl
key_eq_refl (Key.reply c) = bytes_eq_refl c

eq_of_key_eq : (k l : Key) → key_eq k l ≡ true → k ≡ l
eq_of_key_eq Key.ack Key.ack h = refl
eq_of_key_eq Key.ack (Key.reply d) h = absurd (cc)
eq_of_key_eq (Key.reply c) Key.ack h = absurd (cc)
eq_of_key_eq (Key.reply c) (Key.reply d) h =
    ap (λ (x : Command). Key.reply x) (eq_of_bytes_eq c d h)

-- A state whose lock is held.
abbrev held : ℕ → Key → Future → List (Command × List ℕ) → List (Key × ℕ) → ℕ → Waiting
held n key future arrived waiters begun = record {
  holder = some (record { number = n; key = key; future = future; arrived = arrived });
  waiters = waiters;
  begun = begun;
}

In-last :
    (command : Command) (payload : List ℕ) (arrived : List (Command × List ℕ))
    → In (command, payload) (arrived ++ (command, payload) ∷ [])
In-last command payload arrived =
    In-append_right (command, payload) arrived ((command, payload) ∷ []) (inl refl)

on_frame-held :
    (n : ℕ) (key : Key) (future : Future) (arrived : List (Command × List ℕ))
    (waiters : List (Key × ℕ)) (begun : ℕ) (command : Command) (payload : List ℕ)
    → IsExclusive (held n key future arrived waiters begun)
    → IsExclusive (on_frame command payload (held n key future arrived waiters begun))
unfolding on_frame resolve found popped
on_frame-held n key Future.pending arrived waiters begun command payload h =
    rw h (elim (Bool-cases (key_eq key (resolves command payload).0)) [
      | inl e ↦
          let same : (resolves command payload).0 ≡ key = sym (eq_of_key_eq key _ e) in
          rw (e, (==_iff n n).1 refl)
            (
              refl,
              (
                command,
                payload,
                In-last command payload arrived,
                λ i. (same i, (resolves command payload).1),
              ),
            )
      | inr e ↦ rw e refl
    ])
on_frame-held n key (Future.answered p) arrived waiters begun command payload (h, (c, q, m, e)) =
    rw h (refl, (c, q, In-append_left (c, q) arrived ((command, payload) ∷ []) m, e))
on_frame-held n key Future.cancelled arrived waiters begun command payload h = rw h refl

reset-held :
    (n : ℕ) (key : Key) (future : Future) (arrived : List (Command × List ℕ))
    (waiters : List (Key × ℕ)) (begun : ℕ)
    → IsExclusive (held n key future arrived waiters begun)
    → IsExclusive (reset (held n key future arrived waiters begun))
unfolding reset cancel_all
reset-held n key Future.pending arrived waiters begun h = rw (h, (==_iff n n).1 refl) refl
reset-held n key (Future.answered p) arrived waiters begun (h, (c, q, m, e)) =
    rw h (refl, (c, q, m, e))
reset-held n key Future.cancelled arrived waiters begun h = rw h refl

on_frame-IsExclusive :
    (command : Command) (payload : List ℕ) (holder : Option Request) (waiters : List (Key × ℕ))
    (begun : ℕ)
    → HoldsFor holder waiters
    → IsExclusive
        (on_frame command payload (record { holder = holder; waiters = waiters; begun = begun }))
unfolding on_frame resolve found popped
on_frame-IsExclusive command payload none waiters begun h = rw h refl
on_frame-IsExclusive command payload (some r) waiters begun h =
    on_frame-held r.number r.key r.future r.arrived waiters begun command payload h

reset-IsExclusive :
    (holder : Option Request) (waiters : List (Key × ℕ)) (begun : ℕ)
    → HoldsFor holder waiters
    → IsExclusive (reset (record { holder = holder; waiters = waiters; begun = begun }))
unfolding reset cancel_all
reset-IsExclusive none waiters begun h = rw h refl
reset-IsExclusive (some r) waiters begun h =
    reset-held r.number r.key r.future r.arrived waiters begun h

popped_all :
    (r : Request) (f : Future) (waiters : List (Key × ℕ))
    → Stands r f waiters
    → popped r.key waiters ≡ []
unfolding popped
popped_all r Future.pending waiters h = rw (h, key_eq_refl r.key) refl
popped_all r (Future.answered p) waiters (h, (c, q, m, e)) = rw h refl
popped_all r Future.cancelled waiters h = rw h refl

Step-IsExclusive : {s t : Waiting} → Step s t → IsExclusive s → IsExclusive t
unfolding begin put finish
Step-IsExclusive {s} (Step.begins key free) h =
    let empty : s.waiters ≡ [] = rw free at h in rw empty refl
Step-IsExclusive {s} (Step.arrives command payload) h =
    on_frame-IsExclusive command payload s.holder s.waiters s.begun h
Step-IsExclusive {s} Step.resets h = reset-IsExclusive s.holder s.waiters s.begun h
Step-IsExclusive {s} (Step.ends r holds) h = popped_all r r.future s.waiters (rw holds at h)

Reach-IsExclusive : {s : Waiting} → Reach idle s → IsExclusive s
Reach-IsExclusive Reach.here = refl
Reach-IsExclusive (Reach.next r step) = Step-IsExclusive step (Reach-IsExclusive r)

-- In whatever order requests begin and end, frames arrive and the session is reset: the table has the
-- waiter of the one request that holds the lock while that is pending, and nothing else; the request is
-- answered only by a frame for its key that arrived since it began; and while it is pending, the next
-- such frame answers it.
pub waiters_lem :
    (s : Waiting)
    → Reach idle s
    → IsExclusive s
      × ((r : Request)
          → s.holder ≡ some r
          → r.future ≡ Future.pending
          → (command : Command) (payload p : List ℕ) → resolves command payload ≡ (r.key, p)
          → (t : Request) × ((on_frame command payload s).holder ≡ some t)
            × (t.future ≡ Future.answered p)
            × (t.number ≡ r.number))
unfolding on_frame resolve found popped
waiters_lem s reach = (
  Reach-IsExclusive reach,
  λ r holds waits command payload p answers.
      let stands : Stands r r.future s.waiters = rw holds at (Reach-IsExclusive reach) in
      let table : s.waiters ≡ (r.key, r.number) ∷ [] =
        subst (λ f. Stands r f s.waiters) waits stands in
      (
        record r { future = Future.answered p; arrived = r.arrived ++ (command, payload) ∷ [] },
        rw (holds, table, answers, key_eq_refl r.key, (==_iff r.number r.number).1 refl, waits)
            refl,
        refl,
        refl,
      ),
)
