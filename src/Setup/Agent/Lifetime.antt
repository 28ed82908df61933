-- ===== src/Setup/Agent/Lifetime.antt =====
-- The agent's registration over any sequence of calls.
use hass_melitta_barista_ts.Prelude.{
  ℕ, ◌≡◌, ◌⊎◌, inl, inr, refl, true, false, ◌&&◌, Bool-cases, ==_iff, List, [], ◌∷◌, none, some,
}
use hass_melitta_barista_ts.Setup.Agent.{
  Bus, Agent, no_agent, dropped, async_ensure_agent, async_release_agent,
}

-- Any sequence of the two calls, with what the bus does at each.
pub data Call : Type 0 where
  ensure : Bus → Call
  release : Call

pub after : Agent → Call → Agent
after a (Call.ensure x) = (async_ensure_agent x a).1
after a Call.release = async_release_agent a

pub run_calls : Agent → List Call → Agent
run_calls a [] = a
run_calls a (c ∷ cs) = run_calls (after a c) cs

-- The module is either registered with one connection open, which it knows, or has none open.
abbrev pub Holds : Agent → Type 0
Holds a =
    ((a.registered ≡ false) × (a.bus ≡ none) × (a.connections ≡ []))
    ⊎ ((c : ℕ) × (a.registered ≡ true) × (a.bus ≡ some c) × (a.connections ≡ c ∷ []))

dropped_self : (c : ℕ) → dropped c (c ∷ []) ≡ []
dropped_self c = rw ((==_iff c c).1 refl) refl

ensure-Holds : (x : Bus) (a : Agent) → Holds a → Holds (async_ensure_agent x a).1
unfolding async_ensure_agent
ensure-Holds x a (inr (c, r, b, o)) = rw r (inr (c, refl, b, o))
ensure-Holds x a (inl (r, b, o)) = elim (Bool-cases (x.importable && x.reachable)) [
  | inr e ↦ rw (r, e) (inl (refl, b, o))
  | inl e ↦ elim (Bool-cases x.registers) [
    | inl k ↦ rw (r, e, k) (inr (a.opened, refl, refl, rw o refl))
    | inr k ↦ rw (r, e, k) (inl (refl, b, rw o (dropped_self a.opened)))
  ]
]

release-Holds : (a : Agent) → Holds a → Holds (async_release_agent a)
unfolding async_release_agent
release-Holds a (inl (r, b, o)) = rw r (inl (refl, b, o))
release-Holds a (inr (c, r, b, o)) = rw (r, b) (inl (refl, refl, rw o (dropped_self c)))

after-Holds : (a : Agent) (c : Call) → Holds a → Holds (after a c)
unfolding after
after-Holds a (Call.ensure x) h = ensure-Holds x a h
after-Holds a Call.release h = release-Holds a h

run_calls-Holds : (cs : List Call) (a : Agent) → Holds a → Holds (run_calls a cs)
unfolding run_calls
run_calls-Holds [] a h = h
run_calls-Holds (c ∷ cs) a h = run_calls-Holds cs (after a c) (after-Holds a c h)

answer : (x : Bus) (a : Agent) → (async_ensure_agent x a).0 ≡ (async_ensure_agent x a).1.registered
unfolding async_ensure_agent
answer x a = elim (Bool-cases a.registered) [
  | inl r ↦ rw r refl
  | inr r ↦ elim (Bool-cases (x.importable && x.reachable)) [
    | inl e ↦ elim (Bool-cases x.registers) [
      | inl k ↦ rw (r, e, k) refl
      | inr k ↦ rw (r, e, k) refl
    ]
    | inr e ↦ rw (r, e) refl
  ]
]

-- Whatever the bus does and in whatever order agents are asked for and released: at most one
-- connection is open, exactly while an agent is registered, no attempt that failed leaves one behind,
-- and what a further call answers is whether an agent is registered after it.
pub agent_lem :
    (cs : List Call) (x : Bus)
    → let a = run_calls no_agent cs in
      Holds a × ((async_ensure_agent x a).0 ≡ (async_ensure_agent x a).1.registered)
unfolding async_ensure_agent
agent_lem cs x =
    (run_calls-Holds cs no_agent (inl (refl, refl, refl)), answer x (run_calls no_agent cs))
