-- ===== src/Daemon/Registry/Sweeping.antt =====
-- Which sessions a sweep of the heartbeats turns unresponsive.
use pi_remote.Prelude.{
  ℕ, ◌+◌, ◌≤◌, ◌≡◌, refl, ap, ◌∙◌, inl, inr, String, Bool, true, false, Option, none, some, List,
  [], ◌∷◌, ◌++◌, arith, Map, lookup, string_eq, if◌then◌else◌, Bool-cases, append-nil,
  lookup-insert_self, if_rule, if_cases,
}
use pi_remote.Daemon.Registry.{
  Session, running, Call, Registry, is_silent, is_unresponsive, flip, sweep, sweep_heartbeats,
  update_heartbeat,
}

-- What a sweep makes of one session.
abbrev pub swept : ℕ → ℕ → Option Session → Option Session
swept now timeout none = none
swept now timeout (some s) = some (if is_silent now timeout s then flip s else s)

sweep-lookup :
    (now timeout : ℕ) (m : Map String Session) (id : String)
    → lookup id (sweep now timeout m).0 ≡ swept now timeout (lookup id m)
unfolding sweep
sweep-lookup now timeout [] id = refl
sweep-lookup now timeout ((j, s) ∷ m) id = ground (arith, sweep-lookup now timeout m id)

sweep_twice :
    (now timeout : ℕ) (m : Map String Session)
    → sweep now timeout (sweep now timeout m).0 ≡ ((sweep now timeout m).0, [], [])
unfolding sweep
sweep_twice now timeout [] = refl
sweep_twice now timeout ((j, s) ∷ m) = elim (Bool-cases (is_silent now timeout s)) [
  | inl e ↦ rw e (rw (sweep_twice now timeout m))
  | inr e ↦ rw e (rw (e, sweep_twice now timeout m))
]

no_calls : (b : Bool) (c : List Call) → (if b then c ++ [] else c) ≡ c
no_calls true c = append-nil c
no_calls false c = refl

-- A sweep turns exactly the running and idle sessions that were silent for longer than the timeout
-- unresponsive, and a second sweep at the same time changes nothing.
pub sweep_heartbeats-lookup :
    (now timeout : ℕ) (r : Registry)
    → let r' = (sweep_heartbeats now timeout r).0 in
      ((id : String) → lookup id r'.sessions ≡ swept now timeout (lookup id r.sessions))
      × (sweep_heartbeats now timeout r' ≡ (r', []))
unfolding sweep_heartbeats
sweep_heartbeats-lookup now timeout r = (λ id. sweep-lookup now timeout r.sessions id, again)
  where
    m' : Map String Session
    m' = (sweep now timeout r.sessions).0

    b : Bool
    b = r.hooks.has_state_change

    c : List Call
    c = if b then r.calls ++ (sweep now timeout r.sessions).2 else r.calls

    again :
        sweep_heartbeats now timeout (record r { sessions = m'; calls = c })
        ≡ (record r { sessions = m'; calls = c }, [])
    again =
        ap
          (λ (q : Map String Session × List String × List Call).
            (record r { sessions = q.0; calls = if b then c ++ q.2 else c }, q.1))
          (sweep_twice now timeout r.sessions)
        ∙ ap (λ (cs : List Call). (record r { sessions = m'; calls = cs }, [])) (no_calls b c)

not_silent :
    (now timeout : ℕ) (s : Session)
    → now ≤ s.last_heartbeat + timeout
    → is_silent now timeout s ≡ false
not_silent now timeout s h = ground arith

-- A session that sends a heartbeat is running or keeps its state, and no sweep up to the timeout
-- later turns it unresponsive.
pub update_heartbeat_spares :
    (id : String) (ts now timeout : ℕ) (s : Session) (r : Registry)
    → lookup id r.sessions ≡ some s
    → now ≤ ts + timeout
    → let r' = (update_heartbeat id ts r).0 in
      (s' : Session) × (lookup id r'.sessions ≡ some s')
      × (is_unresponsive s'.state ≡ false)
      × (lookup id (sweep_heartbeats now timeout r').0.sessions ≡ some s')
unfolding update_heartbeat sweep_heartbeats
update_heartbeat_spares id ts now timeout s r l soon =
    let beaten =
      if is_unresponsive s.state
      then record s { last_heartbeat = ts; state = running }
      else record s { last_heartbeat = ts } in
    let seen : beaten.last_heartbeat ≡ ts =
      if_rule (λ (z : Session). z.last_heartbeat ≡ ts) (is_unresponsive s.state) _ _ refl refl in
    let Stored = λ (z : Registry). lookup id z.sessions ≡ some beaten in
    let stored = lookup-insert_self id beaten r.sessions in
    let found : lookup id (update_heartbeat id ts r).0.sessions ≡ some beaten = rw l (
      if_rule Stored r.hooks.has_heartbeat _ _
        (if_rule Stored (is_unresponsive s.state) _ _
          (if_rule Stored r.hooks.has_state_change _ _ stored stored) stored)
        (if_rule Stored (is_unresponsive s.state) _ _
          (if_rule Stored r.hooks.has_state_change _ _ stored stored) stored)) in
    (
      beaten,
      found,
      if_cases (λ (z : Session). is_unresponsive z.state ≡ false) (is_unresponsive s.state) _ _
          (λ e. refl) (λ e. e),
      sweep-lookup now timeout _ id
          ∙ rw (found, not_silent now timeout beaten (omega (arith, soon, seen))),
    )
