-- ===== src/Daemon/Registry/Ending.antt =====
-- How often a session ends, over all calls of the registry's methods in any order.
use pi_remote.Prelude.{
  ℕ, ◌+◌, ◌≤◌, ◌≡◌, refl, subst, inl, inr, String, str_eq, eq_iff, Bool, true, false, Option, none,
  some, List, [], ◌∷◌, arith, Map, lookup, insert, string_eq, lookup-insert, if◌then◌else◌,
  Bool-cases, if_rule, if_cases,
}
use pi_remote.Daemon.Registry.{
  Session, Call, on_register, on_heartbeat, on_ended, on_event, on_state_change, ended_explicit,
  ended_implicit, Hooks, Registry, new_registry, EndedKind, running, unresponsive, invoke, stamped,
  store, register_over, register, is_unresponsive, heartbeat_of, update_heartbeat, event, flag,
  already_ended, remove_found, remove_with_reason, sweep, sweep_heartbeats, reap_ended, mark_found,
  mark_ended,
}
use pi_remote.Daemon.Registry.Calls.{
  Op, registering, beating, sending, removing, marking, sweeping, reaping, step, run, weight,
  ended_calls, ended_calls-append, IsKeyed, IsKeyed-insert, IsKeyed-delete, IsKeyed-lookup,
  IsKeyed-sweep, sweep_calls, IsKeyed-reap, Once, invoke-Once, sessions-Once,
}

register-Once :
    (id : String) (s : Session) (now : ℕ) (r : Registry) → Once id r → Once id (register s now r).0
unfolding register
register-Once id s now r o = go (lookup (stamped now s).session_id r.sessions)
  where
    stored : Once id (store (stamped now s) r)
    stored = sessions-Once id _ r (IsKeyed-insert _ (stamped now s) r.sessions refl o.keyed) o

    go : (o : Option Session) → Once id (register_over (stamped now s) r o).0
    go none = invoke-Once id r.hooks.has_register (on_register (stamped now s)) _ refl stored
    go (some x) = if_rule (λ (z : Registry × Bool × String). Once id z.0) _ _ _ stored o

update_heartbeat-Once :
    (id k : String) (ts : ℕ) (r : Registry) → Once id r → Once id (update_heartbeat k ts r).0
unfolding update_heartbeat
update_heartbeat-Once id k ts r o = go (lookup k r.sessions) refl
  where
    go : (x : Option Session) → lookup k r.sessions ≡ x → Once id (heartbeat_of k ts r x).0
    go none e = o
    go (some s) e =
        let keyed = IsKeyed-lookup k r.sessions s o.keyed e in
        let s' =
          if is_unresponsive s.state
          then record s { last_heartbeat = ts; state = running }
          else record s { last_heartbeat = ts } in
        let same : s'.session_id ≡ k =
          if_rule (λ (z : Session). z.session_id ≡ k) (is_unresponsive s.state) _ _ keyed keyed in
        let stored = sessions-Once id _ r (IsKeyed-insert k s' r.sessions same o.keyed) o in
        invoke-Once id r.hooks.has_heartbeat (on_heartbeat k ts) _ refl (
          if_rule (Once id) (is_unresponsive s.state) _ _
            (invoke-Once id r.hooks.has_state_change (on_state_change k unresponsive running) _ refl
              stored)
            stored)

first_end_count :
    (id k : String) (s : Session) (kind : EndedKind) (reason : String) (r : Registry) (n : ℕ)
    → s.session_id ≡ k
    → already_ended k r ≡ false
    → Once id r
    → n ≤ ended_calls id r.calls + weight id (on_ended s kind reason)
    → n ≤ (if flag (lookup id (insert k true r.ended)) then 1 else 0)
first_end_count id k s kind reason r n same fresh o le = elim (Bool-cases (str_eq k id)) [
  | inl t ↦
      let none_yet : already_ended id r ≡ false =
        subst (λ j. already_ended j r ≡ false) ((eq_iff k id).0 t) fresh in
      let none_called : ended_calls id r.calls ≤ 0 = rw none_yet at o.once in
      rw (lookup-insert k id true r.ended, t) (omega (arith, none_called, rw (same, t) at le))
  | inr f ↦ rw (lookup-insert k id true r.ended, f) (omega (arith, o.once, rw (same, f) at le))
]

-- The first end of the session `k`: the mark is set and OnEnded is called.
first_end-Once :
    (id k : String) (s : Session) (kind : EndedKind) (reason : String) (m : Map String Session)
    (r : Registry)
    → s.session_id ≡ k
    → IsKeyed m
    → already_ended k r ≡ false
    → Once id r
    → Once id (
        invoke r.hooks.has_ended
          (on_ended s kind reason)
          (record r { sessions = m; ended = insert k true r.ended }))
first_end-Once id k s kind reason m r same t fresh o = record {
  keyed = if_rule (λ (z : Registry). IsKeyed z.sessions) r.hooks.has_ended _ _ t t;
  once =
      if_rule (λ (z : Registry). ended_calls id z.calls ≤ (if already_ended id z then 1 else 0))
        r.hooks.has_ended _ _
        (first_end_count id k s kind reason r _ same fresh o
          (omega (arith, ended_calls-append id r.calls (on_ended s kind reason ∷ []))))
        (first_end_count id k s kind reason r _ same fresh o (omega arith));
}

remove_with_reason-Once :
    (id k reason : String) (now : ℕ) (r : Registry)
    → Once id r
    → Once id (remove_with_reason k reason now r)
unfolding remove_with_reason
remove_with_reason-Once id k reason now r o = go (lookup k r.sessions) refl
  where
    go : (x : Option Session) → lookup k r.sessions ≡ x → Once id (remove_found k reason now r x)
    go none e = o
    go (some s) e =
        let rest = IsKeyed-delete k r.sessions o.keyed in
        if_cases (Once id) (already_ended k r) _ _ (λ t. sessions-Once id _ r rest o)
          (λ fresh.
            first_end-Once id k _ ended_explicit reason _ r
              (IsKeyed-lookup k r.sessions s o.keyed e) rest fresh o)

mark_ended-Once :
    (id k : String) (now : ℕ) (r : Registry) → Once id r → Once id (mark_ended k now r)
unfolding mark_ended
mark_ended-Once id k now r o = go (lookup k r.sessions) refl
  where
    go : (x : Option Session) → lookup k r.sessions ≡ x → Once id (mark_found k now r x)
    go none e = o
    go (some s) e =
        let same = IsKeyed-lookup k r.sessions s o.keyed e in
        if_cases (Once id) (already_ended k r) _ _ (λ t. o)
          (λ fresh.
            first_end-Once id k _ ended_implicit "" _ r same
              (IsKeyed-insert k _ r.sessions same o.keyed) fresh o)

sweep_heartbeats-Once :
    (id : String) (now timeout : ℕ) (r : Registry)
    → Once id r
    → Once id (sweep_heartbeats now timeout r).0
unfolding sweep_heartbeats
sweep_heartbeats-Once id now timeout r o =
    let q = sweep now timeout r.sessions in
    record {
      keyed = IsKeyed-sweep now timeout r.sessions o.keyed;
      once =
          if_rule (λ (cs : List Call). ended_calls id cs ≤ (if already_ended id r then 1 else 0))
            r.hooks.has_state_change _ _
            (omega (
              arith,
              o.once,
              ended_calls-append id r.calls q.2,
              sweep_calls id now timeout r.sessions,
            ))
            o.once;
    }

step-Once : (id : String) (op : Op) (r : Registry) → Once id r → Once id (step op r)
unfolding step event reap_ended
step-Once id (registering s now) r o = register-Once id s now r o
step-Once id (beating k ts) r o = update_heartbeat-Once id k ts r o
step-Once id (sending k b) r o = invoke-Once id r.hooks.has_event (on_event k b) r refl o
step-Once id (removing k reason now) r o = remove_with_reason-Once id k reason now r o
step-Once id (marking k now) r o = mark_ended-Once id k now r o
step-Once id (sweeping now timeout) r o = sweep_heartbeats-Once id now timeout r o
step-Once id (reaping now ttl) r o =
    sessions-Once id _ r (IsKeyed-reap now ttl r.sessions o.keyed) o

run-Once : (id : String) (ops : List Op) (r : Registry) → Once id r → Once id (run ops r)
unfolding run
run-Once id [] r o = o
run-Once id (op ∷ ops) r o = run-Once id ops (step op r) (step-Once id op r o)

at_most_one : (b : Bool) (n : ℕ) → n ≤ (if b then 1 else 0) → n ≤ 1
at_most_one true n h = h
at_most_one false n h = omega (arith, h)

-- However the methods of a new registry are called, OnEnded is called at most once with a session
-- of a given id, and never before that id is marked as ended.
pub ends_once :
    (id : String) (hooks : Hooks) (ops : List Op)
    → let r = run ops (new_registry hooks) in
      (ended_calls id r.calls ≤ 1) × (already_ended id r ≡ false → ended_calls id r.calls ≡ 0)
unfolding new_registry
ends_once id hooks ops =
    let r = run ops (new_registry hooks) in
    let o = run-Once id ops (new_registry hooks) (record { keyed = tt; once = omega arith }) in
    (at_most_one (already_ended id r) _ o.once, λ e. none_called r o e)
  where
    none_called :
        (r : Registry) → Once id r → already_ended id r ≡ false → ended_calls id r.calls ≡ 0
    none_called r o e = let le : ended_calls id r.calls ≤ 0 = rw e at o.once in omega (arith, le)
