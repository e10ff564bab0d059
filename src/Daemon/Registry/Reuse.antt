-- ===== src/Daemon/Registry/Reuse.antt =====
-- A session id that is registered again after its end.
use pi_remote.Prelude.{
  ℕ, ◌≡◌, refl, String, true, Option, none, some, lookup, string_eq, lookup-insert_self, if_rule,
  arith,
}
use pi_remote.Daemon.Registry.{
  Session, on_register, Registry, invoke, stamped, store, register, already_ended, remove_found,
  remove_with_reason, mark_found, mark_ended,
}

pub stamped_id : (now : ℕ) (s : Session) → (stamped now s).session_id ≡ s.session_id
stamped_id now s = ground arith

mark_ended_no_op :
    (id : String) (now : ℕ) (r : Registry) → already_ended id r ≡ true → mark_ended id now r ≡ r
unfolding mark_ended
mark_ended_no_op id now r e = go (lookup id r.sessions)
  where
    go : (x : Option Session) → mark_found id now r x ≡ r
    go none = refl
    go (some s) = rw e

remove_silent :
    (id reason : String) (now : ℕ) (r : Registry)
    → already_ended id r ≡ true
    → (remove_with_reason id reason now r).calls ≡ r.calls
unfolding remove_with_reason
remove_silent id reason now r e = go (lookup id r.sessions)
  where
    go : (x : Option Session) → (remove_found id reason now r x).calls ≡ r.calls
    go none = refl
    go (some s) = rw e

-- An id that is marked as ended and no longer stored may be registered again, and is stored. But
-- its mark stays: whatever ends the new session then, `MarkEnded` changes nothing, and neither
-- `MarkEnded` nor `RemoveWithReason` calls OnEnded.
pub register_ended :
    (s : Session) (now : ℕ) (r : Registry)
    → lookup s.session_id r.sessions ≡ none
    → already_ended s.session_id r ≡ true
    → let q = register s now r in
      (q.1 ≡ true)
      × (lookup s.session_id q.0.sessions ≡ some (stamped now s))
      × ((now' : ℕ) → mark_ended s.session_id now' q.0 ≡ q.0)
      × ((reason : String) (now' : ℕ)
          → (remove_with_reason s.session_id reason now' q.0).calls ≡ q.0.calls)
unfolding register
register_ended s now r fresh marked =
    let installed = r.hooks.has_register in
    let call = on_register (stamped now s) in
    let r' = store (stamped now s) r in
    let found : lookup s.session_id r'.sessions ≡ some (stamped now s) =
      rw (stamped_id now s) (lookup-insert_self s.session_id (stamped now s) r.sessions) in
    let still : already_ended s.session_id (invoke installed call r') ≡ true =
      if_rule (λ (z : Registry). already_ended s.session_id z ≡ true) installed _ _ marked marked in
    rw (stamped_id now s, fresh)
      (
        refl,
        if_rule (λ (z : Registry). lookup s.session_id z.sessions ≡ some (stamped now s)) installed
            _ _ found found,
        λ now'. mark_ended_no_op s.session_id now' (invoke installed call r') still,
        λ reason now'. remove_silent s.session_id reason now' (invoke installed call r') still,
      )
