-- ===== src/Daemon/Socket/Ends.antt =====
-- How a connection ends, and what becomes of its session.
use pi_remote.Prelude.{
  ◌==◌, Bool-cases, inl, inr, delete, if_rule, ◌∙◌, ℕ, ◌≡◌, refl, String, str_eq, Bool, true, false,
  Option, none, some, List, [], ◌∷◌, lookup, insert, string_eq, lookup-insert_self, lookup-delete,
  eq_iff, if◌then◌else◌, arith,
}
use pi_remote.Daemon.Registry.{
  SessionState, running, ended, Session, Registry, Call, on_event, on_register, invoke, store,
  stamped, register_over, register, already_ended, update_heartbeat, event, remove_found,
  remove_with_reason, mark_ended,
}
use pi_remote.Daemon.Socket.{
  RegisterFrame, Decoder, Resolver, resolve, ack_of, session_of, beat, leave, dispatch_as, dispatch,
  read, handle_register, close, serve,
}

-- The end of the input, a disconnect frame, or a frame that does not decode.
pub data Exit : Type 0 where
  eof left broken : Exit

abbrev pub after_beat : Exit → Option ℕ → Exit
after_beat rest none = broken
after_beat rest (some ts) = rest

abbrev pub after_leave : Option String → Exit
after_leave none = broken
after_leave (some reason) = left

abbrev pub exit_as : Decoder → List ℕ → Exit → Option String → Exit
exit_as decoder line rest none = broken
exit_as decoder line rest (some type) =
    if str_eq type "heartbeat"
    then after_beat rest (decoder.heartbeat_of line)
    else if str_eq type "event"
    then rest
    else if str_eq type "disconnect"
    then after_leave (decoder.disconnect_of line)
    else rest

-- What ends a connection whose session stays stored, read off its frames.
abbrev pub exit_of : Decoder → List (ℕ × List ℕ) → Exit
exit_of decoder [] = eof
exit_of decoder ((now, line) ∷ lines) =
    exit_as decoder line (exit_of decoder lines) (decoder.type_of line)

pub record Stored (id : String) (state : SessionState) (r : Registry) : Type 0 where
  pub session : Session
  pub found : lookup id r.sessions ≡ some session
  pub in_state : session.state ≡ state

abbrev pub Outcome : String → Exit → Registry → Type 0
Outcome id eof r = Stored id ended r
Outcome id left r = lookup id r.sessions ≡ none
Outcome id broken r = Stored id running r × (already_ended id r ≡ false)

record Open (id : String) (r : Registry) : Type 0 where
  stored : Stored id running r
  unmarked : already_ended id r ≡ false

opened :
    (id : String) (r : Registry) (s : Session)
    → lookup id r.sessions ≡ some s
    → s.state ≡ running
    → already_ended id r ≡ false
    → Open id r
opened id r s e f u = record {
  stored = record { session = s; found = e; in_state = f };
  unmarked = u;
}

invoke-Open :
    (id : String) (installed : Bool) (call : Call) (r : Registry)
    → Open id r
    → Open id (invoke installed call r)
invoke-Open id true call r h =
    opened id _ h.stored.session h.stored.found h.stored.in_state h.unmarked
invoke-Open id false call r h = h

update_heartbeat-Open :
    (id : String) (ts : ℕ) (r : Registry)
    → Open id r
    → Open id (update_heartbeat id ts r).0 × ((update_heartbeat id ts r).1 ≡ true)
unfolding update_heartbeat
update_heartbeat-Open id ts r h =
    let s = h.stored.session in
    let s' = record s { last_heartbeat = ts; state = running } in
    let kept : Open id (record r { sessions = insert id s' r.sessions }) =
      opened id _ s' (lookup-insert_self id s' r.sessions) refl h.unmarked in
    rw (h.stored.found, h.stored.in_state) (invoke-Open id r.hooks.has_heartbeat _ _ kept, refl)

event-Open : (id : String) (line : List ℕ) (r : Registry) → Open id r → Open id (event id line r)
unfolding event
event-Open id line r h = invoke-Open id r.hooks.has_event (on_event id line) r h

mark_ended-Stored :
    (id : String) (now : ℕ) (r : Registry) → Open id r → Stored id ended (mark_ended id now r)
unfolding mark_ended
mark_ended-Stored id now r h =
    let s' = record h.stored.session { state = ended; ended_at = now } in
    let kept : (z : Registry) → z.sessions ≡ insert id s' r.sessions → Stored id ended z = λ z e.
      record {
        session = s';
        found = rw e (lookup-insert_self id s' r.sessions);
        in_state = refl;
      } in
    rw (h.stored.found, h.unmarked)
      (if_rule (λ (z : Registry). Stored id ended z) r.hooks.has_ended _ _ (kept _ refl)
        (kept _ refl))

removed :
    (id reason : String) (now : ℕ) (r : Registry)
    → lookup id (remove_with_reason id reason now r).sessions ≡ none
unfolding remove_with_reason
removed id reason now r = go (lookup id r.sessions) refl
  where
    gone : lookup id (delete id r.sessions) ≡ none
    gone = lookup-delete id id r.sessions ∙ rw ((eq_iff id id).1 refl)

    go :
        (x : Option Session)
        → lookup id r.sessions ≡ x
        → lookup id (remove_found id reason now r x).sessions ≡ none
    go none e = e
    go (some s) e = ground (arith, gone)

module _ (decoder : Decoder) (id : String) (closed : ℕ) where
  module _ (now : ℕ) (line : List ℕ) (lines : List (ℕ × List ℕ)) (r : Registry)
      (h : Open id r) where
    beat_ends :
        (ts : Option ℕ)
        → ((r' : Registry)
            → Open id r'
            → Outcome id (exit_of decoder lines) (close id closed (read decoder id lines r')))
        → let d = beat id r ts in
          let rest = read decoder id lines d.0 in
          Outcome id
            (after_beat (exit_of decoder lines) ts)
            (close id closed (if d.1 then (d.0, true) else rest))
    beat_ends none ih = (h.stored, h.unmarked)
    beat_ends (some ts) ih =
        let (kept, known) = update_heartbeat-Open id ts r h in rw known (ih _ kept)

    leave_ends :
        (reason : Option String)
        → let d = leave id now r reason in
          let rest = read decoder id lines d.0 in
          Outcome id (after_leave reason) (close id closed (if d.1 then (d.0, true) else rest))
    leave_ends none = (h.stored, h.unmarked)
    leave_ends (some reason) = removed id reason now r

    step_ends :
        (type : Option String)
        → ((r' : Registry)
            → Open id r'
            → Outcome id (exit_of decoder lines) (close id closed (read decoder id lines r')))
        → let d = dispatch_as decoder id now line r type in
          let rest = read decoder id lines d.0 in
          Outcome id
            (exit_as decoder line (exit_of decoder lines) type)
            (close id closed (if d.1 then (d.0, true) else rest))
    step_ends none ih = (h.stored, h.unmarked)
    step_ends (some type) ih = elim (Bool-cases (str_eq type "heartbeat")) [
      | inl e ↦ rw e (beat_ends (decoder.heartbeat_of line) ih)
      | inr e ↦ elim (Bool-cases (str_eq type "event")) [
        | inl f ↦ rw (e, f) (ih _ (event-Open id line r h))
        | inr f ↦ elim (Bool-cases (str_eq type "disconnect")) [
          | inl g ↦ rw (e, f, g) (leave_ends (decoder.disconnect_of line))
          | inr g ↦ rw (e, f, g) (ih r h)
        ]
      ]
    ]

  read_ends :
      (lines : List (ℕ × List ℕ)) (r : Registry)
      → Open id r
      → Outcome id (exit_of decoder lines) (close id closed (read decoder id lines r))
  unfolding read dispatch
  read_ends [] r h = mark_ended-Stored id closed r h
  read_ends ((now, line) ∷ lines) r h =
      step_ends now line lines r h (decoder.type_of line) (read_ends lines)

register_over-Open :
    (s : Session) (r : Registry) (x : Option Session)
    → s.state ≡ running
    → already_ended s.session_id r ≡ false
    → (register_over s r x).1 ≡ true
    → Open s.session_id (register_over s r x).0
register_over-Open s r x e u h =
    let kept =
      opened s.session_id (store s r) s (lookup-insert_self s.session_id s r.sessions) e u in
    go x h kept
  where
    go :
        (x : Option Session)
        → (register_over s r x).1 ≡ true
        → Open s.session_id (store s r)
        → Open s.session_id (register_over s r x).0
    go none h kept = invoke-Open s.session_id r.hooks.has_register (on_register s) (store s r) kept
    go (some existing) h kept = elim (Bool-cases (existing.pid == s.pid)) [
      | inl p ↦ rw p kept
      | inr p ↦ absurd (ground arith)
    ]

-- A connection whose registration is accepted, with an id that is not marked as ended, while the
-- acknowledgement can be written and nothing else changes the registry: it is acknowledged; if its
-- input ends, its session has ended afterwards; if it disconnects, the session is no longer
-- stored; and if a frame does not decode, the session stays stored as running and is not marked as
-- ended, although the connection is gone.
pub serve_ends :
    {P : Type 0} (decoder : Decoder) (tmux : Option (Resolver P)) (p : P) (now closed : ℕ)
    (line : List ℕ) (lines : List (ℕ × List ℕ)) (r : Registry) (reg : RegisterFrame)
    → decoder.type_of line ≡ some "register"
    → decoder.register_of line ≡ some reg
    → already_ended reg.session_id r ≡ false
    → (register (session_of (resolve tmux reg r p).1 reg) now r).1 ≡ true
    → let q = serve decoder tmux true ((now, line) ∷ lines) closed r p in
      Outcome reg.session_id (exit_of decoder lines) q.0
      × (q.1 ≡ ack_of reg.session_id true "" ∷ [])
unfolding serve handle_register register
serve_ends decoder tmux p now closed line lines r reg typed decoded unmarked accepted =
    let s = stamped now (session_of (resolve tmux reg r p).1 reg) in
    let started = register_over-Open s r (lookup s.session_id r.sessions) refl unmarked accepted in
    rw (typed, decoded, accepted) (read_ends decoder reg.session_id closed lines _ started, refl)
