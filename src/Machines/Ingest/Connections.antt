-- ===== src/Machines/Ingest/Connections.antt =====
-- What the handlers do to the states of the daemon connections.
use pi_remote.Prelude.{
  ℕ, ◌≡◌, refl, sym, subst, ◌∙◌, ◌⊎◌, inl, inr, String, Bool, true, false, not, ◌&&◌, Option, none,
  some, ap, arith, lookup, insert, string_eq, nat_eq, Bool-cases, if_rule, lookup-insert_self,
  lookup-insert, Map, ◌==◌, ==_iff,
}
use pi_remote.Broker.Ring.{EntryKind}
use pi_remote.Broker.Lru.{Floats}
use pi_remote.Sessions.Channels.{Bytes}
use pi_remote.Sessions.Session.{State, Session}
use pi_remote.Sessions.Registry.{Encoder}
use pi_remote.Machines.Registry.{Conn}
use pi_remote.Machines.Frames.{Decoder, FrameType, EventKind, MachineRegister}
use pi_remote.Machines.Ingest.{
  ConnState, Ingestor, state_of, state_for, notify_change, notify_push, push_event_reason,
  found_state,
}
use pi_remote.Machines.Ingest.Handle.{
  decoded, broadcast_known, handle_machine_register, handle_session_started, publish_newer,
  notify_reason, handle_session_event, handle_session_pty, forward_state_change, notify_state,
  handle_session_state_change, handle_session_ended, handle_session_resume,
  handle_machine_suspending, handle_spawn_response, dispatch, is_register,
}

-- The states of the connections.
abbrev States : Type 0
States = Map Conn ConnState

notify_change-conn_state : (i : Ingestor) → (notify_change i).conn_state ≡ i.conn_state
unfolding notify_change
notify_change-conn_state i = ground arith

notify_push-conn_state :
    (id reason summary : String) (i : Ingestor)
    → (notify_push id reason summary i).conn_state ≡ i.conn_state
unfolding notify_push
notify_push-conn_state id reason summary i = ground arith

notify_state-conn_state :
    (id : String) (s : State) (i : Ingestor) → (notify_state id s i).conn_state ≡ i.conn_state
unfolding notify_state
notify_state-conn_state id State.idle i = notify_push-conn_state id _ _ i
notify_state-conn_state id State.unresponsive i = notify_push-conn_state id _ _ i
notify_state-conn_state id _ i = refl

broadcast_known-conn_state :
    (raw : Bytes) (i : Ingestor) (s : Option Session)
    → (broadcast_known raw i s).conn_state ≡ i.conn_state
broadcast_known-conn_state raw i none = refl
broadcast_known-conn_state raw i (some s) = refl

decoded-conn_state {ℓ} :
    {A : Type ℓ} (o : Option A) (i : Ingestor) (f : A → Ingestor) (m : States)
    → i.conn_state ≡ m
    → ((x : A) → (f x).conn_state ≡ m)
    → (decoded o i f).0.conn_state ≡ m
decoded-conn_state none i f m e h = e
decoded-conn_state (some x) i f m e h = h x

decoded_rule {ℓ} :
    {A : Type ℓ} (P : Ingestor → Type 0) (o : Option A) (i : Ingestor) (f : A → Ingestor)
    → P i
    → ((x : A) → P (f x))
    → P (decoded o i f).0
decoded_rule P none i f e h = e
decoded_rule P (some x) i f e h = h x

decoded_ok {ℓ} :
    {A : Type ℓ} (o : Option A) (i : Ingestor) (f : A → Ingestor)
    → (decoded o i f).1 ≡ none
    → (x : A) × (o ≡ some x)
decoded_ok none i f e = cc
decoded_ok (some x) i f e = (x, refl)

-- `stateFor` adds an entry that says nothing new.
pub state_of-state_for :
    (c conn : Conn) (i : Ingestor) → state_of c (state_for conn i) ≡ state_of c i
unfolding state_for
state_of-state_for c conn i =
    ap found_state (lookup-insert conn c (state_of conn i) i.conn_state)
    ∙ elim (Bool-cases (conn == c)) [
      | inl t ↦ rw t (ap (λ x. state_of x i) ((==_iff conn c).0 t))
      | inr f ↦ rw f
    ]

register_type : (t : FrameType) → is_register t ≡ true → t ≡ FrameType.machine_register
register_type FrameType.machine_register e = refl
register_type FrameType.session_started e = cc
register_type FrameType.session_event e = cc
register_type FrameType.session_pty e = cc
register_type FrameType.session_state_change e = cc
register_type FrameType.session_ended e = cc
register_type FrameType.session_resume e = cc
register_type FrameType.spawn_response e = cc
register_type FrameType.machine_suspending e = cc
register_type FrameType.unknown e = cc

pub passes : (r t : Bool) → (not r && not t) ≡ false → (r ≡ true) ⊎ (t ≡ true)
passes true t e = inl refl
passes false true e = inr refl
passes false false e = cc

unfoldable pub IsRegistered : Conn → Map Conn ConnState → Type 0
IsRegistered c m = (found_state (lookup c m)).registered ≡ true

insert-IsRegistered :
    (conn c : Conn) (id : String) (m : Map Conn ConnState)
    → IsRegistered c m
    → IsRegistered c (insert conn (record { registered = true; machine_id = id }) m)
unfolding IsRegistered
insert-IsRegistered conn c id m e = elim (Bool-cases (conn == c)) [
  | inl t ↦ rw (lookup-insert conn c _ m, t)
  | inr f ↦ rw (lookup-insert conn c _ m, f) e
]

module _ (dec : Decoder) (enc : Encoder) (fl : Floats) (now : ℕ) where
  publish_newer-conn_state :
      (id : String) (seq : ℕ) (kind : EntryKind) (ts : ℕ) (b : Bytes) (i : Ingestor)
      → (publish_newer dec enc fl now id seq kind ts b i).0.conn_state ≡ i.conn_state
  unfolding publish_newer
  publish_newer-conn_state id seq kind ts b i =
      if_rule (λ (z : Ingestor × Bool). z.0.conn_state ≡ i.conn_state) _ _ _ refl refl

  notify_reason-conn_state :
      (id : String) (kind : EventKind) (b : Bytes) (i : Ingestor) (o : Option String)
      → (notify_reason dec enc fl now id kind b i o).conn_state ≡ i.conn_state
  notify_reason-conn_state id kind b i none = refl
  notify_reason-conn_state id kind b i (some reason) = notify_push-conn_state id reason _ i

  -- A machine_register frame that is accepted binds the connection to the machine.
  handle_machine_register-conn_state :
      (conn : Conn) (b : Bytes) (i : Ingestor)
      → (handle_machine_register dec enc fl now conn b i).1 ≡ none
      → (m : MachineRegister) × (dec.machine_register b ≡ some m)
        × ((handle_machine_register dec enc fl now conn b i).0.conn_state
            ≡ insert conn (record { registered = true; machine_id = m.machine_id }) i.conn_state)
  unfolding handle_machine_register
  handle_machine_register-conn_state conn b i e =
      let (m, d) = decoded_ok (dec.machine_register b) i _ e in
      (m, d, rw d (notify_change-conn_state _))

  -- No other frame touches the states of the connections.
  dispatch-conn_state :
      (t : FrameType) (conn : Conn) (st : ConnState) (b : Bytes) (i : Ingestor)
      → is_register t ≡ false
      → (dispatch dec enc fl now t conn st b i).0.conn_state ≡ i.conn_state
  unfolding dispatch handle_session_started handle_session_event handle_session_pty
      handle_session_state_change forward_state_change handle_session_ended handle_session_resume
      handle_spawn_response handle_machine_suspending
  dispatch-conn_state FrameType.machine_register conn st b i e = cc
  dispatch-conn_state FrameType.session_started conn st b i e =
      decoded-conn_state (dec.session_started b) i _ _ refl λ m. notify_change-conn_state _
  dispatch-conn_state FrameType.session_event conn st b i e =
      decoded-conn_state (dec.session_event b) i _ _ refl λ m.
        let j = publish_newer dec enc fl now m.session_id m.seq EntryKind.event m.ts b i in
        let same = publish_newer-conn_state m.session_id m.seq EntryKind.event m.ts b i in
        if_rule (λ (z : Ingestor). z.conn_state ≡ i.conn_state) j.1 _ _
          (notify_reason-conn_state m.session_id m.kind b j.0 (push_event_reason m.kind) ∙ same)
          same
  dispatch-conn_state FrameType.session_pty conn st b i e =
      decoded-conn_state (dec.session_pty b) i _ _ refl
        λ m. publish_newer-conn_state m.session_id m.seq EntryKind.pty m.ts b i
  dispatch-conn_state FrameType.session_state_change conn st b i e =
      decoded-conn_state (dec.session_state_change b) i _ _ refl λ m.
        notify_change-conn_state _
        ∙ notify_state-conn_state m.session_id m.to _
        ∙ broadcast_known-conn_state _ _ _
  dispatch-conn_state FrameType.session_ended conn st b i e =
      decoded-conn_state (dec.session_ended b) i _ _ refl λ m.
        notify_change-conn_state _
        ∙ notify_push-conn_state m.session_id _ _ _
        ∙ broadcast_known-conn_state _ _ _
  dispatch-conn_state FrameType.session_resume conn st b i e =
      decoded-conn_state (dec.session_resume b) i _ _ refl λ m. notify_change-conn_state _
  dispatch-conn_state FrameType.spawn_response conn st b i e =
      decoded-conn_state (dec.spawn_response b) i _ _ refl
        λ m. if_rule (λ (z : Ingestor). z.conn_state ≡ i.conn_state) i.has_spawn _ _ refl refl
  dispatch-conn_state FrameType.machine_suspending conn st b i e = notify_change-conn_state _
  dispatch-conn_state FrameType.unknown conn st b i e = refl

  register_keeps :
      (conn c : Conn) (b : Bytes) (i : Ingestor)
      → IsRegistered c i.conn_state
      → IsRegistered c (handle_machine_register dec enc fl now conn b i).0.conn_state
  unfolding handle_machine_register
  register_keeps conn c b i e =
      decoded_rule (λ (z : Ingestor). IsRegistered c z.conn_state) (dec.machine_register b) i _ e
        λ m.
          subst (IsRegistered c) (sym (notify_change-conn_state _))
            (insert-IsRegistered conn c m.machine_id i.conn_state e)

  pub dispatch_keeps :
      (t : FrameType) (conn c : Conn) (st : ConnState) (b : Bytes) (i : Ingestor)
      → IsRegistered c i.conn_state
      → IsRegistered c (dispatch dec enc fl now t conn st b i).0.conn_state
  unfolding dispatch
  dispatch_keeps t conn c st b i known = elim (Bool-cases (is_register t)) [
    | inl e ↦ rw (register_type t e) (register_keeps conn c b i known)
    | inr e ↦ subst (IsRegistered c) (sym (dispatch-conn_state t conn st b i e)) known
  ]

  pub dispatch_admits :
      (t : FrameType) (conn : Conn) (st : ConnState) (b : Bytes) (i : Ingestor)
      → IsRegistered conn i.conn_state ⊎ (is_register t ≡ true)
      → (dispatch dec enc fl now t conn st b i).1 ≡ none
      → IsRegistered conn (dispatch dec enc fl now t conn st b i).0.conn_state
  unfolding dispatch IsRegistered
  dispatch_admits t conn st b i (inl known) e = dispatch_keeps t conn conn st b i known
  dispatch_admits t conn st b i (inr r) e =
      let same = register_type t r in
      let (m, _, eq) = handle_machine_register-conn_state conn b i (rw same at e) in
      rw (same, eq, lookup-insert_self conn _ i.conn_state)
