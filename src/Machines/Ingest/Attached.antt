-- ===== src/Machines/Ingest/Attached.antt =====
-- What a daemon's frame can do to the connections that are attached to the sessions: they stay, or
-- the session is registered anew and has none.
use pi_remote.Prelude.{
  ℕ, ◌≡◌, sym, subst, ◌∙◌, String, Bool, Option, none, some, [], Map, string_eq, nat_eq, if_rule,
}
use pi_remote.Broker.Ring.{EntryKind, event, pty}
use pi_remote.Broker.Lru.{Floats}
use pi_remote.Sessions.Channels.{Bytes, ClientConn}
use pi_remote.Sessions.Session.{State, Session}
use pi_remote.Sessions.Registry
use pi_remote.Sessions.Registry.{Encoder}
use pi_remote.Sessions.Registry.Attached.{
  AllAttached, advance_seq-AllAttached, restore_last_seq-AllAttached, set_state-AllAttached,
  mark_ended-AllAttached, register-AllAttached, publish_to-AllAttached,
  pause_all_for_machine-AllAttached,
}
use pi_remote.Machines.Registry.{Conn}
use pi_remote.Machines.Frames.{
  Decoder, FrameType, SessionResume, frame_type, looks_like_json_object,
}
use pi_remote.Machines.Ingest.{ConnState, Ingestor, state_for, push_event_reason}
use pi_remote.Machines.Ingest.Handle.{
  Outcome, decoded, handle_machine_register, handle_session_started, publish_newer,
  handle_session_event, handle_session_pty, forward_state_change, handle_session_state_change,
  handle_session_ended, resume_in, handle_session_resume, handle_machine_suspending,
  handle_spawn_response, dispatch, gated, handle_head, handle,
}
use pi_remote.Machines.Ingest.Evolves.{
  notify_change-sessions, notify_push-sessions, notify_state-sessions, broadcast_known-sessions,
  notify_reason-sessions,
}

module _ (P : String → Map String ClientConn → Type 0) (empty : (k : String) → P k [])
    (dec : Decoder) (enc : Encoder) (fl : Floats) (now : ℕ) where
  -- `P` holds of the sessions of a state.
  abbrev Holds : Registry.Registry → Type 0
  Holds r = AllAttached P r.sessions

  decoded-Holds {ℓ} :
      {A : Type ℓ} (o : Option A) (i : Ingestor) (f : A → Ingestor)
      → Holds i.sessions
      → ((m : A) → Holds (f m).sessions)
      → Holds (decoded o i f).0.sessions
  decoded-Holds none i f all h = all
  decoded-Holds (some m) i f all h = h m

  same : (r r' : Registry.Registry) → r' ≡ r → Holds r → Holds r'
  same r r' e = subst Holds (sym e)

  publish_newer-Holds :
      (id : String) (seq : ℕ) (kind : EntryKind) (ts : ℕ) (b : Bytes) (i : Ingestor)
      → Holds i.sessions
      → Holds (publish_newer dec enc fl now id seq kind ts b i).0.sessions
  unfolding publish_newer
  publish_newer-Holds id seq kind ts b i all =
      let next = advance_seq-AllAttached P empty i.sessions all id seq now in
      if_rule (λ (z : Ingestor × Bool). Holds z.0.sessions) _ _ _
        (publish_to-AllAttached P empty _ next fl id _ now i.channels) next

  handle_session_event-Holds :
      (b : Bytes) (i : Ingestor)
      → Holds i.sessions
      → Holds (handle_session_event dec enc fl now b i).0.sessions
  unfolding handle_session_event
  handle_session_event-Holds b i all = decoded-Holds (dec.session_event b) i _ all λ m.
      let j = publish_newer dec enc fl now m.session_id m.seq event m.ts b i in
      let done = publish_newer-Holds m.session_id m.seq event m.ts b i all in
      if_rule (λ (z : Ingestor). Holds z.sessions) j.1 _ _
        (same j.0.sessions _
          (notify_reason-sessions dec enc fl now m.session_id m.kind b j.0
            (push_event_reason m.kind))
          done)
        done

  handle_session_state_change-Holds :
      (b : Bytes) (i : Ingestor)
      → Holds i.sessions
      → Holds (handle_session_state_change dec enc fl now b i).0.sessions
  unfolding handle_session_state_change forward_state_change
  handle_session_state_change-Holds b i all =
      decoded-Holds (dec.session_state_change b) i _ all λ m.
        same _ _
          (notify_change-sessions _
            ∙ notify_state-sessions m.session_id m.to _
            ∙ broadcast_known-sessions _ _ _)
          (advance_seq-AllAttached P empty _
            (set_state-AllAttached P empty i.sessions all m.session_id m.to now) m.session_id m.seq
            now)

  handle_session_ended-Holds :
      (b : Bytes) (i : Ingestor)
      → Holds i.sessions
      → Holds (handle_session_ended dec enc fl now b i).0.sessions
  unfolding handle_session_ended
  handle_session_ended-Holds b i all = decoded-Holds (dec.session_ended b) i _ all λ m.
      same _ _
        (notify_change-sessions _
          ∙ notify_push-sessions m.session_id _ _ _
          ∙ broadcast_known-sessions _ _ _)
        (mark_ended-AllAttached P empty _
          (advance_seq-AllAttached P empty i.sessions all m.session_id m.seq now) m.session_id now)

  resume_in-Holds :
      (st : ConnState) (m : SessionResume) (i : Ingestor) (o : Option Session)
      → Holds i.sessions
      → Holds (resume_in dec enc fl now st m i.sessions o)
  resume_in-Holds st m i (some s) all =
      restore_last_seq-AllAttached P empty _
        (set_state-AllAttached P empty i.sessions all m.session_id State.running now) m.session_id
        m.last_seq_emitted now
  resume_in-Holds st m i none all =
      restore_last_seq-AllAttached P empty _
        (register-AllAttached P empty i.sessions all m.session_id st.machine_id _ now) m.session_id
        m.last_seq_emitted now

  dispatch-Holds :
      (t : FrameType) (conn : Conn) (st : ConnState) (b : Bytes) (i : Ingestor)
      → Holds i.sessions
      → Holds (dispatch dec enc fl now t conn st b i).0.sessions
  unfolding dispatch handle_machine_register handle_session_started handle_session_pty
      handle_session_resume handle_machine_suspending handle_spawn_response
  dispatch-Holds FrameType.machine_register conn st b i all =
      decoded-Holds (dec.machine_register b) i _ all λ m. same _ _ (notify_change-sessions _) all
  dispatch-Holds FrameType.session_started conn st b i all =
      decoded-Holds (dec.session_started b) i _ all λ m.
        same _ _ (notify_change-sessions _)
          (register-AllAttached P empty i.sessions all m.session_id m.machine_id m.metadata now)
  dispatch-Holds FrameType.session_event conn st b i all = handle_session_event-Holds b i all
  dispatch-Holds FrameType.session_pty conn st b i all =
      decoded-Holds (dec.session_pty b) i _ all
        λ m. publish_newer-Holds m.session_id m.seq pty m.ts b i all
  dispatch-Holds FrameType.session_state_change conn st b i all =
      handle_session_state_change-Holds b i all
  dispatch-Holds FrameType.session_ended conn st b i all = handle_session_ended-Holds b i all
  dispatch-Holds FrameType.session_resume conn st b i all =
      decoded-Holds (dec.session_resume b) i _ all
        λ m. same _ _ (notify_change-sessions _) (resume_in-Holds st m i _ all)
  dispatch-Holds FrameType.spawn_response conn st b i all =
      decoded-Holds (dec.spawn_response b) i _ all
        λ m. if_rule (λ (z : Ingestor). Holds z.sessions) i.has_spawn _ _ all all
  dispatch-Holds FrameType.machine_suspending conn st b i all =
      same _ _ (notify_change-sessions _)
        (pause_all_for_machine-AllAttached P empty i.sessions all enc st.machine_id now i.channels)
  dispatch-Holds FrameType.unknown conn st b i all = all

  gated-Holds :
      (conn : Conn) (t : FrameType) (b : Bytes) (i : Ingestor)
      → Holds i.sessions
      → Holds (gated dec enc fl now conn t b i).0.sessions
  unfolding gated state_for
  gated-Holds conn t b i all =
      if_rule (λ (o : Outcome). Holds o.0.sessions) _ _ _ all (dispatch-Holds t conn _ b _ all)

  pub handle-AllAttached :
      (conn : Conn) (b : Bytes) (i : Ingestor)
      → AllAttached P i.sessions.sessions
      → AllAttached P (handle dec enc fl now conn b i).0.sessions.sessions
  unfolding handle
  handle-AllAttached conn b i all = go (dec.head b)
    where
      go : (o : Option String) → Holds (handle_head dec enc fl now conn b i o).0.sessions
      go none = all
      go (some t) =
          if_rule (λ (o : Outcome). Holds o.0.sessions) (looks_like_json_object b) _ _
            (gated-Holds conn (frame_type t) b i all) all
