-- ===== src/Machines/Ingest/Seen.antt =====
-- What a daemon's frame leaves of the number that a session has come to, unless it starts the session
-- anew.
use pi_remote.Prelude.{
  ℕ, ◌≡◌, refl, sym, subst, ◌∙◌, String, str_eq, eq_iff, Bool, false, Option, none, some, string_eq,
  nat_eq, lookup, if_rule, inl, inr, Bool-cases,
}
use pi_remote.Broker.Ring.{EntryKind, event, pty}
use pi_remote.Broker.Lru.{Floats}
use pi_remote.Sessions.Channels.{Bytes}
use pi_remote.Sessions.Session.{State, Session}
use pi_remote.Sessions.Registry
use pi_remote.Sessions.Registry.{Encoder}
use pi_remote.Sessions.Registry.Seen.{
  AtLeast, Seen, advance_seq-Seen, restore_last_seq-Seen, set_state-Seen, mark_ended-Seen,
  register-Seen, publish_to-Seen, pause_all_for_machine-Seen,
}
use pi_remote.Machines.Registry.{Conn}
use pi_remote.Machines.Frames.{
  Decoder, FrameType, SessionResume, SessionStarted, frame_type, looks_like_json_object,
}
use pi_remote.Machines.Ingest.{ConnState, Ingestor, notify_change, state_for, push_event_reason}
use pi_remote.Machines.Ingest.Handle.{
  Outcome, decoded, with_sessions, handle_machine_register, handle_session_started, publish_newer,
  handle_session_event, handle_session_pty, forward_state_change, handle_session_state_change,
  handle_session_ended, resume_in, handle_session_resume, handle_machine_suspending,
  handle_spawn_response, dispatch, gated, handle_head, handle,
}
use pi_remote.Machines.Ingest.Evolves.{
  notify_change-sessions, notify_push-sessions, notify_state-sessions, broadcast_known-sessions,
  notify_reason-sessions,
}

abbrev IsOther : String → Option SessionStarted → Type 0
IsOther id none = Unit {0}
IsOther id (some m) = str_eq m.session_id id ≡ false

abbrev SparesAs : Decoder → String → Bytes → FrameType → Type 0
SparesAs dec id b FrameType.session_started = IsOther id (dec.session_started b)
SparesAs dec id b _ = Unit {0}

abbrev SparesHead : Decoder → String → Bytes → Option String → Type 0
SparesHead dec id b none = Unit {0}
SparesHead dec id b (some t) = SparesAs dec id b (frame_type t)

-- The frame is no session_started of the session `id`.
abbrev pub Spares : Decoder → String → Bytes → Type 0
Spares dec id b = SparesHead dec id b (dec.head b)

module _ (n : ℕ) (id : String) (dec : Decoder) (enc : Encoder) (fl : Floats) (now : ℕ) where
  abbrev Holds : Registry.Registry → Type 0
  Holds r = Seen n id r.sessions

  decoded-Holds {ℓ} :
      {A : Type ℓ} (o : Option A) (i : Ingestor) (f : A → Ingestor)
      → Holds i.sessions
      → ((m : A) → Holds (f m).sessions)
      → Holds (decoded o i f).0.sessions
  decoded-Holds none i f all h = all
  decoded-Holds (some m) i f all h = h m

  same : (r r' : Registry.Registry) → r' ≡ r → Holds r → Holds r'
  same r r' e = subst Holds (sym e)

  publish_newer-Holds :
      (k : String) (seq : ℕ) (kind : EntryKind) (ts : ℕ) (b : Bytes) (i : Ingestor)
      → Holds i.sessions
      → Holds (publish_newer dec enc fl now k seq kind ts b i).0.sessions
  unfolding publish_newer
  publish_newer-Holds k seq kind ts b i all =
      let next = advance_seq-Seen n id i.sessions all k seq now in
      if_rule (λ (z : Ingestor × Bool). Holds z.0.sessions) _ _ _
        (publish_to-Seen n id _ next fl k _ now i.channels) next

  pub handle_session_event-Holds :
      (b : Bytes) (i : Ingestor)
      → Holds i.sessions
      → Holds (handle_session_event dec enc fl now b i).0.sessions
  unfolding handle_session_event
  handle_session_event-Holds b i all = decoded-Holds (dec.session_event b) i _ all λ m.
      let j = publish_newer dec enc fl now m.session_id m.seq event m.ts b i in
      let done = publish_newer-Holds m.session_id m.seq event m.ts b i all in
      if_rule (λ (z : Ingestor). Holds z.sessions) j.1 _ _
        (same j.0.sessions _
          (notify_reason-sessions dec enc fl now m.session_id m.kind b j.0
            (push_event_reason m.kind))
          done)
        done

  handle_session_state_change-Holds :
      (b : Bytes) (i : Ingestor)
      → Holds i.sessions
      → Holds (handle_session_state_change dec enc fl now b i).0.sessions
  unfolding handle_session_state_change forward_state_change
  handle_session_state_change-Holds b i all =
      decoded-Holds (dec.session_state_change b) i _ all λ m.
        same _ _
          (notify_change-sessions _
            ∙ notify_state-sessions m.session_id m.to _
            ∙ broadcast_known-sessions _ _ _)
          (advance_seq-Seen n id _ (set_state-Seen n id i.sessions all m.session_id m.to now)
            m.session_id m.seq now)

  handle_session_ended-Holds :
      (b : Bytes) (i : Ingestor)
      → Holds i.sessions
      → Holds (handle_session_ended dec enc fl now b i).0.sessions
  unfolding handle_session_ended
  handle_session_ended-Holds b i all = decoded-Holds (dec.session_ended b) i _ all λ m.
      same _ _
        (notify_change-sessions _
          ∙ notify_push-sessions m.session_id _ _ _
          ∙ broadcast_known-sessions _ _ _)
        (mark_ended-Seen n id _ (advance_seq-Seen n id i.sessions all m.session_id m.seq now)
          m.session_id now)

  -- A session that is not known is not `id`.
  unknown :
      (k : String) (r : Registry.Registry)
      → lookup k r.sessions ≡ none
      → Holds r
      → str_eq k id ≡ false
  unknown k r e all = elim (Bool-cases (str_eq k id)) [
    | inl t ↦
        let gone : lookup id r.sessions ≡ none =
          subst (λ j. lookup j r.sessions ≡ none) ((eq_iff k id).0 t) e in
        absurd (subst (AtLeast n) gone all)
    | inr f ↦ f
  ]

  started-Holds :
      (o : Option SessionStarted) (i : Ingestor)
      → IsOther id o
      → Holds i.sessions
      → Holds
          (decoded o i λ m. notify_change (
            with_sessions i
              (Registry.register m.session_id m.machine_id m.metadata now i.sessions))).0.sessions
  started-Holds none i other all = all
  started-Holds (some m) i other all =
      same _ _ (notify_change-sessions _)
        (register-Seen n id i.sessions all m.session_id m.machine_id m.metadata now other)

  resume_in-Holds :
      (st : ConnState) (m : SessionResume) (i : Ingestor) (o : Option Session)
      → lookup m.session_id i.sessions.sessions ≡ o
      → Holds i.sessions
      → Holds (resume_in dec enc fl now st m i.sessions o)
  resume_in-Holds st m i (some s) e all =
      restore_last_seq-Seen n id _
        (set_state-Seen n id i.sessions all m.session_id State.running now) m.session_id
        m.last_seq_emitted now
  resume_in-Holds st m i none e all =
      restore_last_seq-Seen n id _
        (register-Seen n id i.sessions all m.session_id st.machine_id _ now
          (unknown m.session_id i.sessions e all))
        m.session_id m.last_seq_emitted now

  dispatch-Holds :
      (t : FrameType) (conn : Conn) (st : ConnState) (b : Bytes) (i : Ingestor)
      → SparesAs dec id b t
      → Holds i.sessions
      → Holds (dispatch dec enc fl now t conn st b i).0.sessions
  unfolding dispatch handle_machine_register handle_session_started handle_session_pty
      handle_session_resume handle_machine_suspending handle_spawn_response Registry.get
  dispatch-Holds FrameType.machine_register conn st b i sp all =
      decoded-Holds (dec.machine_register b) i _ all λ m. same _ _ (notify_change-sessions _) all
  dispatch-Holds FrameType.session_started conn st b i sp all =
      started-Holds (dec.session_started b) i sp all
  dispatch-Holds FrameType.session_event conn st b i sp all = handle_session_event-Holds b i all
  dispatch-Holds FrameType.session_pty conn st b i sp all =
      decoded-Holds (dec.session_pty b) i _ all
        λ m. publish_newer-Holds m.session_id m.seq pty m.ts b i all
  dispatch-Holds FrameType.session_state_change conn st b i sp all =
      handle_session_state_change-Holds b i all
  dispatch-Holds FrameType.session_ended conn st b i sp all = handle_session_ended-Holds b i all
  dispatch-Holds FrameType.session_resume conn st b i sp all =
      decoded-Holds (dec.session_resume b) i _ all
        λ m. same _ _ (notify_change-sessions _) (resume_in-Holds st m i _ refl all)
  dispatch-Holds FrameType.spawn_response conn st b i sp all =
      decoded-Holds (dec.spawn_response b) i _ all
        λ m. if_rule (λ (z : Ingestor). Holds z.sessions) i.has_spawn _ _ all all
  dispatch-Holds FrameType.machine_suspending conn st b i sp all =
      same _ _ (notify_change-sessions _)
        (pause_all_for_machine-Seen n id i.sessions all enc st.machine_id now i.channels)
  dispatch-Holds FrameType.unknown conn st b i sp all = all

  gated-Holds :
      (conn : Conn) (t : FrameType) (b : Bytes) (i : Ingestor)
      → SparesAs dec id b t
      → Holds i.sessions
      → Holds (gated dec enc fl now conn t b i).0.sessions
  unfolding gated state_for
  gated-Holds conn t b i sp all =
      if_rule (λ (o : Outcome). Holds o.0.sessions) _ _ _ all (dispatch-Holds t conn _ b _ sp all)

  pub handle-Seen :
      (conn : Conn) (b : Bytes) (i : Ingestor)
      → Spares dec id b
      → Seen n id i.sessions.sessions
      → Seen n id (handle dec enc fl now conn b i).0.sessions.sessions
  unfolding handle
  handle-Seen conn b i sp all = go (dec.head b) sp
    where
      go :
          (o : Option String)
          → SparesHead dec id b o
          → Holds (handle_head dec enc fl now conn b i o).0.sessions
      go none q = all
      go (some t) q =
          if_rule (λ (o : Outcome). Holds o.0.sessions) (looks_like_json_object b) _ _
            (gated-Holds conn (frame_type t) b i q all) all
