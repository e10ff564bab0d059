-- ===== src/Machines/Ingest/Histories.antt =====
-- The ingestor keeps every ring in step with the history of its session.
use pi_remote.Prelude.{
  ℕ, ◌^◌, ◌<◌, ◌≡◌, refl, ◌∙◌, inl, inr, String, Option, none, some, List, [], ◌∷◌, ◌++◌, arith,
  lookup, string_eq, nat_eq, Bool-cases, if_rule,
}
use pi_remote.Broker.Ring.{Entry, EntryKind, event, pty}
use pi_remote.Broker.Lru.{Floats}
use pi_remote.Sessions.Channels.{Bytes}
use pi_remote.Sessions.Session.{State, Session}
use pi_remote.Sessions.Registry.{Encoder, advances}
use pi_remote.Sessions.Registry.Histories.{
  AllTracked, set_history, advance_seq-AllTracked, restore_last_seq-AllTracked,
  set_state-AllTracked, mark_ended-AllTracked, register-AllTracked, publish_to-AllTracked,
  advance_seq_flag, advance_seq_known,
}
use pi_remote.Sessions.Registry.Paused.{pause_all_for_machine-AllTracked}
use pi_remote.Sessions.Registry.Numbers.{advances_known}
use pi_remote.Machines.Registry.{Conn}
use pi_remote.Machines.Frames.{
  Decoder, FrameType, SessionResume, frame_type, looks_like_json_object,
}
use pi_remote.Machines.Ingest.{ConnState, Ingestor, state_for, push_event_reason}
use pi_remote.Machines.Ingest.Handle.{
  Outcome, decoded, handle_machine_register, handle_session_started, publish_newer,
  handle_session_event, handle_session_pty, forward_state_change, handle_session_state_change,
  handle_session_ended, resume_in, handle_session_resume, handle_machine_suspending,
  handle_spawn_response, dispatch, gated, handle_head, handle,
}
use pi_remote.Machines.Ingest.Evolves.{
  Evolves, stay, set_history-Grows, notify_change-sessions, notify_push-sessions,
  notify_state-sessions, broadcast_known-sessions, same_sessions, notify_reason-sessions,
}

module _ (dec : Decoder) (enc : Encoder) (fl : Floats) (now : ℕ) (hist : String → List Entry) where
  decoded-Evolves {ℓ} :
      {A : Type ℓ} {b : Bytes} (o : Option A) (i : Ingestor) (f : A → Ingestor)
      → AllTracked hist i.sessions.sessions
      → ((m : A) → o ≡ some m → Evolves b hist (f m).sessions)
      → Evolves b hist (decoded o i f).0.sessions
  decoded-Evolves {b = b} none i f all h = stay hist i.sessions all
  decoded-Evolves {b = b} (some m) i f all h = h m refl

  publish_newer-Evolves :
      (id : String) (seq : ℕ) (kind : EntryKind) (ts : ℕ) (b : Bytes) (i : Ingestor)
      → AllTracked hist i.sessions.sessions
      → seq < 2 ^ 63
      → Evolves b hist (publish_newer dec enc fl now id seq kind ts b i).0.sessions
  unfolding publish_newer
  publish_newer-Evolves id seq kind ts b i all small =
      elim (Bool-cases (advances seq (lookup id i.sessions.sessions))) [
        | inl e ↦
            let (s, l, lt) = advances_known seq (lookup id i.sessions.sessions) e in
            let (s', l', top) = advance_seq_known id seq now i.sessions s l lt in
            let entry : Entry = record { seq = seq; kind = kind; ts = ts; payload = b } in
            rw (advance_seq_flag id seq now i.sessions ∙ e) (
              set_history id (hist id ++ entry ∷ []) hist,
              publish_to-AllTracked hist _ (advance_seq-AllTracked hist i.sessions all id seq now)
                  fl id entry now i.channels s' l' (omega (arith, (all id s l).seen)) (omega arith)
                  (omega arith),
              λ k. set_history-Grows id k _ hist (inr (inr (entry, refl, refl))),
            )
        | inr e ↦
            rw (advance_seq_flag id seq now i.sessions ∙ e)
              (hist, advance_seq-AllTracked hist i.sessions all id seq now, λ k. inl refl)
      ]

  handle_session_event-Evolves :
      (b : Bytes) (i : Ingestor)
      → AllTracked hist i.sessions.sessions
      → Evolves b hist (handle_session_event dec enc fl now b i).0.sessions
  unfolding handle_session_event
  handle_session_event-Evolves b i all = decoded-Evolves (dec.session_event b) i _ all λ m e.
      let j = publish_newer dec enc fl now m.session_id m.seq event m.ts b i in
      let done =
        publish_newer-Evolves m.session_id m.seq event m.ts b i all (dec.event_range b m e).1 in
      if_rule (λ (z : Ingestor). Evolves b hist z.sessions) j.1 _ _
        (same_sessions hist j.0.sessions _
          (notify_reason-sessions dec enc fl now m.session_id m.kind b j.0
            (push_event_reason m.kind))
          done)
        done

  handle_session_pty-Evolves :
      (b : Bytes) (i : Ingestor)
      → AllTracked hist i.sessions.sessions
      → Evolves b hist (handle_session_pty dec enc fl now b i).0.sessions
  unfolding handle_session_pty
  handle_session_pty-Evolves b i all =
      decoded-Evolves (dec.session_pty b) i _ all
        λ m e. publish_newer-Evolves m.session_id m.seq pty m.ts b i all (dec.pty_range b m e).1

  handle_machine_register-Evolves :
      (conn : Conn) (b : Bytes) (i : Ingestor)
      → AllTracked hist i.sessions.sessions
      → Evolves b hist (handle_machine_register dec enc fl now conn b i).0.sessions
  unfolding handle_machine_register
  handle_machine_register-Evolves conn b i all =
      decoded-Evolves (dec.machine_register b) i _ all
        λ m e. same_sessions hist _ _ (notify_change-sessions _) (stay hist i.sessions all)

  handle_session_started-Evolves :
      (b : Bytes) (i : Ingestor)
      → AllTracked hist i.sessions.sessions
      → Evolves b hist (handle_session_started dec enc fl now b i).0.sessions
  unfolding handle_session_started
  handle_session_started-Evolves b i all = decoded-Evolves (dec.session_started b) i _ all λ m e.
      same_sessions hist _ _ (notify_change-sessions _) (
        set_history m.session_id [] hist,
        register-AllTracked hist i.sessions all m.session_id m.machine_id m.metadata now,
        λ k. set_history-Grows m.session_id k _ hist (inr (inl refl)),
      )

  handle_session_state_change-Evolves :
      (b : Bytes) (i : Ingestor)
      → AllTracked hist i.sessions.sessions
      → Evolves b hist (handle_session_state_change dec enc fl now b i).0.sessions
  unfolding handle_session_state_change forward_state_change
  handle_session_state_change-Evolves b i all =
      decoded-Evolves (dec.session_state_change b) i _ all λ m e.
        same_sessions hist _ _
          (notify_change-sessions _
            ∙ notify_state-sessions m.session_id m.to _
            ∙ broadcast_known-sessions _ _ _)
          (
            hist,
            advance_seq-AllTracked hist _
                (set_state-AllTracked hist i.sessions all m.session_id m.to now) m.session_id m.seq
                now,
            λ k. inl refl,
          )

  handle_session_ended-Evolves :
      (b : Bytes) (i : Ingestor)
      → AllTracked hist i.sessions.sessions
      → Evolves b hist (handle_session_ended dec enc fl now b i).0.sessions
  unfolding handle_session_ended
  handle_session_ended-Evolves b i all = decoded-Evolves (dec.session_ended b) i _ all λ m e.
      same_sessions hist _ _
        (notify_change-sessions _
          ∙ notify_push-sessions m.session_id _ _ _
          ∙ broadcast_known-sessions _ _ _)
        (
          hist,
          mark_ended-AllTracked hist _
              (advance_seq-AllTracked hist i.sessions all m.session_id m.seq now) m.session_id now,
          λ k. inl refl,
        )

  resume_in-Evolves :
      {b : Bytes} (st : ConnState) (m : SessionResume) (i : Ingestor) (o : Option Session)
      → AllTracked hist i.sessions.sessions
      → Evolves b hist (resume_in dec enc fl now st m i.sessions o)
  resume_in-Evolves st m i (some s) all = (
    hist,
    restore_last_seq-AllTracked hist _
        (set_state-AllTracked hist i.sessions all m.session_id State.running now) m.session_id
        m.last_seq_emitted now,
    λ k. inl refl,
  )
  resume_in-Evolves st m i none all = (
    set_history m.session_id [] hist,
    restore_last_seq-AllTracked (set_history m.session_id [] hist) _
        (register-AllTracked hist i.sessions all m.session_id st.machine_id _ now) m.session_id
        m.last_seq_emitted now,
    λ k. set_history-Grows m.session_id k _ hist (inr (inl refl)),
  )

  handle_session_resume-Evolves :
      (st : ConnState) (b : Bytes) (i : Ingestor)
      → AllTracked hist i.sessions.sessions
      → Evolves b hist (handle_session_resume dec enc fl now st b i).0.sessions
  unfolding handle_session_resume
  handle_session_resume-Evolves st b i all =
      decoded-Evolves (dec.session_resume b) i _ all
        λ m e. same_sessions hist _ _ (notify_change-sessions _) (resume_in-Evolves st m i _ all)

  handle_machine_suspending-Evolves :
      {b : Bytes} (st : ConnState) (i : Ingestor)
      → AllTracked hist i.sessions.sessions
      → Evolves b hist (handle_machine_suspending dec enc fl now st i).0.sessions
  unfolding handle_machine_suspending
  handle_machine_suspending-Evolves st i all = same_sessions hist _ _ (notify_change-sessions _) (
    hist,
    pause_all_for_machine-AllTracked enc st.machine_id now i.sessions i.channels hist all,
    λ k. inl refl,
  )

  handle_spawn_response-Evolves :
      (b : Bytes) (i : Ingestor)
      → AllTracked hist i.sessions.sessions
      → Evolves b hist (handle_spawn_response dec enc fl now b i).0.sessions
  unfolding handle_spawn_response
  handle_spawn_response-Evolves b i all = decoded-Evolves (dec.spawn_response b) i _ all λ m e.
      if_rule (λ (z : Ingestor). Evolves b hist z.sessions) i.has_spawn _ _
        (stay hist i.sessions all) (stay hist i.sessions all)

  dispatch-Evolves :
      (t : FrameType) (conn : Conn) (st : ConnState) (b : Bytes) (i : Ingestor)
      → AllTracked hist i.sessions.sessions
      → Evolves b hist (dispatch dec enc fl now t conn st b i).0.sessions
  unfolding dispatch
  dispatch-Evolves FrameType.machine_register conn st b i = handle_machine_register-Evolves conn b i
  dispatch-Evolves FrameType.session_started conn st b i = handle_session_started-Evolves b i
  dispatch-Evolves FrameType.session_event conn st b i = handle_session_event-Evolves b i
  dispatch-Evolves FrameType.session_pty conn st b i = handle_session_pty-Evolves b i
  dispatch-Evolves FrameType.session_state_change conn st b i =
      handle_session_state_change-Evolves b i
  dispatch-Evolves FrameType.session_ended conn st b i = handle_session_ended-Evolves b i
  dispatch-Evolves FrameType.session_resume conn st b i = handle_session_resume-Evolves st b i
  dispatch-Evolves FrameType.spawn_response conn st b i = handle_spawn_response-Evolves b i
  dispatch-Evolves FrameType.machine_suspending conn st b i = handle_machine_suspending-Evolves st i
  dispatch-Evolves FrameType.unknown conn st b i = stay hist i.sessions

  gated-Evolves :
      (conn : Conn) (t : FrameType) (b : Bytes) (i : Ingestor)
      → AllTracked hist i.sessions.sessions
      → Evolves b hist (gated dec enc fl now conn t b i).0.sessions
  unfolding gated state_for
  gated-Evolves conn t b i all =
      if_rule (λ (o : Outcome). Evolves b hist o.0.sessions) _ _ _ (stay hist i.sessions all)
        (dispatch-Evolves t conn _ b _ all)

  -- Whatever frame a daemon sends, if the rings of all sessions track histories, they track
  -- histories afterwards that grow out of the old ones: each stays, gets one entry with the bytes
  -- of the frame, or begins anew.
  pub handle-Evolves :
      (conn : Conn) (b : Bytes) (i : Ingestor)
      → AllTracked hist i.sessions.sessions
      → Evolves b hist (handle dec enc fl now conn b i).0.sessions
  unfolding handle
  handle-Evolves conn b i all = go (dec.head b)
    where
      go : (o : Option String) → Evolves b hist (handle_head dec enc fl now conn b i o).0.sessions
      go none = stay hist i.sessions all
      go (some t) =
          if_rule (λ (o : Outcome). Evolves b hist o.0.sessions) (looks_like_json_object b) _ _
            (gated-Evolves conn (frame_type t) b i all) (stay hist i.sessions all)
