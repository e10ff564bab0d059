-- ===== src/Machines/Ingest/Handle.antt =====
-- The handlers of pi-remote-coordinator/internal/machines/ingest.go.
use pi_remote.Prelude.{
  ℕ, String, str_eq, Bool, true, false, not, ◌&&◌, Option, none, some, [], ◌∷◌, ◌++◌, insert,
  nat_eq, string_eq, if◌then◌else◌,
}
use Prim.Native.String.{◌++◌ as str_append}
use pi_remote.Broker.Ring.{Entry, EntryKind, event, pty}
use pi_remote.Broker.Lru.{Floats}
use pi_remote.Sessions.Channels.{Bytes}
use pi_remote.Sessions.Session.{State, running, idle, unresponsive, Metadata, Session, broadcast}
use pi_remote.Sessions.Registry
use pi_remote.Sessions.Registry.{Encoder}
use pi_remote.Machines.Registry as Machines
use pi_remote.Machines.Registry.{Conn}
use pi_remote.Machines.Frames.{
  EventKind, SessionResume, Decoder, FrameType, frame_type, looks_like_json_object,
}
use pi_remote.Machines.Ingest.{
  IngestError, first_frame_not_register, malformed_frame, ConnState, Ingestor, state_of, state_for,
  notify_change, notify_push, push_event_reason,
}

-- The new state, and the error that closes the connection, if there is one.
abbrev pub Outcome : Type 0
Outcome = Ingestor × Option IngestError

abbrev pub decoded {ℓ} : {A : Type ℓ} → Option A → Ingestor → (A → Ingestor) → Outcome
decoded none i f = (i, some malformed_frame)
decoded (some m) i f = (f m, none)

-- `"Permission required: " + t`, where `t` is not empty.
abbrev pub titled : String → String → String → String
titled prefix t fallback = if str_eq t "" then fallback else str_append prefix t

unfoldable pub kind_name : EventKind → String
kind_name EventKind.agent_start = "agent_start"
kind_name EventKind.agent_end = "agent_end"
kind_name EventKind.attention_dialog = "attention_dialog"
kind_name EventKind.tool_failure = "tool_failure"
kind_name EventKind.queue_update = "queue_update"
kind_name EventKind.model_select = "model_select"
kind_name EventKind.compaction_start = "compaction_start"
kind_name EventKind.compaction_end = "compaction_end"
kind_name EventKind.extension_error = "extension_error"

abbrev pub no_metadata : Metadata
no_metadata = record {
  cwd = "";
  hostname = "";
  model = "";
  project_display_name = none;
  project_name = "";
  spawn_token = none;
  started_at = 0;
}

-- The session that a frame names, after its registry has changed.
abbrev pub with_sessions : Ingestor → Registry.Registry → Ingestor
with_sessions i r = record i { sessions = r }

abbrev pub broadcast_known : Bytes → Ingestor → Option Session → Ingestor
broadcast_known raw i none = i
broadcast_known raw i (some s) = record i { channels = broadcast raw s i.channels }

abbrev pub machine_of : Option Session → String
machine_of none = ""
machine_of (some s) = s.machine_id

unfoldable pub notify_state : String → State → Ingestor → Ingestor
notify_state session_id idle i = notify_push session_id "agent_idle" "Agent is waiting for input" i
notify_state session_id unresponsive i =
    notify_push session_id "unresponsive" "Session is unresponsive" i
notify_state session_id _ i = i

abbrev pub is_register : FrameType → Bool
is_register FrameType.machine_register = true
is_register _ = false

module _ (dec : Decoder) (enc : Encoder) (fl : Floats) (now : ℕ) where
  unfoldable pub event_summary : EventKind → Bytes → String
  unfolding kind_name
  event_summary EventKind.attention_dialog raw =
      titled "Permission required: " (dec.data_string raw "title") "Agent needs your input"
  event_summary EventKind.tool_failure raw =
      titled "Tool failed: " (dec.data_string raw "toolName") "A tool failed"
  event_summary EventKind.queue_update raw = "Queue updated"
  event_summary EventKind.extension_error raw = "Extension error"
  event_summary EventKind.compaction_end raw = "Compaction complete"
  event_summary kind raw = kind_name kind

  unfoldable pub handle_machine_register : Conn → Bytes → Ingestor → Outcome
  handle_machine_register conn b i = decoded (dec.machine_register b) i λ msg.
      let (machines, closed) =
        Machines.register msg.machine_id msg.machine_display_name msg.daemon_version
          msg.capabilities (some conn) now i.machines in
      let st : ConnState = record { registered = true; machine_id = msg.machine_id } in
      notify_change (record i {
        machines = machines;
        closed = i.closed ++ closed;
        conn_state = insert conn st i.conn_state;
      })

  unfoldable pub handle_session_started : Bytes → Ingestor → Outcome
  handle_session_started b i = decoded (dec.session_started b) i λ msg. notify_change (
      with_sessions i (Registry.register msg.session_id msg.machine_id msg.metadata now i.sessions))

  -- `AdvanceSeq` and, if the number has advanced, `Publish`; the flag tells which. Each holds the
  -- mutex for itself, and no other frame is handled between the two here.
  unfoldable pub publish_newer : String → ℕ → EntryKind → ℕ → Bytes → Ingestor → Ingestor × Bool
  publish_newer session_id seq kind ts b i =
      let (r, advanced) = Registry.advance_seq session_id seq now i.sessions in
      let entry : Entry = record { seq = seq; kind = kind; ts = ts; payload = b } in
      let (r', ch) = Registry.publish_to fl session_id entry now (r, i.channels) in
      if advanced
      then (record i { sessions = r'; channels = ch }, true)
      else (with_sessions i r, false)

  abbrev pub notify_reason : String → EventKind → Bytes → Ingestor → Option String → Ingestor
  notify_reason session_id kind b i none = i
  notify_reason session_id kind b i (some reason) =
      notify_push session_id reason (event_summary kind b) i

  unfoldable pub handle_session_event : Bytes → Ingestor → Outcome
  handle_session_event b i = decoded (dec.session_event b) i λ msg.
      let (i', advanced) = publish_newer msg.session_id msg.seq event msg.ts b i in
      if advanced
      then notify_reason msg.session_id msg.kind b i' (push_event_reason msg.kind)
      else i'

  unfoldable pub handle_session_pty : Bytes → Ingestor → Outcome
  handle_session_pty b i =
      decoded (dec.session_pty b) i λ msg. (publish_newer msg.session_id msg.seq pty msg.ts b i).0

  unfoldable pub forward_state_change : String → State → State → Ingestor → Ingestor
  forward_state_change session_id from to i =
      let s = Registry.get session_id i.sessions in
      broadcast_known (enc.state_change session_id (machine_of s) from to) i s

  unfoldable pub handle_session_state_change : Bytes → Ingestor → Outcome
  handle_session_state_change b i = decoded (dec.session_state_change b) i λ msg.
      let r = Registry.set_state msg.session_id msg.to now i.sessions in
      let r' = (Registry.advance_seq msg.session_id msg.seq now r).0 in
      notify_change (
        notify_state msg.session_id msg.to
          (forward_state_change msg.session_id msg.from msg.to (with_sessions i r')))

  unfoldable pub handle_session_ended : Bytes → Ingestor → Outcome
  handle_session_ended b i = decoded (dec.session_ended b) i λ msg.
      let r = (Registry.advance_seq msg.session_id msg.seq now i.sessions).0 in
      let r' = Registry.mark_ended msg.session_id now r in
      let s = Registry.get msg.session_id r' in
      let raw = enc.session_ended msg.session_id (machine_of s) msg.reason in
      let summary = str_append (str_append "Session ended (" msg.reason) ")" in
      notify_change (
        notify_push msg.session_id "session_ended" summary
          (broadcast_known raw (with_sessions i r') s))

  abbrev pub resume_in :
      ConnState → SessionResume → Registry.Registry → Option Session → Registry.Registry
  resume_in st msg r (some s) =
      Registry.restore_last_seq msg.session_id msg.last_seq_emitted now
        (Registry.set_state msg.session_id running now r)
  resume_in st msg r none =
      Registry.restore_last_seq msg.session_id msg.last_seq_emitted now
        (Registry.register msg.session_id st.machine_id no_metadata now r)

  unfoldable pub handle_session_resume : ConnState → Bytes → Ingestor → Outcome
  handle_session_resume st b i = decoded (dec.session_resume b) i λ msg.
      notify_change
        (with_sessions i (resume_in st msg i.sessions (Registry.get msg.session_id i.sessions)))

  unfoldable pub handle_machine_suspending : ConnState → Ingestor → Outcome
  handle_machine_suspending st i =
      let m = Machines.set_suspended st.machine_id now i.machines in
      let (r, ch) = Registry.pause_all_for_machine enc st.machine_id now (i.sessions, i.channels) in
      (notify_change (record i { machines = m; sessions = r; channels = ch }), none)

  unfoldable pub handle_spawn_response : Bytes → Ingestor → Outcome
  handle_spawn_response b i =
      decoded (dec.spawn_response b) i
        λ msg. if i.has_spawn then record i { answers = i.answers ++ msg ∷ [] } else i

  unfoldable pub dispatch : FrameType → Conn → ConnState → Bytes → Ingestor → Outcome
  dispatch FrameType.machine_register conn st b i = handle_machine_register conn b i
  dispatch FrameType.session_started conn st b i = handle_session_started b i
  dispatch FrameType.session_event conn st b i = handle_session_event b i
  dispatch FrameType.session_pty conn st b i = handle_session_pty b i
  dispatch FrameType.session_state_change conn st b i = handle_session_state_change b i
  dispatch FrameType.session_ended conn st b i = handle_session_ended b i
  dispatch FrameType.session_resume conn st b i = handle_session_resume st b i
  dispatch FrameType.spawn_response conn st b i = handle_spawn_response b i
  dispatch FrameType.machine_suspending conn st b i = handle_machine_suspending st i
  dispatch FrameType.unknown conn st b i = (i, none)

  -- The gate is for each connection, before the `switch`.
  unfoldable pub gated : Conn → FrameType → Bytes → Ingestor → Outcome
  gated conn t b i =
      let i' = state_for conn i in
      let st = state_of conn i' in
      if not st.registered && not (is_register t)
      then (i', some first_frame_not_register)
      else dispatch t conn st b i'

  abbrev pub handle_head : Conn → Bytes → Ingestor → Option String → Outcome
  handle_head conn b i none = (i, some malformed_frame)
  handle_head conn b i (some t) =
      if looks_like_json_object b then gated conn (frame_type t) b i else (i, some malformed_frame)

  unfoldable pub handle : Conn → Bytes → Ingestor → Outcome
  handle conn b i = handle_head conn b i (dec.head b)
