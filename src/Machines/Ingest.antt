-- ===== src/Machines/Ingest.antt =====
-- pi-remote-coordinator/internal/machines/ingest.go: one frame from one daemon connection. The
-- state holds both registries, the send queues of the clients, and what the hooks were called with.
-- The clock is read once for each frame.
pub mod Handle
pub mod Attached
pub mod Connections
pub mod Seen
pub mod Evolves
pub mod Gate
pub mod Histories
use pi_remote.Prelude.{
  ℕ, zero, suc, ◌+◌, String, str_eq, Bool, true, false, not, ◌&&◌, Option, none, some, List, [],
  ◌∷◌, ◌++◌, Map, lookup, insert, delete, string_eq, nat_eq, if◌then◌else◌,
}
use pi_remote.Broker.Ring.{Entry, event, pty}
use pi_remote.Broker.Lru.{Floats}
use pi_remote.Sessions.Channels.{Bytes, Channels}
use pi_remote.Sessions.Session.{State, running, idle, unresponsive, Metadata, Session, broadcast}
use pi_remote.Sessions.Registry
use pi_remote.Sessions.Registry.{
  Encoder, advance_seq, set_state, mark_ended, restore_last_seq, pause_all_for_machine, publish_to,
}
use pi_remote.Machines.Registry as Machines
use pi_remote.Machines.Registry.{Conn, Machine}
use pi_remote.Machines.Frames.{
  EventKind, MachineRegister, SessionStarted, SessionEvent, SessionPty, SessionStateChange,
  SessionEnded, SessionResume, SpawnResponse, Decoder, FrameType, frame_type,
  looks_like_json_object, machine_suspending,
}

pub data IngestError : Type 0 where
  first_frame_not_register malformed_frame : IngestError

pub record ConnState : Type 0 where
  pub registered : Bool
  pub machine_id : String

-- `push.Notification`; the ingestor leaves the display name and the time at their zero values.
pub record Notification : Type 0 where
  pub reason : String
  pub session_id : String
  pub machine_id : String
  pub machine_display_name : String
  pub project_name : String
  pub project_display_name : Option String
  pub summary : String
  pub ts : ℕ

-- `calls` counts the calls of `onMachineChange`, `pushes` and `answers` list those of `onPush` and
-- `onSpawnResponse`, and `closed` the connections that a take-over closed, all newest last.
pub record Ingestor : Type 0 where
  pub machines : Machines.Registry
  pub sessions : Registry.Registry
  pub channels : Channels
  pub conn_state : Map Conn ConnState
  pub has_push : Bool
  pub has_change : Bool
  pub has_spawn : Bool
  pub pushes : List Notification
  pub calls : ℕ
  pub answers : List SpawnResponse
  pub closed : List Conn

abbrev pub no_state : ConnState
no_state = record { registered = false; machine_id = "" }

abbrev pub found_state : Option ConnState → ConnState
found_state none = no_state
found_state (some st) = st

abbrev pub state_of : Conn → Ingestor → ConnState
state_of c i = found_state (lookup c i.conn_state)

-- `stateFor` adds the state of a connection that has none.
unfoldable pub state_for : Conn → Ingestor → Ingestor
state_for c i = record i { conn_state = insert c (state_of c i) i.conn_state }

unfoldable pub forget_conn : Conn → Ingestor → Ingestor
forget_conn c i = record i { conn_state = delete c i.conn_state }

unfoldable pub machine_id_for_conn : Conn → Ingestor → Option String
machine_id_for_conn c i =
    let st = state_of c i in if st.registered then some st.machine_id else none

unfoldable pub notify_change : Ingestor → Ingestor
notify_change i = if i.has_change then record i { calls = i.calls + 1 } else i

abbrev pub display_name : String → Option Machine → String
display_name machine_id none = machine_id
display_name machine_id (some m) = m.display_name

abbrev pub notify_known : String → String → String → Ingestor → Option Session → Ingestor
notify_known session_id reason summary i none = i
notify_known session_id reason summary i (some s) =
    let n : Notification = record {
      reason = reason;
      session_id = session_id;
      machine_id = s.machine_id;
      machine_display_name = display_name s.machine_id (Machines.get s.machine_id i.machines);
      project_name = s.metadata.project_name;
      project_display_name = none;
      summary = summary;
      ts = 0;
    } in
    record i { pushes = i.pushes ++ n ∷ [] }

unfoldable pub notify_push : String → String → String → Ingestor → Ingestor
notify_push session_id reason summary i =
    if i.has_push
    then notify_known session_id reason summary i (Registry.get session_id i.sessions)
    else i

-- `pushEventReasons`
unfoldable pub push_event_reason : EventKind → Option String
push_event_reason EventKind.attention_dialog = some "extension_dialog"
push_event_reason EventKind.tool_failure = some "tool_failure"
push_event_reason EventKind.queue_update = some "queue_update"
push_event_reason EventKind.extension_error = some "extension_error"
push_event_reason EventKind.compaction_end = some "compaction_complete"
push_event_reason _ = none
