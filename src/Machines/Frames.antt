-- ===== src/Machines/Frames.antt =====
-- The frames that a daemon sends, as the generated types of
-- pi-remote-coordinator/internal/proto/daemon-coordinator decode them.
use pi_remote.Prelude.{
  ℕ, ◌^◌, ◌≤◌, ◌<◌, ◌≡◌, String, str_eq, Bool, false, Option, some, List, [], ◌∷◌, if◌then◌else◌,
  ◌==◌,
}
use pi_remote.Sessions.Channels.{Bytes}
use pi_remote.Sessions.Session.{State, Metadata}

pub data EventKind : Type 0 where
  agent_start agent_end attention_dialog tool_failure queue_update model_select : EventKind
  compaction_start compaction_end extension_error : EventKind

pub record MachineRegister : Type 0 where
  pub machine_id : String
  pub machine_display_name : String
  pub daemon_version : String
  pub capabilities : List String

pub record SessionStarted : Type 0 where
  pub session_id : String
  pub machine_id : String
  pub metadata : Metadata

pub record SessionEvent : Type 0 where
  pub session_id : String
  pub seq : ℕ
  pub kind : EventKind
  pub ts : ℕ

pub record SessionPty : Type 0 where
  pub session_id : String
  pub seq : ℕ
  pub ts : ℕ

pub record SessionStateChange : Type 0 where
  pub session_id : String
  pub seq : ℕ
  pub from : State
  pub to : State

pub record SessionEnded : Type 0 where
  pub session_id : String
  pub seq : ℕ
  pub reason : String

pub record SessionResume : Type 0 where
  pub session_id : String
  pub last_seq_emitted : ℕ

pub record SpawnResponse : Type 0 where
  pub request_id : String
  pub success : Bool
  pub session_id : Option String
  pub error : Option String

-- What `json.Unmarshal` makes of a text, for each type that the ingestor decodes into; `none` is an
-- error. `data_string b k` is the text under the key `k` of the `data` object, "" if there is none.
-- The generated decoders refuse a `seq` below 1, and an int is below 2^63.
pub record Decoder : Type 0 where
  pub head : Bytes → Option String
  pub machine_register : Bytes → Option MachineRegister
  pub session_started : Bytes → Option SessionStarted
  pub session_event : Bytes → Option SessionEvent
  pub session_pty : Bytes → Option SessionPty
  pub session_state_change : Bytes → Option SessionStateChange
  pub session_ended : Bytes → Option SessionEnded
  pub session_resume : Bytes → Option SessionResume
  pub spawn_response : Bytes → Option SpawnResponse
  pub data_string : Bytes → String → String
  pub event_range :
      (b : Bytes) (m : SessionEvent) → session_event b ≡ some m → (1 ≤ m.seq) × (m.seq < 2 ^ 63)
  pub pty_range :
      (b : Bytes) (m : SessionPty) → session_pty b ≡ some m → (1 ≤ m.seq) × (m.seq < 2 ^ 63)

-- The cases of the `switch` in `Handle`.
pub data FrameType : Type 0 where
  machine_register session_started session_event session_pty session_state_change : FrameType
  session_ended session_resume spawn_response machine_suspending unknown : FrameType

unfoldable pub frame_type : String → FrameType
frame_type t =
    if str_eq t "machine_register"
    then machine_register
    else if str_eq t "session_started"
    then session_started
    else if str_eq t "session_event"
    then session_event
    else if str_eq t "session_pty"
    then session_pty
    else if str_eq t "session_state_change"
    then session_state_change
    else if str_eq t "session_ended"
    then session_ended
    else if str_eq t "session_resume"
    then session_resume
    else if str_eq t "spawn_response"
    then spawn_response
    else if str_eq t "machine_suspending"
    then machine_suspending
    else unknown

-- The bytes before the first brace may be blanks only.
unfoldable pub looks_like_json_object : Bytes → Bool
looks_like_json_object [] = false
looks_like_json_object (c ∷ b) =
    let rest = looks_like_json_object b in
    if c == b' '
    then rest
    else if c == 9
    then rest
    else if c == 13
    then rest
    else if c == 10
    then rest
    else c == b'{'
