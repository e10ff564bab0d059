-- ===== src/Http/AppFrames.antt =====
-- The frames of an app's connection, as the generated types of
-- pi-remote-coordinator/internal/proto/coordinator-app decode and encode them, and the frames for a
-- daemon that they lead to, of internal/proto/daemon-coordinator.
use pi_remote.Prelude.{ℕ, ℤ, String, str_eq, Bool, Option, List, if◌then◌else◌}
use pi_remote.Sessions.Channels.{Bytes}
use pi_remote.Sessions.Session.{State, Metadata}
use pi_remote.Machines.Registry.{MachineState}

pub record ClientHello : Type 0 where
  pub app_version : String
  pub client_id : String

-- The generated decoder refuses a negative `last_seq`, and takes one that is left out for 0.
pub record Attach : Type 0 where
  pub last_seq : ℕ
  pub session_id : String

pub record Detach : Type 0 where
  pub session_id : String

pub record SpawnSession : Type 0 where
  pub cwd : String
  pub machine_id : String
  pub project_override : Option String
  pub request_id : String

pub record PtyInput : Type 0 where
  pub bytes : String
  pub session_id : String

-- The handler's own type: keys that are missing have zero values.
pub record PtyResize : Type 0 where
  pub session_id : String
  pub cols : ℤ
  pub rows : ℤ

pub record ClientFocus : Type 0 where
  pub focused : Bool
  pub session_id : String

-- What `json.Unmarshal` makes of a text, for each type that the handler decodes into; `none` is an
-- error.
pub record AppDecoder : Type 0 where
  pub head : Bytes → Option String
  pub client_hello : Bytes → Option ClientHello
  pub attach : Bytes → Option Attach
  pub detach : Bytes → Option Detach
  pub spawn_session : Bytes → Option SpawnSession
  pub pty_input : Bytes → Option PtyInput
  pub pty_resize : Bytes → Option PtyResize
  pub client_focus : Bytes → Option ClientFocus

-- The cases of the `switch` on the type of a frame.
pub data AppFrameType : Type 0 where
  attach detach subscribe_machine_list spawn_session : AppFrameType
  pty_input pty_resize client_focus unknown : AppFrameType

unfoldable pub app_frame_type : String → AppFrameType
app_frame_type t =
    if str_eq t "attach"
    then attach
    else if str_eq t "detach"
    then detach
    else if str_eq t "subscribe_machine_list"
    then subscribe_machine_list
    else if str_eq t "spawn_session"
    then spawn_session
    else if str_eq t "pty_input"
    then pty_input
    else if str_eq t "pty_resize"
    then pty_resize
    else if str_eq t "client_focus"
    then client_focus
    else unknown

-- `MachineListJsonMachinesElemSessionsElem`. The metadata becomes a map by way of its JSON text,
-- which leaves every key and value as it is.
pub record SessionElem : Type 0 where
  pub session_id : String
  pub state : State
  pub metadata : Metadata

-- `MachineListJsonMachinesElem`
pub record MachineElem : Type 0 where
  pub machine_id : String
  pub machine_display_name : String
  pub state : MachineState
  pub sessions : List SessionElem

-- `SpawnResponseJson`
pub record SpawnReply : Type 0 where
  pub request_id : String
  pub success : Bool
  pub session_id : Option String
  pub error : Option String

-- What the handler sends to an app of its own accord: `MachineListJson`, `SpawnResponseJson` and
-- `ReplayUnavailableJson`.
pub data AppFrame : Type 0 where
  machine_list : List MachineElem → AppFrame
  spawn_response : SpawnReply → AppFrame
  replay_unavailable : String → ℕ → ℕ → AppFrame

-- What it sends to a daemon: `SpawnRequestJson`, `PtyInputJson` and `PtyResizeJson`.
pub data DaemonFrame : Type 0 where
  spawn_request : (request_id cwd : String) → (project_override : Option String) → DaemonFrame
  pty_input : (session_id client_id bytes : String) → DaemonFrame
  pty_resize : (session_id : String) → (cols rows : ℤ) → DaemonFrame
