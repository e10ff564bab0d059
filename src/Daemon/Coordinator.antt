-- ===== src/Daemon/Coordinator.antt =====
-- pi-remote-daemon/internal/coordinator: the frames of frames.go, and what client.go writes to its
-- connection and reads from it. A pointer to a connection is a number; whether a connection takes
-- the next frame, given all that were written, is a parameter, as is the decoding of JSON.
pub mod Handshakes
pub mod Started
use pi_remote.Prelude.{
  ℕ, String, str_eq, Bool, true, false, Option, none, some, List, [], ◌∷◌, ◌++◌, if◌then◌else◌,
}
use pi_remote.Sessions.Session.{Metadata}
use pi_remote.Machines.Frames.{MachineRegister, SessionStarted, SessionEnded}
use pi_remote.Daemon.Registry.{Session, EndedKind, ended_explicit, ended_implicit}
use pi_remote.Daemon.Multiplex.{Frame, LiveSession}

pub record MachineRegisterInput : Type 0 where
  pub machine_id : String
  pub machine_display_name : String
  pub daemon_version : String
  pub capabilities : List String

abbrev pub capabilities_or_default : List String → List String
capabilities_or_default [] = "spawn" ∷ "mirror" ∷ []
capabilities_or_default (c ∷ cs) = c ∷ cs

unfoldable pub new_machine_register : MachineRegisterInput → MachineRegister
new_machine_register input = record {
  machine_id = input.machine_id;
  machine_display_name = input.machine_display_name;
  daemon_version = input.daemon_version;
  capabilities = capabilities_or_default input.capabilities;
}

abbrev pub or_else : String → String → String
or_else s fallback = if str_eq s "" then fallback else s

-- The token is left out where it is empty.
abbrev pub token_of : String → Option String
token_of token = if str_eq token "" then none else some token

abbrev pub metadata_of : Session → String → Metadata
metadata_of s hostname_fallback = record {
  cwd = s.cwd;
  hostname = or_else s.hostname hostname_fallback;
  model = s.model;
  project_display_name = none;
  project_name = s.project_name;
  spawn_token = token_of s.spawn_token;
  started_at = s.started_at;
}

unfoldable pub new_session_started : Session → String → String → SessionStarted
new_session_started s machine_id hostname_fallback = record {
  session_id = s.session_id;
  machine_id = machine_id;
  metadata = metadata_of s hostname_fallback;
}

-- The builder of the multiplex, with its own ids for empty arguments.
unfoldable pub session_started_frame : String → String → Session → String → String → SessionStarted
session_started_frame own_machine own_hostname s machine_id hostname_fallback =
    new_session_started s (or_else machine_id own_machine) (or_else hostname_fallback own_hostname)

abbrev pub reason_of_kind : EndedKind → String
reason_of_kind ended_explicit = "extension_disconnect"
reason_of_kind ended_implicit = "process_exit"

unfoldable pub ended_reason : EndedKind → String → String
ended_reason kind reason =
    if str_eq reason "tmux_server_lost"
    then "tmux_server_lost"
    else if str_eq reason "killed"
    then "killed"
    else if str_eq reason "spawn_failed"
    then "spawn_failed"
    else reason_of_kind kind

unfoldable pub new_session_ended : String → ℕ → EndedKind → String → SessionEnded
new_session_ended id seq kind reason = record {
  session_id = id;
  seq = seq;
  reason = ended_reason kind reason;
}

-- What goes over a connection; `payload` is a frame of the multiplex.
pub data Wire : Type 0 where
  machine_register : MachineRegister → Wire
  session_resume : LiveSession → Wire
  machine_resumed machine_suspending : Wire
  payload : Frame → Wire

-- `wire` lists the frames with the connection that took them, newest last.
pub record Client : Type 0 where
  pub conn : Option ℕ
  pub resume_pending : Bool
  pub wire : List (ℕ × Wire)

abbrev pub set_conn : ℕ → Client → Client
set_conn k c = record c { conn = some k }

abbrev pub clear_conn : Client → Client
clear_conn c = record c { conn = none }

abbrev pub connected_as : Option ℕ → Bool
connected_as none = false
connected_as (some k) = true

abbrev pub connected : Client → Bool
connected c = connected_as c.conn

module _ (takes : List (ℕ × Wire) → Bool) where
  abbrev pub write_to : Option ℕ → Wire → Client → Client × Bool
  write_to none frame c = (c, false)
  write_to (some k) frame c =
      if takes c.wire then (record c { wire = c.wire ++ (k, frame) ∷ [] }, true) else (c, false)

  -- The flag is false for an error.
  unfoldable pub write : Wire → Client → Client × Bool
  write frame c = write_to c.conn frame c

  abbrev pub send : Frame → Client → Client × Bool
  send frame c = write (payload frame) c

  -- The loop over the live sessions ends with the first error.
  unfoldable pub resume_all : List LiveSession → Client → Client × Bool
  resume_all [] c = (c, true)
  resume_all (s ∷ ss) c =
      let (c', done) = write (session_resume s) c in
      let rest = resume_all ss c' in if done then rest else (c', false)

  -- `Swap` clears the flag before the frame is written.
  abbrev pub resumed_after : Client × Bool → Client × Bool
  resumed_after (c, false) = (c, false)
  resumed_after (c, true) =
      let c' = record c { resume_pending = false } in
      if c.resume_pending then write machine_resumed c' else (c', true)

  abbrev pub resume_after : List LiveSession → Client × Bool → Client × Bool
  resume_after live (c, false) = (c, false)
  resume_after live (c, true) = resumed_after (resume_all live c)

  unfoldable pub handshake : MachineRegisterInput → List LiveSession → Client → Client × Bool
  handshake input live c =
      resume_after live (write (machine_register (new_machine_register input)) c)

  -- The connection is closed behind the frame; the run loop clears it.
  unfoldable pub notify_suspend : Client → Client
  notify_suspend c = (write machine_suspending (record c { resume_pending = true })).0

-- The decoding of a frame of the coordinator; `none` is an error.
pub record Decoder : Type 0 where
  pub type_of : List ℕ → Option String
  pub spawn_request_of : List ℕ → Option (String × String)
  pub pty_input_of : List ℕ → Option (String × List ℕ)
  pub pty_resize_of : List ℕ → Option (String × ℕ × ℕ)
  pub base64_of : List ℕ → Option (List ℕ)

-- The calls of the spawner: with the directory and the request, or the session and its input.
pub data SpawnerCall : Type 0 where
  spawn : String → String → SpawnerCall
  write_pty : String → List ℕ → SpawnerCall
  resize_pty : String → ℕ → ℕ → SpawnerCall

module _ (decoder : Decoder) where
  abbrev pub spawn_of : Option (String × String) → List SpawnerCall
  spawn_of none = []
  spawn_of (some (cwd, request)) = spawn cwd request ∷ []

  abbrev pub input_decoded : String → Option (List ℕ) → List SpawnerCall
  input_decoded id none = []
  input_decoded id (some keys) = write_pty id keys ∷ []

  abbrev pub input_of : Option (String × List ℕ) → List SpawnerCall
  input_of none = []
  input_of (some (id, text)) = input_decoded id (decoder.base64_of text)

  abbrev pub resize_of : Option (String × ℕ × ℕ) → List SpawnerCall
  resize_of none = []
  resize_of (some (id, cols, rows)) = resize_pty id cols rows ∷ []

  abbrev pub calls_of : List ℕ → String → List SpawnerCall
  calls_of frame type =
      if str_eq type "spawn_request"
      then spawn_of (decoder.spawn_request_of frame)
      else if str_eq type "pty_input"
      then input_of (decoder.pty_input_of frame)
      else if str_eq type "pty_resize"
      then resize_of (decoder.pty_resize_of frame)
      else []

  abbrev pub read_as : Bool → List ℕ → List SpawnerCall → Option String → List SpawnerCall
  read_as has_spawner frame rest none = []
  read_as has_spawner frame rest (some type) =
      if has_spawner then calls_of frame type ++ rest else rest

  -- The loop over the frames, to the first one that is no object or the end of the connection. A
  -- type that is missing is "".
  unfoldable pub read_loop : Bool → List (List ℕ) → List SpawnerCall
  read_loop has_spawner [] = []
  read_loop has_spawner (frame ∷ frames) =
      read_as has_spawner frame (read_loop has_spawner frames) (decoder.type_of frame)
