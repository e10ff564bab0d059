-- ===== src/Daemon/Socket.antt =====
-- pi-remote-daemon/internal/socket/conn.go: the connection of an extension. A line comes with the
-- time at which it is handled; its decoding and the tmux client behind `TmuxResolver`, with a state
-- `P` of its own, are parameters, and whether the socket takes the acknowledgement is an argument. A
-- line above maxFrameSize is a read error, and so an end.
pub mod Ends
pub mod Rejected
use pi_remote.Prelude.{
  ℕ, String, str_eq, Bool, true, false, Option, none, some, List, [], ◌∷◌, if◌then◌else◌,
}
use pi_remote.Daemon.Registry.{
  Session, running, Registry, register, update_heartbeat, event, remove_with_reason, mark_ended,
}

pub record RegisterFrame : Type 0 where
  pub session_id : String
  pub spawn_token : Option String
  pub tmux_target : String
  pub pid : ℕ
  pub cwd : String
  pub project_name : String
  pub hostname : String
  pub model : String
  pub started_at : ℕ

-- json.Unmarshal into the type of each frame: the discriminator, a register frame, the time of a
-- heartbeat, and the reason of a disconnect.
pub record Decoder : Type 0 where
  pub type_of : List ℕ → Option String
  pub register_of : List ℕ → Option RegisterFrame
  pub heartbeat_of : List ℕ → Option ℕ
  pub disconnect_of : List ℕ → Option String

-- `ResolveAndMap` with a process, a target, a session and a spawn token: the target and the pane that
-- it finds. It reads the registry.
abbrev pub Resolver : Type 0 → Type 0
Resolver P = ℕ → String → String → String → Registry → P → P × Option (String × String)

pub record Ack : Type 0 where
  pub session_id : String
  pub accepted : Bool
  pub reason : Option String

-- The reason is left out of an acceptance.
abbrev pub ack_of : String → Bool → String → Ack
ack_of id accepted reason = record {
  session_id = id;
  accepted = accepted;
  reason = if accepted then none else some reason;
}

abbrev pub token_of : Option String → String
token_of none = ""
token_of (some token) = token

-- A target that cannot be resolved stays as the frame has it.
abbrev pub target_of : String → Option (String × String) → String
target_of target none = target
target_of target (some (resolved, pane)) = resolved

abbrev pub resolve : {P : Type 0} → Option (Resolver P) → RegisterFrame → Registry → P → P × String
resolve none reg r p = (p, reg.tmux_target)
resolve (some tmux) reg r p =
    let (p', found) = tmux reg.pid reg.tmux_target reg.session_id (token_of reg.spawn_token) r p in
    (p', target_of reg.tmux_target found)

abbrev pub session_of : String → RegisterFrame → Session
session_of target reg = record {
  session_id = reg.session_id;
  spawn_token = token_of reg.spawn_token;
  tmux_target = target;
  pid = reg.pid;
  cwd = reg.cwd;
  project_name = reg.project_name;
  hostname = reg.hostname;
  model = reg.model;
  started_at = reg.started_at;
  last_heartbeat = 0;
  ended_at = 0;
  last_seq = 0;
  state = running;
  attached_clients = [];
}

-- What the loop makes of a frame: it goes on, or `dispatch` returned true.
abbrev pub Dispatched : Type 0
Dispatched = Registry × Bool

abbrev pub beat : String → Registry → Option ℕ → Dispatched
beat id r none = (r, true)
beat id r (some ts) =
    let (r', known) = update_heartbeat id ts r in (r', if known then false else true)

abbrev pub leave : String → ℕ → Registry → Option String → Dispatched
leave id now r none = (r, true)
leave id now r (some reason) = (remove_with_reason id reason now r, true)

-- An end without `disconnected` marks the session as ended.
abbrev pub close : String → ℕ → Dispatched → Registry
close id now (r, disconnected) = if disconnected then r else mark_ended id now r

module _ (decoder : Decoder) where
  abbrev pub dispatch_as : String → ℕ → List ℕ → Registry → Option String → Dispatched
  dispatch_as id now line r none = (r, true)
  dispatch_as id now line r (some type) =
      if str_eq type "heartbeat"
      then beat id r (decoder.heartbeat_of line)
      else if str_eq type "event"
      then (event id line r, false)
      else if str_eq type "disconnect"
      then leave id now r (decoder.disconnect_of line)
      else (r, false)

  unfoldable pub dispatch : String → ℕ → List ℕ → Registry → Dispatched
  dispatch id now line r = dispatch_as id now line r (decoder.type_of line)

  -- The loop over the frames behind the first one; the second part is `disconnected`.
  unfoldable pub read : String → List (ℕ × List ℕ) → Registry → Dispatched
  read id [] r = (r, false)
  read id ((now, line) ∷ lines) r =
      let (r', done) = dispatch id now line r in
      let rest = read id lines r' in if done then (r', true) else rest

  module _ {P : Type 0} (tmux : Option (Resolver P)) where
    -- The session that is served, if one is, and the acknowledgement that is written.
    abbrev pub Registered : Type 0
    Registered = P × Registry × Option String × List Ack

    -- The target is resolved, and its pane mapped, before the registry decides.
    abbrev pub register_frame : ℕ → Bool → Registry → P → Option RegisterFrame → Registered
    register_frame now written r p none = (p, r, none, [])
    register_frame now written r p (some reg) =
        let (p', target) = resolve tmux reg r p in
        let (r', accepted, reason) = register (session_of target reg) now r in
        if written
        then (
          p',
          r',
          if accepted then some reg.session_id else none,
          ack_of reg.session_id accepted reason ∷ [],
        )
        else (p', r', none, [])

    abbrev pub register_as : ℕ → Bool → List ℕ → Registry → P → Option String → Registered
    register_as now written line r p none = (p, r, none, [])
    register_as now written line r p (some type) =
        if str_eq type "register"
        then register_frame now written r p (decoder.register_of line)
        else (p, r, none, [])

    unfoldable pub handle_register : ℕ → Bool → List ℕ → Registry → P → Registered
    handle_register now written line r p = register_as now written line r p (decoder.type_of line)

    abbrev pub serve_on : List (ℕ × List ℕ) → ℕ → Registered → Registry × List Ack × P
    serve_on lines closed (p, r, none, acks) = (r, acks, p)
    serve_on lines closed (p, r, some id, acks) = (close id closed (read id lines r), acks, p)

    -- The frames of a connection, the time of its end, and whether the socket takes the
    -- acknowledgement.
    unfoldable pub serve : Bool → List (ℕ × List ℕ) → ℕ → Registry → P → Registry × List Ack × P
    serve written [] closed r p = (r, [], p)
    serve written ((now, line) ∷ lines) closed r p =
        serve_on lines closed (handle_register now written line r p)
