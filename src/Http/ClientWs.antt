-- ===== src/Http/ClientWs.antt =====
-- pi-remote-coordinator/internal/http/client_ws.go: the connections of the apps. The loops of
-- several connections run at once, beside those of the daemons; a list of events says in which
-- order their steps came. A send channel is known by its connection.
pub mod Answers
pub mod Attached
pub mod Handlers
pub mod Hello
pub mod Orphans
pub mod Serve
pub mod Served
pub mod Steps
pub mod Wired
pub mod Writes
use Prim.Native.Nat.{◌^◌}
use pi_remote.Prelude.{
  ℕ, ◌+◌, ◌%◌, String, str_eq, Bool, true, false, not, ◌&&◌, Option, none, some, List, [], ◌∷◌,
  ◌++◌, map, Map, lookup, insert, delete, string_eq, if◌then◌else◌,
}
use pi_remote.Sessions.Channels.{Bytes, Channels, ClientConn, send}
use pi_remote.Sessions.Session.{Session, ended, detach, attach_with_replay}
use pi_remote.Sessions.Registry
use pi_remote.Machines.Registry as Machines
use pi_remote.Machines.Registry.{Conn, Machine, MachineState, online, suspended}
use pi_remote.Machines.Frames.{SpawnResponse}
use pi_remote.Machines.Ingest.{Ingestor}
use pi_remote.Push as Push
use pi_remote.Http.DaemonWs.{Received, text, other, failed}
use pi_remote.Http.ConnId.{conn_id}
use pi_remote.Http.AppFrames.{
  ClientHello, AppDecoder, AppFrameType, app_frame_type, SessionElem, MachineElem, SpawnReply,
  AppFrame, machine_list, spawn_response, replay_unavailable, DaemonFrame, spawn_request, pty_input,
  pty_resize,
}

-- What the loop of a connection keeps: `hello.ClientId`, `attachedSession` by its id, and whether
-- the goroutine that writes still runs.
pub record AppConn : Type 0 where
  pub client_id : String
  pub attached : Option String
  pub writing : Bool

-- `clientWS` with the registries that it shares with the ingestor, the loops of its connections,
-- `clientConnCount`, and what was written to the apps and to the daemons, newest last.
pub record Hub : Type 0 where
  pub ingest : Ingestor
  pub clients : Push.Clients
  pub focus : Option Push.FocusTracker
  pub subs : Map String ClientConn
  pub spawns : Map String ClientConn
  pub conns : Map String AppConn
  pub count : ℕ
  pub delivered : List (String × Bytes)
  pub written : List (Conn × DaemonFrame)

abbrev pub sessions_of : Hub → Map String Session
sessions_of h = h.ingest.sessions.sessions

abbrev pub with_ingest : (Ingestor → Ingestor) → Hub → Hub
with_ingest f h = record h { ingest = f h.ingest }

abbrev pub with_channels : (Channels → Channels) → Hub → Hub
with_channels f = with_ingest λ i. record i { channels = f i.channels }

abbrev pub with_registry : (Registry.Registry → Registry.Registry) → Hub → Hub
with_registry f = with_ingest λ i. record i { sessions = f i.sessions }

-- The loop over the sessions that groups them: those of one machine, in the order of the list.
unfoldable pub elems_of : String → List Session → List SessionElem
elems_of machine_id [] = []
elems_of machine_id (s ∷ ss) =
    let rest = elems_of machine_id ss in
    let elem : SessionElem = record {
      session_id = s.session_id;
      state = s.state;
      metadata = s.metadata;
    } in
    if str_eq s.machine_id machine_id then elem ∷ rest else rest

unfoldable pub machine_elem : List Session → Machine → MachineElem
machine_elem ss m = record {
  machine_id = m.id;
  machine_display_name = m.display_name;
  state = elim m.state [ suspended ↦ suspended | online ↦ online ];
  sessions = elems_of m.id ss;
}

abbrev pub list_sessions : Map String Session → List Session
list_sessions = map λ (entry : String × Session). entry.1

unfoldable pub build_machine_list_frame : Hub → AppFrame
build_machine_list_frame h =
    machine_list
      (map (machine_elem (list_sessions (sessions_of h))) (Machines.list h.ingest.machines))

-- `mach.State != "online" || mach.Conn == nil`, and an unknown machine: `none`.
unfoldable pub reachable : Option Machine → Option Conn
reachable none = none
reachable (some m) = elim m.state [ online ↦ m.conn | suspended ↦ none ]

unfoldable pub reply_of : String → Bool → Option String → Option String → SpawnReply
reply_of request_id true (some session_id) err = record {
  request_id = request_id;
  success = true;
  session_id = some session_id;
  error = none;
}
reply_of request_id success session_id (some e) = record {
  request_id = request_id;
  success = success;
  session_id = none;
  error = some e;
}
reply_of request_id success session_id none = record {
  request_id = request_id;
  success = success;
  session_id = none;
  error = some "spawn failed";
}

-- `attachedSession.Detach(connID)`. `Register` may have put another session in the place of the one
-- that the pointer goes to; then the connection is not among those of the session in the map, and
-- the call changes a session that nothing else sees.
abbrev pub detach_found :
    String → ℕ → String → Session → Map String Session → Option ClientConn → Map String Session
detach_found id now k s m none = m
detach_found id now k s m (some c) = insert k (detach id now s) m

abbrev pub detach_at :
    String → ℕ → String → Map String Session → Option Session → Map String Session
detach_at id now k m none = m
detach_at id now k m (some s) = detach_found id now k s m (lookup id s.attached_clients)

abbrev pub detach_in : String → ℕ → Map String Session → Option String → Map String Session
detach_in id now m none = m
detach_in id now m (some k) = detach_at id now k m (lookup k m)

unfoldable pub detach_attached : String → ℕ → Option String → Hub → Hub
detach_attached id now k = with_registry λ r. record r { sessions = detach_in id now r.sessions k }

abbrev pub set_attached : String → AppConn → Option String → Hub → Hub
set_attached id c k h = record h { conns = insert id (record c { attached = k }) h.conns }

abbrev pub forward : Conn → DaemonFrame → Bool → Hub → Hub
forward d f ok h = if ok then record h { written = h.written ++ (d, f) ∷ [] } else h

-- `app` is `json.Marshal` of the frames for an app.
module _ (app : AppFrame → Bytes) where
  abbrev pub reply : ClientConn → AppFrame → Hub → Hub
  reply c f = with_channels (send c (app f))

  -- `for _, ch := range h.subs`
  unfoldable pub send_to : List (String × ClientConn) → Bytes → Channels → Channels
  send_to [] b ch = ch
  send_to ((id, c) ∷ subs) b ch = send_to subs b (send c b ch)

  unfoldable pub broadcast_machine_list : Hub → Hub
  unfolding send_to
  broadcast_machine_list h = with_channels (send_to h.subs (app (build_machine_list_frame h))) h

  abbrev pub answer : SpawnReply → Hub → Option ClientConn → Hub
  answer r h none = h
  answer r h (some c) = reply c (spawn_response r) h

  unfoldable pub handle_spawn_response : String → Bool → Option String → Option String → Hub → Hub
  handle_spawn_response request_id success session_id err h =
      answer (reply_of request_id success session_id err)
        (record h { spawns = delete request_id h.spawns }) (lookup request_id h.spawns)
