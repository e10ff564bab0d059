-- ===== src/Tests/Apps.antt =====
-- Runs of the loops of the apps' connections, beside a daemon's.
use pi_remote.Prelude.{
  ℕ, ◌≡◌, refl, List, [], ◌∷◌, Option, none, some, true, pos, arith, get_or, ◌==◌, if◌then◌else◌,
  lookup, string_eq,
}
use pi_remote.Sessions.Channels.{Bytes, Channels, ClientConn}
use pi_remote.Sessions.Session.{Session, broadcast, attach, attach_with_replay}
use pi_remote.Sessions.Registry as Registry
use pi_remote.Machines.Registry as Machines
use pi_remote.Machines.Frames.{frame_type, looks_like_json_object, SpawnResponse}
use pi_remote.Machines.Ingest.{state_for, notify_change}
use pi_remote.Machines.Ingest.Handle.{
  handle, gated, dispatch, handle_machine_register, handle_session_started,
}
use pi_remote.Broker.Ring.{new_ring_buffer}
use pi_remote.Push as Push
use pi_remote.Http.DaemonWs as DaemonWs
use pi_remote.Http.DaemonWs.{text}
use pi_remote.Http.ConnId.{conn_id}
use pi_remote.Http.AppFrames.{AppDecoder, AppFrame, app_frame_type, AppFrameType, pty_input}
use pi_remote.Http.ClientWs.{
  Hub, AppConn, sessions_of, detach_attached, broadcast_machine_list, reachable,
}
use pi_remote.Http.ClientWs.Handlers.{handle_attach}
use pi_remote.Http.ClientWs.Handlers as Handlers
use pi_remote.Http.ClientWs.Serve.{
  Event, opened, received, daemon, new_hub, accept, admit, read, run_broadcasts, run_answers,
  daemon_step, step, serve,
}
use pi_remote.Http.ClientWs.Served.{serve_attached}
use pi_remote.Http.ClientWs.Hello.{Decided, accept-Decided}
use pi_remote.Http.ClientWs.Writes.{WritesOne, dispatch-WritesOne}
use pi_remote.Http.ClientWs.Orphans.{session_started_orphans}
use pi_remote.Tests.Values.{floats, metadata}
use pi_remote.Tests.Frames.{frame, decoder, encoder, opened as registered_one}

abbrev tagged {ℓ} : {A : Type ℓ} → ℕ → Bytes → A → Option A
tagged tag b x = if get_or b 1 0 == tag then some x else none

abbrev app_decoder : AppDecoder
app_decoder = record {
  head = λ b.
      if get_or b 1 0 == 10
      then some "client_hello"
      else if get_or b 1 0 == 11
      then some "attach"
      else if get_or b 1 0 == 15
      then some "pty_input"
      else none;
  client_hello = λ b. tagged 10 b (record { app_version = "1"; client_id = "a" });
  attach = λ b. tagged 11 b (record { last_seq = get_or b 2 0; session_id = "s" });
  detach = λ b. none;
  spawn_session = λ b. none;
  pty_input = λ b. tagged 15 b (record { bytes = "eA=="; session_id = "s" });
  pty_resize = λ b. none;
  client_focus = λ b. none;
}

abbrev app : AppFrame → Bytes
app (AppFrame.machine_list machines) = 20 ∷ []
app (AppFrame.spawn_response reply) = 21 ∷ []
app (AppFrame.replay_unavailable id earliest latest) = 22 ∷ []

abbrev phone : Push.Client
phone = record {
  id = "a";
  device_display_name = "Phone";
  last_seen = 0;
  endpoint = "";
  pub_key = [];
  registered_at = 0;
  preferences = [];
}

abbrev start : Hub
start = new_hub (pos 1000) (pos 10) true (("a", phone) ∷ []) (some [])

abbrev phone_conn : ClientConn
phone_conn = record { id = "a-1" }

abbrev phone_loop : AppConn
phone_loop = record { client_id = "a"; attached = none; writing = true }

-- Machine "m" and its session "s" register; app "a" connects and attaches to "s".
abbrev events : List (ℕ × Event)
events =
    (1, daemon (record { now = 1; conn = 1; received = text (frame 1 0) }))
    ∷ (2, daemon (record { now = 2; conn = 1; received = text (frame 2 0) }))
    ∷ (3, opened true (text (frame 10 0)))
    ∷ (4, received "a-1" (text (frame 11 0)) true)
    ∷ []

abbrev served : Hub
served = serve app_decoder app decoder encoder floats events start

abbrev or_zero : Option Session → Session
or_zero none = Registry.new_session "" "" metadata 0 (new_ring_buffer 0 0)
or_zero (some s) = s

-- The session with the app attached.
abbrev attached_session : Session
attached_session = or_zero (lookup "s" (sessions_of served))

holds_session : lookup "s" (sessions_of served) ≡ some attached_session
unfolding serve step daemon_step DaemonWs.step handle gated state_for dispatch frame_type
    looks_like_json_object handle_machine_register handle_session_started notify_change
    Registry.register run_broadcasts run_answers broadcast_machine_list accept admit conn_id read
    app_frame_type Handlers.dispatch handle_attach detach_attached attach_with_replay attach new_hub
    DaemonWs.new_ingestor Registry.new_registry_with_limits Push.get Registry.get Machines.register
holds_session = refl

holds_conn : lookup "a-1" attached_session.attached_clients ≡ some phone_conn
unfolding serve step daemon_step DaemonWs.step handle gated state_for dispatch frame_type
    looks_like_json_object handle_machine_register handle_session_started notify_change
    Registry.register run_broadcasts run_answers broadcast_machine_list accept admit conn_id read
    app_frame_type Handlers.dispatch handle_attach detach_attached attach_with_replay attach new_hub
    DaemonWs.new_ingestor Registry.new_registry_with_limits Push.get Registry.get Machines.register
holds_conn = refl

serve_attached_example :
    (c : AppConn) × (lookup "a-1" (serve app_decoder app decoder encoder floats events start).conns
      ≡ some c)
    × (c.attached ≡ some "s")
serve_attached_example =
    serve_attached app_decoder app decoder encoder floats (pos 1000) (pos 10) true
      (("a", phone) ∷ []) (some []) events "s" "a-1" attached_session phone_conn (omega arith)
      holds_session holds_conn

accept-Decided_example :
    Decided app_decoder app true
      (text (frame 10 0))
      start
      (accept app_decoder app true (text (frame 10 0)) start)
accept-Decided_example = accept-Decided app_decoder app true (text (frame 10 0)) start

dispatch-WritesOne_example :
    WritesOne served phone_loop
      (Handlers.dispatch app_decoder app AppFrameType.pty_input "a-1" phone_loop 5 true
        (frame 15 0)
        served).written
dispatch-WritesOne_example =
    dispatch-WritesOne app_decoder app "a-1" phone_loop 5 served AppFrameType.pty_input true
      (frame 15 0)

-- Input for "s" goes to connection 1.
writes_input :
    (Handlers.dispatch app_decoder app AppFrameType.pty_input "a-1" phone_loop 5 true
      (frame 15 0)
      served).written
    ≡ (1, pty_input "s" "a" "eA==") ∷ []
unfolding serve step daemon_step DaemonWs.step handle gated state_for dispatch frame_type
    looks_like_json_object handle_machine_register handle_session_started notify_change
    Registry.register run_broadcasts run_answers broadcast_machine_list accept admit conn_id read
    app_frame_type Handlers.dispatch handle_attach detach_attached attach_with_replay attach new_hub
    DaemonWs.new_ingestor Registry.new_registry_with_limits Push.get Registry.get Machines.register
    Handlers.handle_pty_input reachable Machines.get
writes_input = refl

-- The app waits for the answer to its request "r".
abbrev asking : Hub
asking = record start {
  ingest = record (start.ingest) {
    conn_state = registered_one.conn_state;
    channels = ("a-1", []) ∷ [];
  };
  spawns = ("r", phone_conn) ∷ [];
}

abbrev spawned : SpawnResponse
spawned = record { request_id = "r"; success = true; session_id = some "s"; error = none }

session_started_orphans_example :
    (s : Session) × (lookup "s"
        (handle_session_started decoder encoder floats 9
          (frame 2 0)
          served.ingest).0.sessions.sessions
      ≡ some s)
    × ((raw : Bytes) (ch : Channels) → broadcast raw s ch ≡ ch)
session_started_orphans_example =
    session_started_orphans decoder encoder floats 9 (frame 2 0) served.ingest
      (record { session_id = "s"; machine_id = "m"; metadata = metadata }) refl
