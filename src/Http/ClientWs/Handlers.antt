-- ===== src/Http/ClientWs/Handlers.antt =====
-- The cases of the `switch` in the read loop of pi-remote-coordinator/internal/http/client_ws.go.
use pi_remote.Prelude.{
  ℕ, String, str_eq, Bool, true, false, Option, none, some, lookup, insert, string_eq,
  if◌then◌else◌,
}
use pi_remote.Sessions.Channels.{Bytes, ClientConn}
use pi_remote.Sessions.Session.{Session, attach_with_replay}
use pi_remote.Sessions.Registry
use pi_remote.Machines.Registry as Machines
use pi_remote.Machines.Registry.{Conn, Machine, MachineState, online, suspended}
use pi_remote.Push as Push
use pi_remote.Http.AppFrames.{
  SpawnSession, ClientFocus, AppDecoder, AppFrameType, AppFrame, spawn_response, replay_unavailable,
  DaemonFrame, spawn_request, pty_input, pty_resize,
}
use pi_remote.Http.ClientWs.{
  AppConn, Hub, sessions_of, with_channels, with_registry, build_machine_list_frame, reachable,
  reply_of, detach_attached, set_attached, forward, reply, handle_spawn_response,
}

-- The daemon of the machine that has the session.
abbrev pub daemon_of : Hub → Option Session → Option Conn
daemon_of h none = none
daemon_of h (some s) = reachable (Machines.get s.machine_id h.ingest.machines)

abbrev pub forward_to : Option Conn → DaemonFrame → Bool → Hub → Hub
forward_to none f ok h = h
forward_to (some d) f ok h = forward d f ok h

abbrev pub is_attached_to : String → Option String → Bool
is_attached_to k none = false
is_attached_to k (some j) = str_eq j k

-- `continue` on an error of the decoder.
abbrev pub decoded {ℓ} : {A : Type ℓ} → Option A → Hub → (A → Hub) → Hub
decoded none h f = h
decoded (some msg) h f = f msg

abbrev pub focus_in :
    String → String → ClientFocus → Option Push.FocusTracker → Option Push.FocusTracker
focus_in id client_id msg none = none
focus_in id client_id msg (some t) = some (Push.set_focus id client_id msg.session_id msg.focused t)

module _ (dec : AppDecoder) (app : AppFrame → Bytes) where
  -- `AttachWithReplay` on the session, which is the one of the map still.
  abbrev pub attach_at : String → ℕ → ℕ → String → Hub → Option Session → Hub
  attach_at id last_seq now k h none = h
  attach_at id last_seq now k h (some s) =
      let res =
        attach_with_replay (record { id = id }) last_seq
          (λ earliest latest. app (replay_unavailable s.session_id earliest latest)) now
          (s, h.ingest.channels) in
      with_channels (λ _. res.0.1)
        (with_registry (λ r. record r { sessions = insert k res.0.0 r.sessions }) h)

  abbrev pub attach_found : String → AppConn → ℕ → ℕ → Hub → String → Option Session → Hub
  attach_found id c last_seq now h k none = h
  attach_found id c last_seq now h k (some _) =
      let h' = detach_attached id now c.attached h in
      set_attached id c (some k) (attach_at id last_seq now k h' (lookup k (sessions_of h')))

  unfoldable pub handle_attach : String → AppConn → ℕ → Bytes → Hub → Hub
  handle_attach id c now b h = decoded (dec.attach b) h λ msg.
      attach_found id c msg.last_seq now h msg.session_id
        (Registry.get msg.session_id h.ingest.sessions)

  unfoldable pub handle_detach : String → AppConn → ℕ → Bytes → Hub → Hub
  handle_detach id c now b h = decoded (dec.detach b) h λ msg.
      if is_attached_to msg.session_id c.attached
      then set_attached id c none (detach_attached id now c.attached h)
      else h

  unfoldable pub handle_subscribe : String → Hub → Hub
  handle_subscribe id h =
      let conn : ClientConn = record { id = id } in
      let h' = record h { subs = insert id conn h.subs } in
      reply app conn (build_machine_list_frame h') h'

  abbrev pub spawn_at : ClientConn → Bool → SpawnSession → Hub → Option Conn → Hub
  spawn_at conn ok msg h none =
      reply app conn (spawn_response (reply_of msg.request_id false none (some "Machine offline")))
        h
  spawn_at conn ok msg h (some d) =
      let h' = record h { spawns = insert msg.request_id conn h.spawns } in
      if ok
      then forward d (spawn_request msg.request_id msg.cwd msg.project_override) true h'
      else handle_spawn_response app msg.request_id false none (some "Daemon write error") h'

  -- `ok` tells whether the write to the daemon succeeds.
  unfoldable pub handle_spawn_session : String → Bool → Bytes → Hub → Hub
  handle_spawn_session id ok b h = decoded (dec.spawn_session b) h λ msg.
      spawn_at (record { id = id }) ok msg h
        (reachable (Machines.get msg.machine_id h.ingest.machines))

  unfoldable pub handle_pty_input : AppConn → Bool → Bytes → Hub → Hub
  handle_pty_input c ok b h = decoded (dec.pty_input b) h λ msg.
      forward_to (daemon_of h (Registry.get msg.session_id h.ingest.sessions))
        (pty_input msg.session_id c.client_id msg.bytes) ok h

  unfoldable pub handle_pty_resize : Bool → Bytes → Hub → Hub
  handle_pty_resize ok b h = decoded (dec.pty_resize b) h λ msg.
      forward_to (daemon_of h (Registry.get msg.session_id h.ingest.sessions))
        (pty_resize msg.session_id msg.cols msg.rows) ok h

  unfoldable pub handle_focus : String → AppConn → Bytes → Hub → Hub
  handle_focus id c b h =
      decoded (dec.client_focus b) h λ msg. record h { focus = focus_in id c.client_id msg h.focus }

  unfoldable pub dispatch : AppFrameType → String → AppConn → ℕ → Bool → Bytes → Hub → Hub
  dispatch AppFrameType.attach id c now ok b h = handle_attach id c now b h
  dispatch AppFrameType.detach id c now ok b h = handle_detach id c now b h
  dispatch AppFrameType.subscribe_machine_list id c now ok b h = handle_subscribe id h
  dispatch AppFrameType.spawn_session id c now ok b h = handle_spawn_session id ok b h
  dispatch AppFrameType.pty_input id c now ok b h = handle_pty_input c ok b h
  dispatch AppFrameType.pty_resize id c now ok b h = handle_pty_resize ok b h
  dispatch AppFrameType.client_focus id c now ok b h = handle_focus id c b h
  dispatch AppFrameType.unknown id c now ok b h = h
