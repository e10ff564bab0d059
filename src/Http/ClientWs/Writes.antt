-- ===== src/Http/ClientWs/Writes.antt =====
-- What the frames of an app make the coordinator write to the daemons, and how a daemon's answer
-- comes back to the app that asked.
use pi_remote.Prelude.{
  ℕ, ◌≡◌, refl, ◌⊎◌, inl, inr, String, Bool, true, false, Option, none, some, List, [], ◌∷◌, ◌++◌,
  lookup, string_eq, nat_eq, if_cases,
}
use pi_remote.Sessions.Channels.{Bytes, ClientConn}
use pi_remote.Sessions.Session.{Session}
use pi_remote.Sessions.Registry as Registry
use pi_remote.Sessions.Registry.{Encoder}
use pi_remote.Machines.Registry as Machines
use pi_remote.Machines.Registry.{Conn, Machine, online, suspended}
use pi_remote.Http.AppFrames.{
  AppDecoder, AppFrame, AppFrameType, SpawnSession, SpawnReply, DaemonFrame, spawn_request,
  pty_input, pty_resize,
}
use pi_remote.Http.ClientWs.{
  AppConn, Hub, sessions_of, detach_attached, reachable, answer, handle_spawn_response,
}
use pi_remote.Http.ClientWs.Handlers.{
  decoded, attach_at, attach_found, handle_attach, handle_detach, handle_subscribe, spawn_at,
  handle_spawn_session, daemon_of, forward_to, handle_pty_input, handle_pty_resize, handle_focus,
  dispatch,
}

-- `d` is the connection of the machine, which is online.
abbrev pub Serves : Hub → String → Conn → Type 0
Serves h machine_id d =
    (m : Machine) × (lookup machine_id h.ingest.machines ≡ some m)
    × (m.state ≡ online)
    × (m.conn ≡ some d)

-- `d` is the connection of the machine that has the session.
abbrev pub ServesSession : Hub → String → Conn → Type 0
ServesSession h k d = (s : Session) × (lookup k (sessions_of h) ≡ some s) × Serves h s.machine_id d

-- A frame that the loop of `c` may write to `d`.
abbrev pub Addressed : Hub → AppConn → Conn → DaemonFrame → Type 0
Addressed h c d (spawn_request request_id cwd po) = (machine_id : String) × Serves h machine_id d
Addressed h c d (pty_input k client_id bytes) = (client_id ≡ c.client_id) × ServesSession h k d
Addressed h c d (pty_resize k cols rows) = ServesSession h k d

-- Nothing, or one such frame, is added to what was written.
abbrev pub WritesOne : Hub → AppConn → List (Conn × DaemonFrame) → Type 0
WritesOne h c written =
    (written ≡ h.written)
    ⊎ ((d : Conn) × (f : DaemonFrame) × Addressed h c d f × (written ≡ h.written ++ (d, f) ∷ []))

reachable-Serves :
    (h : Hub) (machine_id : String) (d : Conn)
    → reachable (Machines.get machine_id h.ingest.machines) ≡ some d
    → Serves h machine_id d
unfolding reachable Machines.get
reachable-Serves h machine_id d = go (lookup machine_id h.ingest.machines) refl
  where
    of_state :
        (m : Machine) (st : _)
        → m.state ≡ st
        → lookup machine_id h.ingest.machines ≡ some m
        → reachable (some (record m { state = st })) ≡ some d
        → Serves h machine_id d
    of_state m online st l e = (m, l, st, e)
    of_state m suspended st l e = cc

    go :
        (o : Option Machine)
        → lookup machine_id h.ingest.machines ≡ o
        → reachable o ≡ some d
        → Serves h machine_id d
    go none l e = cc
    go (some m) l e = of_state m m.state refl l e

daemon_of-ServesSession :
    (h : Hub) (k : String) (d : Conn)
    → daemon_of h (Registry.get k h.ingest.sessions) ≡ some d
    → ServesSession h k d
unfolding Registry.get
daemon_of-ServesSession h k d = go (lookup k (sessions_of h)) refl
  where
    go :
        (o : Option Session)
        → lookup k (sessions_of h) ≡ o
        → daemon_of h o ≡ some d
        → ServesSession h k d
    go none l e = cc
    go (some s) l e = (s, l, reachable-Serves h s.machine_id d e)

forward_to-WritesOne :
    (h : Hub) (c : AppConn) (o : Option Conn) (f : DaemonFrame) (ok : Bool)
    → ((d : Conn) → o ≡ some d → Addressed h c d f)
    → WritesOne h c (forward_to o f ok h).written
forward_to-WritesOne h c none f ok may = inl refl
forward_to-WritesOne h c (some d) f true may = inr (d, f, may d refl, refl)
forward_to-WritesOne h c (some d) f false may = inl refl

answer-written :
    (app : AppFrame → Bytes) (r : SpawnReply) (h : Hub) (o : Option ClientConn)
    → (answer app r h o).written ≡ h.written
answer-written app r h none = refl
answer-written app r h (some c) = refl

module _ (dec : AppDecoder) (app : AppFrame → Bytes) (id : String) (c : AppConn) (now : ℕ)
    (h : Hub) where
  decoded-WritesOne {ℓ} :
      {A : Type ℓ} (o : Option A) (f : A → Hub)
      → ((msg : A) → WritesOne h c (f msg).written)
      → WritesOne h c (decoded o h f).written
  decoded-WritesOne none f k = inl refl
  decoded-WritesOne (some msg) f k = k msg

  spawn_at-WritesOne :
      (ok : Bool) (msg : SpawnSession) (o : Option Conn)
      → reachable (Machines.get msg.machine_id h.ingest.machines) ≡ o
      → WritesOne h c (spawn_at dec app (record { id = id }) ok msg h o).written
  unfolding handle_spawn_response
  spawn_at-WritesOne ok msg none e = inl refl
  spawn_at-WritesOne true msg (some d) e =
      inr (d, _, (msg.machine_id, reachable-Serves h msg.machine_id d e), refl)
  spawn_at-WritesOne false msg (some d) e = inl (answer-written app _ _ _)

  attach_at-written :
      (last_seq : ℕ) (k : String) (o : Option Session)
      → (attach_at dec app id last_seq now k (detach_attached id now c.attached h) o).written
        ≡ h.written
  unfolding detach_attached
  attach_at-written last_seq k none = refl
  attach_at-written last_seq k (some s) = refl

  attach_found-written :
      (last_seq : ℕ) (k : String) (o : Option Session)
      → (attach_found dec app id c last_seq now h k o).written ≡ h.written
  attach_found-written last_seq k none = refl
  attach_found-written last_seq k (some s) = attach_at-written last_seq k _

  -- A frame of an app makes the coordinator write one frame to a daemon at most: a spawn request to
  -- the connection of an online machine, or input or a new size to the connection of the machine
  -- that has the session, and input bears the id of the app's own client.
  pub dispatch-WritesOne :
      (t : AppFrameType) (ok : Bool) (b : Bytes)
      → WritesOne h c (dispatch dec app t id c now ok b h).written
  unfolding dispatch handle_attach handle_detach detach_attached handle_subscribe
      handle_spawn_session handle_pty_input handle_pty_resize handle_focus
  dispatch-WritesOne AppFrameType.attach ok b =
      decoded-WritesOne (dec.attach b) _ λ msg. inl (attach_found-written _ _ _)
  dispatch-WritesOne AppFrameType.detach ok b =
      decoded-WritesOne (dec.detach b) _
        λ msg. if_cases (λ (z : Hub). WritesOne h c z.written) _ _ _ (λ e. inl refl) (λ e. inl refl)
  dispatch-WritesOne AppFrameType.subscribe_machine_list ok b = inl refl
  dispatch-WritesOne AppFrameType.spawn_session ok b =
      decoded-WritesOne (dec.spawn_session b) _ λ msg. spawn_at-WritesOne ok msg _ refl
  dispatch-WritesOne AppFrameType.pty_input ok b = decoded-WritesOne (dec.pty_input b) _ λ msg.
      forward_to-WritesOne h c _ _ ok λ d e. (refl, daemon_of-ServesSession h msg.session_id d e)
  dispatch-WritesOne AppFrameType.pty_resize ok b =
      decoded-WritesOne (dec.pty_resize b) _
        λ msg. forward_to-WritesOne h c _ _ ok λ d e. daemon_of-ServesSession h msg.session_id d e
  dispatch-WritesOne AppFrameType.client_focus ok b =
      decoded-WritesOne (dec.client_focus b) _ λ msg. inl refl
  dispatch-WritesOne AppFrameType.unknown ok b = inl refl
