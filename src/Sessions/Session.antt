-- ===== src/Sessions/Session.antt =====
-- pi-remote-coordinator/internal/sessions/session.go. A session and the channels of the connections
-- are the state; the locks make each method atomic.
use pi_remote.Prelude.{
  ℕ, String, Bool, Option, List, [], ◌∷◌, length, Map, insert, delete, string_eq, map,
  if◌then◌else◌,
}
use pi_remote.Broker.Ring.{Entry, RingBuffer, append, replay}
use pi_remote.Sessions.Channels.{Bytes, Channels, ClientConn, send, send_all}

-- `State` of internal/proto/daemon-coordinator/session_state_change.go, the values that a session's
-- `State` takes.
pub data State : Type 0 where
  running idle paused unresponsive ended : State

-- `SessionStartedJsonMetadata` of internal/proto/daemon-coordinator/session_started.go.
pub record Metadata : Type 0 where
  pub cwd : String
  pub hostname : String
  pub model : String
  pub project_display_name : Option String
  pub project_name : String
  pub spawn_token : Option String
  pub started_at : ℕ

pub record Session : Type 0 where
  pub session_id : String
  pub machine_id : String
  pub metadata : Metadata
  pub state : State
  pub last_seq : ℕ
  pub ended : Bool
  pub ended_at : ℕ
  pub last_touched : ℕ
  pub ring : RingBuffer
  pub attached_clients : Map String ClientConn

unfoldable pub attach : ClientConn → ℕ → Session → Session
attach conn now s = record s {
  attached_clients = insert conn.id conn s.attached_clients;
  last_touched = now;
}

unfoldable pub detach : String → ℕ → Session → Session
detach conn_id now s = record s {
  attached_clients = delete conn_id s.attached_clients;
  last_touched = now;
}

unfoldable pub get_attached_clients : Session → List ClientConn
get_attached_clients s = map (λ (entry : String × ClientConn). entry.1) s.attached_clients

-- `for _, c := range clients { c.Send(raw) }`
unfoldable pub fan_out : List ClientConn → Bytes → Channels → Channels
fan_out [] raw ch = ch
fan_out (c ∷ cs) raw ch = fan_out cs raw (send c raw ch)

unfoldable pub publish : Entry → ℕ → Session × Channels → Session × Channels
publish entry now (s, ch) =
    (record s { ring = append entry now s.ring }, fan_out (get_attached_clients s) entry.payload ch)

unfoldable pub broadcast : Bytes → Session → Channels → Channels
broadcast raw s ch = fan_out (get_attached_clients s) raw ch

abbrev pub payloads : List Entry → List Bytes
payloads = map λ (e : Entry). e.payload

-- `unavailable` builds the `replay_unavailable` frame from the window of the ring. The result is
-- the number of entries replayed and whether the replay was granted.
unfoldable pub attach_with_replay :
    ClientConn → ℕ → (ℕ → ℕ → Bytes) → ℕ → Session × Channels → (Session × Channels) × ℕ × Bool
attach_with_replay conn last_seq unavailable now (s, ch) =
    let r = replay last_seq s.ring in
    let ch' =
      if r.ok
      then send_all conn (payloads r.entries) ch
      else send conn (unavailable r.earliest r.latest) ch in
    ((attach conn now s, ch'), length r.entries, r.ok)
