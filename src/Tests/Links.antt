-- ===== src/Tests/Links.antt =====
-- Runs of the authentication and of the daemon's connection to the coordinator.
use pi_remote.Prelude.{
  lookup, string_eq, ℕ, pos, ◌*◌, ◌≡◌, ◌↔◌, refl, Bool, true, false, none, some, List, [], ◌∷◌,
  ◌++◌, ltb, lt→ltb, length,
}
use pi_remote.Auth.{ok, Key, Claims, Codec, CfAccess, second, verify}
use pi_remote.Auth.Accepts.{Accepted, verify-Accepted}
use pi_remote.Auth.Keys.{IsCached}
use pi_remote.Daemon.Multiplex.{Frame, session_pty}
use pi_remote.Broker.Ring.{RingBuffer}
use pi_remote.Broker.Ring.Contents.{view}
use pi_remote.Daemon.Registry.{Session, running}
use pi_remote.Machines.Frames as Frames
use pi_remote.Machines.Frames.{looks_like_json_object}
use pi_remote.Machines.Ingest.{Ingestor}
use pi_remote.Machines.Ingest.Handle.{handle}
use pi_remote.Daemon.Coordinator.Started.{announced, handle-session_started_frame}
use pi_remote.Tests.Frames as Wires
use pi_remote.Tests.Frames.{decoder, encoder, fresh}
use pi_remote.Tests.Values.{floats}
use pi_remote.Daemon.Coordinator.{
  session_started_frame, MachineRegisterInput, Wire, payload, Client, set_conn, send, handshake,
}
use pi_remote.Daemon.Coordinator.Handshakes.{
  opening, resumed_if, Always, handshake-send, handshake-resumed_lost,
}

abbrev key : Key
key = record { n = 35; e = 5 }

abbrev claims : Claims
claims = record {
  aud = "other" ∷ "app" ∷ [];
  exp = pos 200;
  nbf = pos 0;
  email = "a@b.c";
  common_name = "";
}

abbrev codec : Codec
codec = record {
  decode = λ s. some s;
  header_of = λ s. some (record { alg = "RS256"; kid = "k" });
  claims_of = λ s. some claims;
  verifies = λ k message sig. true;
}

abbrev access : CfAccess
access = record {
  access_aud = "app";
  service_token_audience = "machines";
  keys = some (("k", key) ∷ []);
  fetched_at = 0;
}

abbrev token : List ℕ
token = b'h' ∷ b'.' ∷ b'p' ∷ b'.' ∷ b's' ∷ []

verify-Accepted_example :
    ((verify codec token "app" (100 * second) none access).1 ≡ ok claims)
    ↔ Accepted codec token "app" (100 * second) none access claims
verify-Accepted_example = verify-Accepted codec token "app" (100 * second) none access claims

token-IsCached : IsCached codec access token
token-IsCached = record {
  t = record { head = b'h' ∷ []; payload = b'p' ∷ []; sig = b's' ∷ [] };
  parts = refl;
  header = record { alg = "RS256"; kid = "k" };
  headed = refl;
  key = key;
  cached = refl;
}

abbrev machine : MachineRegisterInput
machine = record {
  machine_id = "m";
  machine_display_name = "M";
  daemon_version = "1";
  capabilities = [];
}

abbrev frame : Frame
frame = session_pty "s" 3 [] 7

abbrev asleep : Client
asleep = record { conn = some 1; resume_pending = true; wire = [] }

abbrev always : List (ℕ × Wire) → Bool
always w = true

handshake-send_example :
    (handshake always machine [] (send always frame (set_conn 2 asleep)).0).0.wire
    ≡ (2, payload frame) ∷ (opening 2 machine [] ++ resumed_if 2 true)
handshake-send_example = handshake-send always 2 machine [] frame asleep (λ w. refl)

abbrev short : List (ℕ × Wire) → Bool
short w = ltb (length w) 1

handshake-resumed_lost_example :
    ((handshake short machine [] asleep).1 ≡ false)
    × ((takes : List (ℕ × Wire) → Bool)
        → Always takes
        → (handshake takes machine [] (set_conn 2 (handshake short machine [] asleep).0)).0.wire
          ≡ opening 1 machine [] ++ opening 2 machine [])
handshake-resumed_lost_example =
    handshake-resumed_lost short 1 2 machine [] [] asleep (λ w lt. lt→ltb (length w) 1 lt) refl refl
      refl

abbrev session : Session
session = record {
  session_id = "s";
  spawn_token = "";
  tmux_target = "pi:1";
  pid = 42;
  cwd = "/tmp";
  project_name = "project";
  hostname = "";
  model = "model";
  started_at = 1;
  last_heartbeat = 5;
  ended_at = 0;
  last_seq = 0;
  state = running;
  attached_clients = [];
}

abbrev announcing : Frames.Decoder
announcing = record decoder {
  session_started = λ b. some (session_started_frame "own" "host" session "m" "");
}

abbrev gate_open : Ingestor
gate_open = record fresh { conn_state = (1, record { registered = true; machine_id = "m" }) ∷ [] }

handle-session_started_frame_example :
    ((handle announcing encoder floats 9 1 (Wires.frame 2 0) gate_open).1 ≡ none)
    × ((ring : RingBuffer) × (lookup "s"
            (handle announcing encoder floats 9 1 (Wires.frame 2 0) gate_open).0.sessions.sessions
          ≡ some (announced "own" "host" "m" session 9 ring))
        × (view ring ≡ []))
unfolding looks_like_json_object
handle-session_started_frame_example =
    handle-session_started_frame announcing encoder floats 9 "own" "host" "m" session 1
      (Wires.frame 2 0) gate_open refl refl refl refl
