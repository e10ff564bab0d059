-- ===== src/Http/ClientWs/Answers.antt =====
-- How a daemon's answer to a spawn request comes back to the app that asked:
-- `handleSpawnResponse` of pi-remote-coordinator/internal/http/client_ws.go behind the ingestor.
use pi_remote.Prelude.{ℕ, ◌≡◌, true, some, [], ◌∷◌, insert, delete, string_eq, nat_eq}
use pi_remote.Broker.Lru.{Floats}
use pi_remote.Sessions.Channels.{Bytes, ClientConn, send}
use pi_remote.Sessions.Registry.{Encoder}
use pi_remote.Machines.Frames.{Decoder, SpawnResponse, looks_like_json_object}
use pi_remote.Machines.Registry.{Conn}
use pi_remote.Machines.Ingest.{Ingestor, state_of}
use pi_remote.Machines.Ingest.Handle.{handle_spawn_response as ingest_answer}
use pi_remote.Http.DaemonWs as DaemonWs
use pi_remote.Http.DaemonWs.{text}
use pi_remote.Http.AppFrames.{AppDecoder, AppFrame, spawn_response}
use pi_remote.Http.ClientWs.{Hub, reply_of, handle_spawn_response}

-- A `spawn_response` of a registered daemon.
pub record IsAnswer (ddec : Decoder) (b : Bytes) (msg : SpawnResponse) : Type 0 where
  pub has_type : ddec.head b ≡ some "spawn_response"
  pub is_object : looks_like_json_object b ≡ true
  pub decodes : ddec.spawn_response b ≡ some msg

-- The daemon has registered, and the ingestor hands answers on.
pub record Listens (conn : Conn) (h : Hub) : Type 0 where
  pub registered : (state_of conn h.ingest).registered ≡ true
  pub hooked : h.ingest.has_spawn ≡ true

-- The ingestor behind the frame.
abbrev passed : Conn → SpawnResponse → Ingestor → Ingestor
passed conn msg i = record i {
  conn_state = insert conn (state_of conn i) i.conn_state;
  calls = 0;
  answers = msg ∷ [];
}

module _ (dec : AppDecoder) (app : AppFrame → Bytes) (ddec : Decoder) (enc : Encoder) (fl : Floats)
    (now : ℕ) (conn : Conn) (b : Bytes) (msg : SpawnResponse) (is : IsAnswer ddec b msg) where
  abbrev arrived : DaemonWs.Event
  arrived = record { now = now; conn = conn; received = text b }

  -- The state behind an answer that the app `c` waits for.
  abbrev answered : ClientConn → Hub → Hub
  answered c h = record h {
    ingest = record (passed conn msg h.ingest) {
      channels =
          send c
            (app (spawn_response (reply_of msg.request_id msg.success msg.session_id msg.error)))
            h.ingest.channels;
    };
    spawns = delete msg.request_id h.spawns;
  }
