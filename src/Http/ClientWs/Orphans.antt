-- ===== src/Http/ClientWs/Orphans.antt =====
-- What a second `session_started` of a session does to the apps that are attached to it: `Register`
-- of pi-remote-coordinator/internal/sessions/registry.go puts a new session in its place, while the
-- loops of pi-remote-coordinator/internal/http/client_ws.go keep the old one.
use pi_remote.Prelude.{ℕ, ◌≡◌, refl, some, lookup, string_eq, lookup-insert_self}
use pi_remote.Broker.Lru.{Floats}
use pi_remote.Sessions.Channels.{Bytes, Channels}
use pi_remote.Sessions.Session.{Session, broadcast, fan_out, get_attached_clients}
use pi_remote.Sessions.Registry as Registry
use pi_remote.Sessions.Registry.{Encoder, initial_ring_max_bytes, new_session}
use pi_remote.Broker.Ring.{new_ring_buffer}
use pi_remote.Machines.Frames.{Decoder, SessionStarted}
use pi_remote.Machines.Ingest.{Ingestor}
use pi_remote.Machines.Ingest.Evolves.{notify_change-sessions}
use pi_remote.Machines.Ingest.Handle.{handle_session_started}

module _ (ddec : Decoder) (enc : Encoder) (fl : Floats) (now : ℕ) where
  -- After a `session_started` no connection is attached to the session, also where it was known and
  -- some were: a frame that is sent to its connections changes no queue.
  pub session_started_orphans :
      (b : Bytes) (i : Ingestor) (msg : SessionStarted)
      → ddec.session_started b ≡ some msg
      → (s : Session) × (lookup msg.session_id
            (handle_session_started ddec enc fl now b i).0.sessions.sessions
          ≡ some s)
        × ((raw : Bytes) (ch : Channels) → broadcast raw s ch ≡ ch)
  unfolding handle_session_started Registry.register broadcast fan_out get_attached_clients
  session_started_orphans b i msg e =
      let ring = new_ring_buffer (initial_ring_max_bytes i.sessions) now in
      let s = new_session msg.session_id msg.machine_id msg.metadata now ring in
      (
        s,
        rw (e, notify_change-sessions) (lookup-insert_self msg.session_id s i.sessions.sessions),
        λ raw ch. refl,
      )
