-- ===== src/Daemon/Coordinator/Started.antt =====
-- A session of the daemon as the coordinator knows it, after the frame that announces it.
use pi_remote.Prelude.{
  ℕ, ◌≡◌, refl, String, str_eq, true, false, some, none, [], lookup, string_eq, lookup-insert_self,
  if◌then◌else◌,
}
use pi_remote.Broker.Lru.{Floats}
use pi_remote.Broker.Ring.{RingBuffer, new_ring_buffer}
use pi_remote.Broker.Ring.Contents.{view}
use pi_remote.Sessions.Channels.{Bytes}
use pi_remote.Sessions.Session.{running, Session as Coordinated}
use pi_remote.Sessions.Registry as Registry
use pi_remote.Sessions.Registry.{Encoder, initial_ring_max_bytes, new_session}
use pi_remote.Machines.Registry.{Conn}
use pi_remote.Machines.Frames as Frames
use pi_remote.Machines.Frames.{frame_type, looks_like_json_object}
use pi_remote.Machines.Ingest.{Ingestor, state_of, state_for}
use pi_remote.Machines.Ingest.Connections.{state_of-state_for}
use pi_remote.Machines.Ingest.Evolves.{notify_change-sessions}
use pi_remote.Machines.Ingest.Handle.{gated, dispatch, handle_session_started, handle}
use pi_remote.Daemon.Registry.{Session}
use pi_remote.Daemon.Coordinator.{new_session_started, session_started_frame}

-- A running session with the ids and metadata of the daemon's, which is not ended, has no number yet
-- and no attached connection; the daemon's own machine and host name stand in for empty ones.
abbrev pub announced : String → String → String → Session → ℕ → RingBuffer → Coordinated
announced own_machine own_hostname machine_id s now ring = record {
  session_id = s.session_id;
  machine_id = if str_eq machine_id "" then own_machine else machine_id;
  metadata = record {
    cwd = s.cwd;
    hostname = if str_eq s.hostname "" then own_hostname else s.hostname;
    model = s.model;
    project_display_name = none;
    project_name = s.project_name;
    spawn_token = if str_eq s.spawn_token "" then none else some s.spawn_token;
    started_at = s.started_at;
  };
  state = running;
  last_seq = 0;
  ended = false;
  ended_at = 0;
  last_touched = now;
  ring = ring;
  attached_clients = [];
}

module _ (dec : Frames.Decoder) (enc : Encoder) (fl : Floats) (now : ℕ) where
  -- The coordinator takes the session_started frame that the daemon builds for a session, on a
  -- connection that is registered, where its decoding gives back what the builder made: it then has
  -- under that id a running session with an empty ring, no number and no attached connection, of the
  -- machine that the builder is given or else the daemon's own, with each field of the session's
  -- metadata and, where that has no host name, the daemon's.
  pub handle-session_started_frame :
      (own_machine own_hostname machine_id : String) (s : Session) (conn : Conn) (b : Bytes)
      (i : Ingestor)
      → dec.head b ≡ some "session_started"
      → looks_like_json_object b ≡ true
      → dec.session_started b
        ≡ some (session_started_frame own_machine own_hostname s machine_id "")
      → (state_of conn i).registered ≡ true
      → let o = handle dec enc fl now conn b i in
        (o.1 ≡ none)
        × ((ring : RingBuffer) × (lookup s.session_id o.0.sessions.sessions
              ≡ some (announced own_machine own_hostname machine_id s now ring))
            × (view ring ≡ []))
  unfolding handle gated frame_type dispatch handle_session_started Registry.register
      session_started_frame new_session_started state_for new_session new_ring_buffer
  handle-session_started_frame own_machine own_hostname machine_id s conn b i head json decoded
        open_gate =
      rw (head, json, state_of-state_for conn conn i, open_gate, decoded)
        (
          refl,
          (
            ring,
            rw notify_change-sessions (lookup-insert_self s.session_id session i.sessions.sessions),
            refl,
          ),
        )
    where
      ring : RingBuffer
      ring = new_ring_buffer (initial_ring_max_bytes i.sessions) now

      session : Coordinated
      session = announced own_machine own_hostname machine_id s now ring
