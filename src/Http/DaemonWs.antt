-- ===== src/Http/DaemonWs.antt =====
-- pi-remote-coordinator/internal/http/daemon_ws.go: the read loop of a daemon connection. The loops
-- of several connections run at once; a list of events says in which order their steps came.
pub mod Synced
pub mod Exit
pub mod Again
use pi_remote.Prelude.{ℕ, ◌+◌, Bool, String, Option, none, some, List, [], ◌∷◌, if◌then◌else◌}
use pi_remote.Broker.Lru.{Floats}
use pi_remote.Sessions.Channels.{Bytes}
use pi_remote.Sessions.Registry
use pi_remote.Sessions.Registry.{Encoder}
use pi_remote.Machines.Registry as Machines
use pi_remote.Machines.Registry.{Conn}
use pi_remote.Machines.Frames.{Decoder}
use pi_remote.Machines.Ingest.{IngestError, Ingestor, forget_conn, machine_id_for_conn}
use pi_remote.Machines.Ingest.Handle.{Outcome, handle}

-- What `Read` returns: a text message, a message of another type, or an error.
pub data Received : Type 0 where
  text : Bytes → Received
  other : Received
  failed : Received

-- One step of the loop of a connection, with the time at which it is made.
pub record Event : Type 0 where
  pub now : ℕ
  pub conn : Conn
  pub received : Received

-- `NewIngestor`, with the hooks that are set on it.
unfoldable pub new_ingestor : Registry.Registry → Bool → Bool → Bool → Ingestor
new_ingestor sessions has_push has_change has_spawn = record {
  machines = [];
  sessions = sessions;
  channels = [];
  conn_state = [];
  has_push = has_push;
  has_change = has_change;
  has_spawn = has_spawn;
  pushes = [];
  calls = 0;
  answers = [];
  closed = [];
}

-- `hook` tells whether the handler has an `onMachineChange` of its own; its calls are counted with
-- those of the ingestor.
module _ (dec : Decoder) (enc : Encoder) (fl : Floats) (hook : Bool) where
  abbrev pub pause_known : ℕ → Option String → Ingestor → Ingestor
  pause_known now none i = i
  pause_known now (some machine_id) i =
      let (r, ch) = Registry.pause_all_for_machine enc machine_id now (i.sessions, i.channels) in
      let j = record i { sessions = r; channels = ch } in
      if hook then record j { calls = j.calls + 1 } else j

  -- The deferred clean-up.
  unfoldable pub on_exit : ℕ → Conn → Ingestor → Ingestor
  on_exit now conn i = forget_conn conn (pause_known now (machine_id_for_conn conn i) i)

  abbrev pub go_on : ℕ → Conn → Outcome → Ingestor
  go_on now conn (i, none) = i
  go_on now conn (i, some err) = on_exit now conn i

  -- An error of `Read` or of `Handle` ends the loop.
  unfoldable pub step : Event → Ingestor → Ingestor
  step e i = elim e.received [
    | text b ↦ go_on e.now e.conn (handle dec enc fl e.now e.conn b i)
    | other ↦ i
    | failed ↦ on_exit e.now e.conn i
  ]

  unfoldable pub serve : List Event → Ingestor → Ingestor
  serve [] i = i
  serve (e ∷ es) i = serve es (step e i)
