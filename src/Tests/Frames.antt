-- ===== src/Tests/Frames.antt =====
-- A small wire format for tests: a brace, a tag for the frame's type, a number.
use pi_remote.Prelude.{
  ℕ, ◌+◌, ◌%◌, ◌^◌, ◌≡◌, ◌≤◌, ◌<◌, String, List, [], ◌∷◌, Option, none, some, Bool, true, false,
  arith, get_or, ◌==◌, if◌then◌else◌, subst, string_eq, nat_eq, insert,
}
use mathlib.Core.Option.{some-injective}
use pi_remote.Broker.Ring.{Entry}
use pi_remote.Sessions.Channels.{Bytes}
use pi_remote.Sessions.Registry
use pi_remote.Sessions.Registry.{Encoder}
use pi_remote.Sessions.Registry.Histories.{AllTracked, set_history, register-AllTracked}
use pi_remote.Machines.Frames.{Decoder, EventKind, SessionEvent, SessionPty}
use pi_remote.Machines.Ingest.{Ingestor}
use pi_remote.Http.DaemonWs.{new_ingestor}
use pi_remote.Tests.Values.{metadata}

abbrev pub frame : ℕ → ℕ → Bytes
frame tag n = b'{' ∷ tag ∷ n ∷ []

abbrev tagged {ℓ} : {A : Type ℓ} → ℕ → Bytes → A → Option A
tagged tag b x = if get_or b 1 0 == tag then some x else none

abbrev event_of : Bytes → SessionEvent
event_of b = record {
  session_id = "s";
  seq = 1 + get_or b 2 0 % 1000;
  kind = EventKind.tool_failure;
  ts = 0;
}

abbrev pty_of : Bytes → SessionPty
pty_of b = record { session_id = "s"; seq = 1 + get_or b 2 0 % 1000; ts = 0 }

pub event_bounds :
    (t : Bool) (b : Bytes) (m : SessionEvent)
    → (if t then some (event_of b) else none) ≡ some m
    → (1 ≤ m.seq) × (m.seq < 2 ^ 63)
event_bounds true b m e =
    subst (λ (z : SessionEvent). (1 ≤ z.seq) × (z.seq < 2 ^ 63)) (some-injective _ _ e)
      (omega arith, omega arith)
event_bounds false b m e = cc

pub pty_bounds :
    (t : Bool) (b : Bytes) (m : SessionPty)
    → (if t then some (pty_of b) else none) ≡ some m
    → (1 ≤ m.seq) × (m.seq < 2 ^ 63)
pty_bounds true b m e =
    subst (λ (z : SessionPty). (1 ≤ z.seq) × (z.seq < 2 ^ 63)) (some-injective _ _ e)
      (omega arith, omega arith)
pty_bounds false b m e = cc

abbrev pub decoder : Decoder
decoder = record {
  head = λ b.
      if get_or b 1 0 == 1
      then some "machine_register"
      else if get_or b 1 0 == 2
      then some "session_started"
      else if get_or b 1 0 == 3
      then some "session_event"
      else if get_or b 1 0 == 4
      then some "session_pty"
      else if get_or b 1 0 == 5
      then some "machine_suspending"
      else if get_or b 1 0 == 6
      then some "spawn_response"
      else none;
  machine_register = λ b. tagged 1 b (record {
    machine_id = "m";
    machine_display_name = "Machine";
    daemon_version = "1";
    capabilities = [];
  });
  session_started =
      λ b. tagged 2 b (record { session_id = "s"; machine_id = "m"; metadata = metadata });
  session_event = λ b. tagged 3 b (event_of b);
  session_pty = λ b. tagged 4 b (pty_of b);
  session_state_change = λ b. none;
  session_ended = λ b. none;
  session_resume = λ b. none;
  spawn_response = λ b.
      tagged 6 b (record { request_id = "r"; success = true; session_id = some "s"; error = none });
  data_string = λ b k. "";
  event_range = λ b m e. event_bounds (get_or b 1 0 == 3) b m e;
  pty_range = λ b m e. pty_bounds (get_or b 1 0 == 4) b m e;
}

abbrev pub encoder : Encoder
encoder = record {
  state_change = λ id machine from to. 1 ∷ [];
  session_ended = λ id machine reason. 2 ∷ [];
}

abbrev pub no_history : String → List Entry
no_history id = []

abbrev pub empty : Registry.Registry
empty = record { sessions = []; total_cache_bytes = 1000; session_cache_floor_bytes = 10 }

-- One session, of machine "m".
abbrev pub known : Registry.Registry
known = Registry.register "s" "m" metadata 1 empty

abbrev pub history : String → List Entry
history = set_history "s" [] no_history

pub known-AllTracked : AllTracked history known.sessions
known-AllTracked = register-AllTracked no_history empty (λ id s e. cc) "s" "m" metadata 1

-- An ingestor before any frame, and one where connection 1 has registered machine "m".
abbrev pub fresh : Ingestor
fresh = new_ingestor known true true true

abbrev pub opened : Ingestor
opened = record fresh { conn_state = insert 1 (record { registered = true; machine_id = "m" }) [] }
