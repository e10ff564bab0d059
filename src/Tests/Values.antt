-- ===== src/Tests/Values.antt =====
-- Test data: small entries, rings under a limit of five bytes, and a session with one client.
use pi_remote.Prelude.{ℕ, ◌*◌, ◌/◌, String, List, [], ◌∷◌, ◌++◌, none, false, arith, string_eq}
use pi_remote.Broker.Ring.{Entry, event, RingBuffer, new_ring_buffer, append}
use pi_remote.Broker.Ring.History.{Tracks, new_ring_buffer-Tracks, append-Tracks}
use pi_remote.Broker.Lru.{Floats, LruItem}
use pi_remote.Sessions.Channels.{Bytes, ClientConn, Channels}
use pi_remote.Sessions.Session.{running, Metadata, Session}

abbrev pub entry : ℕ → Entry
entry n = record { seq = n; kind = event; ts = 10; payload = n ∷ n ∷ [] }

abbrev pub ring_none : RingBuffer
ring_none = new_ring_buffer 5 0

abbrev pub ring_one : RingBuffer
ring_one = append (entry 1) 1 ring_none

abbrev pub ring_two : RingBuffer
ring_two = append (entry 2) 2 ring_one

abbrev pub ring_three : RingBuffer
ring_three = append (entry 3) 3 ring_two

abbrev pub ring_four : RingBuffer
ring_four = append (entry 4) 4 ring_three

-- A ring whose first entry is numbered 5.
abbrev pub ring_five : RingBuffer
ring_five = append (entry 5) 1 ring_none

abbrev pub history_one : List Entry
history_one = entry 1 ∷ []

abbrev pub history_two : List Entry
history_two = history_one ++ entry 2 ∷ []

abbrev pub history_three : List Entry
history_three = history_two ++ entry 3 ∷ []

abbrev pub history_four : List Entry
history_four = history_three ++ entry 4 ∷ []

pub ring_one-Tracks : Tracks ring_one history_one
ring_one-Tracks =
    append-Tracks (entry 1) 1 ring_none [] (new_ring_buffer-Tracks 5 0) (omega arith) (omega arith)

pub ring_five-Tracks : Tracks ring_five (entry 5 ∷ [])
ring_five-Tracks =
    append-Tracks (entry 5) 1 ring_none [] (new_ring_buffer-Tracks 5 0) (omega arith) (omega arith)

pub ring_two-Tracks : Tracks ring_two history_two
ring_two-Tracks =
    append-Tracks (entry 2) 2 ring_one history_one ring_one-Tracks (omega arith) (omega arith)

pub ring_three-Tracks : Tracks ring_three history_three
ring_three-Tracks =
    append-Tracks (entry 3) 3 ring_two history_two ring_two-Tracks (omega arith) (omega arith)

pub ring_four-Tracks : Tracks ring_four history_four
ring_four-Tracks =
    append-Tracks (entry 4) 4 ring_three history_three ring_three-Tracks (omega arith) (omega arith)

-- The products, rounded down.
abbrev pub floats : Floats
floats = record {
  eighty_percent = λ x. x * 8 / 10;
  grown = λ x. x * 11 / 10;
  shrunk = λ x. x * 9 / 10;
  grown_ge = λ x. omega arith;
  shrunk_le = λ x. omega arith;
  shrunk_lt = λ x pos. omega arith;
}

abbrev pub item : String → ℕ → RingBuffer → LruItem
item id touched ring = record {
  session_id = id;
  ended = false;
  last_touched = touched;
  ring = ring;
}

abbrev pub two_items : List LruItem
two_items = item "s" 1 ring_two ∷ item "t" 2 ring_four ∷ []

abbrev pub metadata : Metadata
metadata = record {
  cwd = "/tmp";
  hostname = "host";
  model = "model";
  project_display_name = none;
  project_name = "project";
  spawn_token = none;
  started_at = 1;
}

abbrev pub session : RingBuffer → Session
session ring = record {
  session_id = "s";
  machine_id = "m";
  metadata = metadata;
  state = running;
  last_seq = 4;
  ended = false;
  ended_at = 0;
  last_touched = 4;
  ring = ring;
  attached_clients = [];
}

abbrev pub client : ClientConn
client = record { id = "c" }

abbrev pub channels : Channels
channels = ("c", []) ∷ []

abbrev pub unavailable : ℕ → ℕ → Bytes
unavailable earliest latest = earliest ∷ latest ∷ []
