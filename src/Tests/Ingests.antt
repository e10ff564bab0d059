-- ===== src/Tests/Ingests.antt =====
-- Runs of the ingestor and of the loops of the daemon connections.
use pi_remote.Prelude.{
  ℕ, length, ◌<◌, ◌≡◌, ◌≢◌, refl, List, [], ◌∷◌, none, some, true, arith, pos, lookup, string_eq,
  String, eq_iff,
}
use mathlib.Core.Option.{some-injective}
use pi_remote.Machines.Frames.{EventKind, looks_like_json_object, frame_type}
use pi_remote.Broker.Ring.{new_ring_buffer}
use pi_remote.Sessions.Registry
use pi_remote.Sessions.Registry.{new_session, initial_ring_max_bytes}
use pi_remote.Machines.Registry as Machines
use pi_remote.Machines.Registry.{Conn, online, Machine}
use pi_remote.Machines.Ingest.{state_of, no_state, state_for, notify_change}
use pi_remote.Machines.Ingest.Handle.{
  handle, handle_session_event, gated, dispatch, handle_machine_register,
}
use pi_remote.Machines.Ingest.Evolves.{Evolves}
use pi_remote.Machines.Ingest.Histories.{handle-Evolves}
use pi_remote.Http.DaemonWs.Again.{handle_session_event_again}
use pi_remote.Machines.Ingest.Gate.{handle_refuses}
use pi_remote.Http.DaemonWs.{Event, text, failed, new_ingestor, serve, on_exit}
use pi_remote.Http.DaemonWs.Synced.{Synced, AllTexts, serve_new}
use pi_remote.Http.DaemonWs.Exit.{after_exit, on_exit_pauses}
use pi_remote.Tests.Values.{floats, metadata}
use pi_remote.Tests.Frames.{
  frame, decoder, encoder, history, known-AllTracked, empty, fresh, opened,
}

handle-Evolves_example :
    Evolves (frame 3 4) history (handle decoder encoder floats 9 1 (frame 3 4) opened).0.sessions
unfolding new_ingestor Registry.register
handle-Evolves_example =
    handle-Evolves decoder encoder floats 9 history 1 (frame 3 4) opened known-AllTracked

abbrev between : List Event
between =
    record { now = 10; conn = 1; received = text (frame 4 6) }
    ∷ record { now = 11; conn = 1; received = failed }
    ∷ record { now = 12; conn = 2; received = text (frame 1 0) }
    ∷ []

handle_session_event_again_example :
    let i' =
      serve decoder encoder floats true between
        (handle_session_event decoder encoder floats 9 (frame 3 4) opened).0 in
    (handle_session_event decoder encoder floats 13 (frame 3 4) i').0 ≡ i'
unfolding new_ingestor Registry.register frame_type
handle_session_event_again_example =
    handle_session_event_again decoder encoder floats true 9 13 (frame 3 4) opened
      (record { session_id = "s"; seq = 5; kind = EventKind.tool_failure; ts = 0 })
      (new_session "s" "m" metadata 1 (new_ring_buffer (initial_ring_max_bytes empty) 1)) between
      refl refl (tt, (tt, (tt, tt)))

other_head : decoder.head (frame 3 4) ≢ some "machine_register"
other_head e =
    let same = (eq_iff "session_event" "machine_register").1 (some-injective _ _ e) in cc same

handle_refuses_example :
    ((handle decoder encoder floats 9 1 (frame 3 4) fresh).1 ≢ none)
    × ((c : Conn)
        → state_of c (handle decoder encoder floats 9 1 (frame 3 4) fresh).0 ≡ state_of c fresh)
    × ((handle decoder encoder floats 9 1 (frame 3 4) fresh).0 ≡ record fresh {
      conn_state = (handle decoder encoder floats 9 1 (frame 3 4) fresh).0.conn_state;
    })
unfolding new_ingestor
handle_refuses_example = handle_refuses decoder encoder floats 9 1 (frame 3 4) fresh refl other_head

accepted : (handle decoder encoder floats 9 1 (frame 1 0) fresh).1 ≡ none
unfolding handle gated dispatch handle_machine_register new_ingestor state_for
    looks_like_json_object frame_type notify_change
accepted = refl

abbrev events : List Event
events =
    record { now = 1; conn = 1; received = text (frame 1 0) }
    ∷ record { now = 2; conn = 1; received = text (frame 2 0) }
    ∷ record { now = 3; conn = 1; received = text (frame 3 7) }
    ∷ record { now = 4; conn = 1; received = failed }
    ∷ []

-- The frame is not empty.
abbrev IsFrame : List ℕ → Type 0
IsFrame b = 0 < length b

frames : AllTexts IsFrame events
frames = (omega arith, (omega arith, (omega arith, (tt, tt))))

serve_new_example :
    Synced IsFrame
      (serve decoder encoder floats true events
        (new_ingestor (Registry.new_registry_with_limits (pos 0) (pos 0)) true true true)).sessions
serve_new_example =
    serve_new decoder encoder floats true IsFrame (pos 0) (pos 0) true true true events frames

on_exit_pauses_example :
    ((id : String)
      → lookup id (on_exit decoder encoder floats true 9 1 opened).sessions.sessions
        ≡ after_exit "m" 9 (lookup id opened.sessions.sessions))
    × ((on_exit decoder encoder floats true 9 1 opened).machines ≡ opened.machines)
    × (state_of 1 (on_exit decoder encoder floats true 9 1 opened) ≡ no_state)
on_exit_pauses_example = on_exit_pauses decoder encoder floats true 9 1 opened refl

abbrev taken : Machines.Registry
taken = (Machines.register "m" "Machine" "1" [] (some 1) 5 []).0

abbrev first : Machine
first = record {
  id = "m";
  display_name = "Machine";
  daemon_version = "1";
  capabilities = [];
  state = online;
  conn = some 1;
  last_seen = 5;
}

holds_first : Machines.get "m" taken ≡ some first
unfolding Machines.get Machines.register
holds_first = refl
