-- ===== src/Tests/Daemons.antt =====
-- Runs of the daemon's registry.
use pi_remote.Prelude.{
  Option, Bool, ℕ, ◌+◌, ◌≤◌, ◌≡◌, refl, String, true, false, some, List, [], ◌∷◌, arith, lookup,
  string_eq,
}
use pi_remote.Daemon.Registry.{
  Session, Hooks, Registry, new_registry, running, register, already_ended, mark_ended,
  remove_with_reason, stamped,
}
use pi_remote.Daemon.Registry.Calls.{Op, registering, beating, removing, marking, run, ended_calls}
use pi_remote.Daemon.Registry.Ending.{ends_once}
use pi_remote.Daemon.Registry.Reuse.{register_ended}
use pi_remote.Daemon.Client as Connecting
use pi_remote.Daemon.Client.{Round, refused, served, cancelled_asleep, backoff_initial}
use pi_remote.Daemon.Client.Backoff.{schedule, run-schedule}
use pi_remote.Daemon.Multiplex.{
  ExtEvent, up, new_multiplex, peek, register_built, event_built, pty_built, complete,
  is_known_event_kind, alloc_for,
}
use pi_remote.Ptymux.Sanitizer.{sanitize}
use pi_remote.Daemon.Multiplex.Numbers.{numbers, carriers, allowed}
use pi_remote.Daemon.Multiplex.Calls as Multiplexing
use pi_remote.Daemon.Multiplex.Calls.{Step, Calls, registered, evented, printed, begins, completes}
use pi_remote.Daemon.Multiplex.Interleaved.{no_calls, run-once}

abbrev session : Session
session = record {
  session_id = "s";
  spawn_token = "";
  tmux_target = "pi:1";
  pid = 42;
  cwd = "/tmp";
  project_name = "project";
  hostname = "host";
  model = "model";
  started_at = 1;
  last_heartbeat = 5;
  ended_at = 0;
  last_seq = 0;
  state = running;
  attached_clients = [];
}

abbrev hooks : Hooks
hooks = record {
  has_register = true;
  has_heartbeat = false;
  has_ended = true;
  has_event = true;
  has_state_change = true;
}

abbrev holding : Registry
holding = record { sessions = ("s", session) ∷ []; ended = []; hooks = hooks; calls = [] }

abbrev after_end : Registry
after_end = record { sessions = []; ended = ("s", true) ∷ []; hooks = hooks; calls = [] }

abbrev ops : List Op
ops =
    registering session 1
    ∷ beating "s" 6
    ∷ marking "s" 8
    ∷ removing "s" "error" 9
    ∷ registering session 10
    ∷ marking "s" 11
    ∷ []

ends_once_example :
    (ended_calls "s" (run ops (new_registry hooks)).calls ≤ 1)
    × (already_ended "s" (run ops (new_registry hooks)) ≡ false
        → ended_calls "s" (run ops (new_registry hooks)).calls ≡ 0)
ends_once_example = ends_once "s" hooks ops

register_ended_example :
    ((register session 20 after_end).1 ≡ true)
    × (lookup "s" (register session 20 after_end).0.sessions ≡ some (stamped 20 session))
    × ((now' : ℕ)
        → mark_ended "s" now' (register session 20 after_end).0 ≡ (register session 20 after_end).0)
    × ((reason : String) (now' : ℕ)
        → (remove_with_reason "s" reason now' (register session 20 after_end).0).calls
          ≡ (register session 20 after_end).0.calls)
register_ended_example = register_ended session 20 after_end refl refl

abbrev parse : List ℕ → Option ExtEvent
parse b = some (record { kind = "agent_start"; ts = 3; content = b })

-- Two calls take their numbers, and the second sends its frame first.
abbrev crossing : List Step
crossing =
    begins (registered session)
    ∷ completes 0 up
    ∷ begins (evented "s" (1 ∷ []) 4)
    ∷ begins (printed "s" (3 ∷ []) 6)
    ∷ completes 0 up
    ∷ completes 0 up
    ∷ begins (evented "s" (2 ∷ []) 5)
    ∷ []

run-once_example :
    let c = Multiplexing.run parse "m" crossing no_calls in
    carriers "s" 2 c.multiplex.sent + carriers "s" 2 c.flight + carriers "s" 2 c.dropped
    ≡ allowed (peek "s" c.multiplex) 2
run-once_example =
    run-once parse "m" "s" 2 crossing (tt, (tt, (tt, (tt, (tt, (tt, (tt, tt))))))) (omega arith)

-- The frames then go out of order.
crossed : numbers "s" (Multiplexing.run parse "m" crossing no_calls).multiplex.sent ≡ 2 ∷ 1 ∷ []
unfolding Multiplexing.run Multiplexing.step Multiplexing.begin new_multiplex register_built
    event_built pty_built complete sanitize is_known_event_kind alloc_for
crossed = refl

abbrev alive : ℕ → Bool
alive pid = true

abbrev rounds : List Round
rounds = refused ∷ refused ∷ served 3600 ∷ refused ∷ cancelled_asleep ∷ []

run-schedule_example :
    Connecting.run backoff_initial rounds ≡ schedule 0 (Connecting.run backoff_initial rounds)
run-schedule_example = run-schedule rounds
