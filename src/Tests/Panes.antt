-- ===== src/Tests/Panes.antt =====
-- Runs of the tmux client and of an extension's connection.
use pi_remote.Prelude.{
  ℕ, ◌≡◌, ◌≢◌, ◌==◌, refl, String, Bool, true, false, not, Option, none, some, List, [], ◌∷◌, ◌++◌,
  lookup, string_eq, if◌then◌else◌, arith,
}
use pi_remote.Daemon.Registry.{
  Session, Hooks, Registry, running, ended, is_ended, snapshot, live_of, remove_with_reason,
  register, err_duplicate,
}
use pi_remote.Daemon.Socket.{RegisterFrame, Decoder, ack_of, session_of, handle_register, serve}
use pi_remote.Daemon.Socket.Ends.{Outcome, broken, serve_ends}
use pi_remote.Daemon.Multiplex.{up, new_multiplex}
use pi_remote.Daemon.Tmux.Lines.{bytes, line_eq}
use pi_remote.Daemon.Tmux.Escapes.{deescape_tmux}
use pi_remote.Daemon.Tmux.Escapes.Codes.{escape, deescape_tmux-escape}
use pi_remote.Daemon.Tmux.Reader.{
  Client, Reader, Input, started_reader, step, scan, forward, read_loop, on_stop,
  handle_exit_notification, remove_all,
}
use pi_remote.Daemon.Tmux.Reader.Output.{output_line, step-output}
use pi_remote.Daemon.Tmux.Reader.Commands.{give_up}
use pi_remote.Daemon.Tmux.Reader.Replies.{Reply, IsReply, inputs_of, result}
use pi_remote.Daemon.Tmux.Reader.Late.{give_up_shifts}
use pi_remote.Daemon.Tmux.Reader.Exit.{read_loop-ended}
use pi_remote.Daemon.Tmux.Panes.{
  display_pane, display_window, list_windows, Tmux, Panes, clean_pane, clean_panes, map_pane,
}
use pi_remote.Daemon.Tmux.Panes.Live.{IsMapped, IsKnown, StoredAt, map_pane-IsMapped}
use pi_remote.Daemon.Tmux.Captures.{screen, decimal_from, fields}
use pi_remote.Daemon.Tmux.Targets.{Processes, resolve_and_map}
use pi_remote.Daemon.Socket.Rejected.{tmux_resolver, handle_register-rejected}

abbrev session : Session
session = record {
  session_id = "s";
  spawn_token = "";
  tmux_target = "pi:1";
  pid = 42;
  cwd = "/tmp";
  project_name = "project";
  hostname = "host";
  model = "model";
  started_at = 1;
  last_heartbeat = 5;
  ended_at = 0;
  last_seq = 0;
  state = running;
  attached_clients = [];
}

abbrev hooks : Hooks
hooks = record {
  has_register = true;
  has_heartbeat = false;
  has_ended = true;
  has_event = true;
  has_state_change = true;
}

abbrev holding : Registry
holding = record { sessions = ("s", session) ∷ []; ended = []; hooks = hooks; calls = [] }

abbrev keep : ℕ → Bool
keep b = not (b == b'\\')

abbrev spoken : List ℕ
spoken = bytes "a\\ b"

deescape_tmux-escape_example : deescape_tmux (escape keep spoken) ≡ some spoken
deescape_tmux-escape_example = deescape_tmux-escape keep spoken refl (omega arith)

abbrev client : Client
client = record {
  pending_queue = 1 ∷ 2 ∷ [];
  pending_cmds = [];
  pane_to_session = (bytes "%1", "s") ∷ [];
  answered = [];
  registry = holding;
  multiplex = new_multiplex;
}

abbrev reader : Reader
reader = started_reader client

step-output_example :
    step
      (record { now = 1; link = up; line = output_line (bytes "%1") (escape keep spoken) })
      reader
    ≡ record reader { client = forward "s" (bytes "a\\") 1 up client }
step-output_example =
    step-output keep (bytes "%1") spoken "s" 1 up reader refl refl
      (λ e. omega (arith, e), (λ e. omega (arith, e), tt)) (omega arith) refl

abbrev input : String → Input
input s = record { now = 1; link = up; line = bytes s }

abbrev first_reply : Reply
first_reply = record {
  id = bytes "7";
  failed = false;
  first = input "%begin 100 7 1";
  body = input "%3" ∷ input "%output %1 x" ∷ [];
  last = input "%end 100 7 1";
}

first_reply-IsReply : IsReply first_reply
unfolding pi_remote.Daemon.Tmux.Reader.notice_of
first_reply-IsReply = record { named = refl; begins = refl; inner = (tt, (tt, tt)); ends = refl }

abbrev waiting : Client
waiting = record client { pending_queue = 1 ∷ [] }

abbrev replies : List Reply
replies = first_reply ∷ first_reply ∷ []

abbrev late : Reader
late = record reader { client = give_up 1 client }

give_up_shifts_example :
    ((scan (inputs_of (first_reply ∷ [])) late).client.answered
      ≡ [] ++ (2, result first_reply) ∷ [])
    × ((scan (inputs_of (first_reply ∷ [])) late).client.pending_queue ≡ [])
give_up_shifts_example =
    give_up_shifts first_reply [] reader 1 2 [] (first_reply-IsReply, tt) refl refl

abbrev over : Session
over = record session { session_id = "t"; state = ended }

abbrev two : Registry
two = record holding { sessions = ("s", session) ∷ ("t", over) ∷ [] }

two_left :
    lookup "t"
      (read_loop (input "%exit" ∷ []) 9 (record client { registry = two })).registry.sessions
    ≡ some over
unfolding read_loop on_stop scan step handle_exit_notification remove_all snapshot live_of
    remove_with_reason pi_remote.Daemon.Tmux.Reader.notice_of
two_left = refl

read_loop-ended_example : (lookup "t" two.sessions ≡ some over) × (is_ended over.state ≡ true)
read_loop-ended_example =
    read_loop-ended (input "%exit" ∷ []) 9 (record client { registry = two }) "t" over
      (refl, (refl, tt)) two_left

abbrev tmux : Tmux
tmux before (display_pane target) = some (bytes "%2" ∷ [])
tmux before (display_window pane) = some (bytes "@1" ∷ [])
tmux before list_windows = some (bytes "@0" ∷ [])
tmux before _ = some []

abbrev panes : Panes
panes = record {
  pane_to_session = (bytes "%1", "s") ∷ (bytes "%0", "gone") ∷ [];
  pending_spawns = [];
  issued = [];
  captures = [];
  notified = [];
}

mapped_two : (map_pane tmux (bytes "pi:2") "u" holding panes).1 ≡ some (bytes "%2")
unfolding map_pane clean_panes clean_pane
mapped_two = refl

abbrev after : Panes
after = (map_pane tmux (bytes "pi:2") "u" holding panes).0

map_pane-IsMapped_example :
    IsMapped after (bytes "%2") "u"
    × ((p : List ℕ) (s : String)
        → p ≢ bytes "%2"
        → IsMapped after p s
        → IsMapped panes p s × IsKnown holding s)
    × ((p : List ℕ) (s : String)
        → p ≢ bytes "%2"
        → StoredAt holding p panes.pane_to_session
        → IsMapped panes p s
        → IsMapped after p s)
map_pane-IsMapped_example =
    map_pane-IsMapped tmux (bytes "pi:2") "u" holding panes (bytes "%2") mapped_two

abbrev processes : Processes
processes = record { tty_of = λ p. []; parent_of = λ p. none }

resolved_two :
    (resolve_and_map tmux processes 43 (bytes "pi:2") "s" "" holding panes).1
    ≡ some (bytes "pi:2", bytes "%2")
unfolding resolve_and_map map_pane clean_panes clean_pane
resolved_two = refl

abbrev frame : RegisterFrame
frame = record {
  session_id = "n";
  spawn_token = none;
  tmux_target = "pi:1";
  pid = 42;
  cwd = "/tmp";
  project_name = "project";
  hostname = "host";
  model = "model";
  started_at = 1;
}

abbrev type_of : List ℕ → Option String
type_of [] = none
type_of (c ∷ line) =
    if c == b'r' then some "register" else if c == b'h' then some "heartbeat" else none

abbrev decoder : Decoder
decoder = record {
  type_of = type_of;
  register_of = λ l. some frame;
  heartbeat_of = λ l. some 20;
  disconnect_of = λ l. none;
}

abbrev frames : List (ℕ × List ℕ)
frames = (11, bytes "h") ∷ (12, bytes "x") ∷ []

accepted_new : (register (session_of "pi:1" frame) 10 holding).1 ≡ true
unfolding register
accepted_new = refl

serve_ends_example :
    Outcome "n" broken (serve decoder none true ((10, bytes "r") ∷ frames) 13 holding panes).0
    × ((serve decoder none true ((10, bytes "r") ∷ frames) 13 holding panes).1
        ≡ ack_of "n" true "" ∷ [])
serve_ends_example =
    serve_ends decoder none panes 10 13 (bytes "r") frames holding frame refl refl refl accepted_new

abbrev intruder : RegisterFrame
intruder = record frame { session_id = "s"; pid = 43; tmux_target = "pi:2" }

abbrev intruding : Decoder
intruding = record decoder { register_of = λ l. some intruder }

abbrev text : List ℕ → String
text b = "pi:2"

handle_register-rejected_example :
    let q =
      handle_register intruding
        (some (tmux_resolver text tmux processes))
        9
        true
        (bytes "r")
        holding
        panes in
    (q.1 ≡ holding)
    × (q.2 ≡ none)
    × (q.3 ≡ record { session_id = "s"; accepted = false; reason = some err_duplicate } ∷ [])
    × IsMapped q.0 (bytes "%2") "s"
handle_register-rejected_example =
    handle_register-rejected text tmux processes intruding 9 (bytes "r") holding panes intruder
      session (bytes "pi:2") (bytes "%2") refl refl refl (λ e. omega (arith, e)) resolved_two

captured_screen :
    screen (λ s. 3) (bytes "a" ∷ bytes "b" ∷ []) (9, 11)
    ≡ 27 ∷ bytes "[2J" ++ 27 ∷ bytes "[Ha" ++ 13 ∷ 10 ∷ b'b' ∷ 27 ∷ bytes "[12;10H"
unfolding screen decimal_from
captured_screen = refl

fields_blank : fields (bytes " 12  7 ") ≡ bytes "12" ∷ bytes "7" ∷ []
fields_blank = refl
