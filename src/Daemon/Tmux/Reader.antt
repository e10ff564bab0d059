-- ===== src/Daemon/Tmux/Reader.antt =====
-- The loop over the lines that tmux writes: the replies to commands, and the output of the panes.
-- A pointer to a channel is a number; a send is recorded, and the caller that waits for a channel
-- takes the first one. The text of an error is its output. A
-- line above the scanner's limit ends the input.
pub mod Output
pub mod Commands
pub mod Replies
pub mod Late
pub mod Issued
pub mod Exit
use pi_remote.Prelude.{
  ℕ, String, Bool, true, false, ◌||◌, not, Option, none, some, List, [], ◌∷◌, ◌++◌, Map, lookup,
  insert, ◌==◌, if◌then◌else◌,
}
use pi_remote.Daemon.Registry as Registered
use pi_remote.Daemon.Registry.{Session, Registry, snapshot, remove_with_reason}
use pi_remote.Daemon.Multiplex.{Link, Multiplex, send_pty}
use pi_remote.Daemon.Tmux.Lines.{bytes, same, split_n, join_lines, line_eq}
use pi_remote.Daemon.Tmux.Escapes.{deescape_tmux}

pub record CmdResult : Type 0 where
  pub output : List (List ℕ)
  pub err : Option (List ℕ)

pub record Client : Type 0 where
  pub pending_queue : List ℕ
  pub pending_cmds : Map (List ℕ) ℕ
  pub pane_to_session : Map (List ℕ) String
  pub answered : List (ℕ × CmdResult)
  pub registry : Registry
  pub multiplex : Multiplex

-- The client and the variables of the loop.
pub record Reader : Type 0 where
  pub client : Client
  pub active_cmd_id : List ℕ
  pub active_cmd_output : List (List ℕ)
  pub active_cmd_is_error : Bool

-- What the switch makes of a line. A notification that lacks parts is passed over.
pub data Notice : Type 0 where
  output : List ℕ → List ℕ → Notice
  begin error end : List ℕ → Notice
  exit passed text : Notice

abbrev pub second_part : (List ℕ → Notice) → List (List ℕ) → Notice
second_part f [] = passed
second_part f (a ∷ []) = passed
second_part f (a ∷ b ∷ rest) = f b

abbrev pub output_part : List (List ℕ) → Notice
output_part [] = passed
output_part (a ∷ []) = passed
output_part (a ∷ b ∷ rest) = output a b

abbrev pub notice_in : List (List ℕ) → Notice
notice_in [] = text
notice_in (prefix ∷ parts) =
    if same prefix (bytes "%output")
    then output_part parts
    else if same prefix (bytes "%exit")
    then exit
    else if same prefix (bytes "%begin")
    then second_part begin parts
    else if same prefix (bytes "%error")
    then second_part error parts
    else if same prefix (bytes "%end")
    then second_part end parts
    else text

unfoldable pub notice_of : List ℕ → Notice
notice_of [] = text
notice_of (c ∷ line) = if c == b'%' then notice_in (split_n 3 (c ∷ line)) else text

-- Nothing is forwarded of an empty text.
abbrev pub forward : String → List ℕ → ℕ → Link → Client → Client
forward id [] now link c = c
forward id (b ∷ bs) now link c = record c {
  multiplex = (send_pty id (b ∷ bs) now link c.multiplex).0;
}

abbrev pub forward_decoded : String → Option (List ℕ) → ℕ → Link → Client → Client
forward_decoded id none now link c = c
forward_decoded id (some bs) now link c = forward id bs now link c

abbrev pub output_to : Option String → List ℕ → ℕ → Link → Client → Client
output_to none escaped now link c = c
output_to (some id) escaped now link c = forward_decoded id (deescape_tmux escaped) now link c

unfoldable pub handle_output_notification : List ℕ → List ℕ → ℕ → Link → Client → Client
handle_output_notification pane escaped now link c =
    output_to (lookup pane c.pane_to_session) escaped now link c

-- The oldest command that waits is the one that begins.
abbrev pub begin_next : List ℕ → List ℕ → Client → Client
begin_next id [] c = c
begin_next id (ch ∷ queue) c = record c {
  pending_queue = queue;
  pending_cmds = insert id ch c.pending_cmds;
}

abbrev pub answer : Option ℕ → CmdResult → Client → Client
answer none result c = c
answer (some ch) result c = record c { answered = c.answered ++ (ch, result) ∷ [] }

abbrev pub result_of : Bool → List (List ℕ) → CmdResult
result_of failed lines = record {
  output = lines;
  err = if failed then some (join_lines lines) else none;
}

abbrev pub finished : Bool → List ℕ → Reader → Reader
finished failed id rd = record rd {
  client =
      answer (lookup id rd.client.pending_cmds) (result_of failed rd.active_cmd_output) rd.client;
  active_cmd_id = [];
  active_cmd_output = [];
  active_cmd_is_error = failed;
}

-- The body of the loop, without the return at an exit.
abbrev pub handle : ℕ → Link → List ℕ → Reader → Notice → Reader
handle now link line rd (output pane escaped) = record rd {
  client = handle_output_notification pane escaped now link rd.client;
}
handle now link line rd exit = rd
handle now link line rd passed = rd
handle now link line rd (begin id) = record rd {
  client = begin_next id rd.client.pending_queue rd.client;
  active_cmd_id = id;
  active_cmd_output = [];
  active_cmd_is_error = false;
}
handle now link line rd (error id) = if same id rd.active_cmd_id then finished true id rd else rd
handle now link line rd (end id) =
    if same id rd.active_cmd_id then finished rd.active_cmd_is_error id rd else rd
handle now link line rd text =
    if same rd.active_cmd_id []
    then rd
    else record rd { active_cmd_output = rd.active_cmd_output ++ line ∷ [] }

abbrev pub is_exit : Notice → Bool
is_exit exit = true
is_exit _ = false

-- A line, with the time and the link for what it sends upstream.
pub record Input : Type 0 where
  pub now : ℕ
  pub link : Link
  pub line : List ℕ

unfoldable pub step : Input → Reader → Reader
step i rd = handle i.now i.link i.line rd (notice_of i.line)

-- The loop of the scanner, to the end of the input or an exit.
unfoldable pub scan : List Input → Reader → Reader
scan [] rd = rd
scan (i ∷ inputs) rd =
    let rest = scan inputs (step i rd) in if is_exit (notice_of i.line) then rd else rest

abbrev pub server_lost : String
server_lost = "tmux_server_lost"

unfoldable pub remove_all : List Session → ℕ → Registry → Registry
remove_all [] now r = r
remove_all (s ∷ ss) now r = remove_all ss now (remove_with_reason s.session_id server_lost now r)

unfoldable pub handle_exit_notification : ℕ → Client → Client
handle_exit_notification now c = record c {
  registry = remove_all (snapshot c.registry) now c.registry;
}

abbrev pub exited : CmdResult
exited = record { output = []; err = some (bytes "tmux control process exited") }

abbrev pub answer_all : Map (List ℕ) ℕ → List (ℕ × CmdResult)
answer_all [] = []
answer_all ((id, ch) ∷ m) = (ch, exited) ∷ answer_all m

-- The deferred end of the loop.
unfoldable pub on_stop : ℕ → Client → Client
on_stop now c =
    let c' = handle_exit_notification now c in
    record c' { answered = c'.answered ++ answer_all c'.pending_cmds; pending_cmds = [] }

abbrev pub started_reader : Client → Reader
started_reader c = record {
  client = c;
  active_cmd_id = [];
  active_cmd_output = [];
  active_cmd_is_error = false;
}

unfoldable pub read_loop : List Input → ℕ → Client → Client
read_loop inputs stopped c = on_stop stopped (scan inputs (started_reader c)).client
