-- ===== src/Daemon/Multiplex.antt =====
-- pi-remote-daemon/internal/session/multiplex.go and seq.go: the frames that the daemon sends
-- upstream, and their numbers. `Connected` and `Send` of the coordinator client are one argument of
-- each call, which tells what becomes of its frame; a frame holds what its builder is given. A call
-- first takes the number and builds the frame, and then sends it, with no lock over both: a
-- definition `.._built` is the first step, `complete` the second, and the handlers run one after the
-- other. Interleaved puts the steps of other calls between the two.
pub mod Numbers
pub mod Calls
pub mod Flight
pub mod Interleaved
pub mod Live
use pi_remote.Prelude.{
  ℕ, ◌+◌, ◌%◌, ◌^◌, String, str_eq, Bool, true, false, not, ◌&&◌, ◌||◌, Option, none, some, List,
  [], ◌∷◌, ◌++◌, Map, lookup, insert, delete, string_eq, ltb, ◌==◌, if◌then◌else◌,
}
use pi_remote.Ptymux.Sanitizer.{Sanitizer, new_sanitizer, sanitize}
use pi_remote.Daemon.Registry.{SessionState, Session, EndedKind, Registry, snapshot}

pub data Frame : Type 0 where
  session_started : Session → String → String → Frame
  session_event : String → ℕ → String → ℕ → List ℕ → Frame
  session_ended : String → ℕ → EndedKind → String → Frame
  session_state_change : String → ℕ → ℕ → SessionState → SessionState → Frame
  session_pty : String → ℕ → List ℕ → ℕ → Frame

-- Not connected; connected, but `Send` fails; the frame is sent.
pub data Link : Type 0 where
  down failing up : Link

-- `sent` lists the frames that were sent, newest last.
pub record Multiplex : Type 0 where
  pub seqs : Map String ℕ
  pub sanitizers : Map String Sanitizer
  pub sent : List Frame

-- The fields of an `event` frame; `data` is its JSON text.
pub record ExtEvent : Type 0 where
  pub kind : String
  pub ts : ℕ
  pub content : List ℕ

pub record LiveSession : Type 0 where
  pub session : Session
  pub last_seq : ℕ

unfoldable pub new_multiplex : Multiplex
new_multiplex = record { seqs = []; sanitizers = []; sent = [] }

abbrev pub value_of : Option ℕ → ℕ
value_of none = 0
value_of (some n) = n

-- `Peek` of the session's allocator; a new one holds 0.
abbrev pub peek : String → Multiplex → ℕ
peek id m = value_of (lookup id m.seqs)

unfoldable pub alloc_for : String → Multiplex → Multiplex
alloc_for id m = record m { seqs = insert id (peek id m) m.seqs }

-- `allocFor(id).Next()`.
abbrev pub next_seq : String → Multiplex → ℕ
next_seq id m = (peek id m + 1) % 2 ^ 64

abbrev pub taken : String → Multiplex → Multiplex
taken id m = record m { seqs = insert id (next_seq id m) m.seqs }

unfoldable pub drop_alloc : String → Multiplex → Multiplex
drop_alloc id m = record m { seqs = delete id m.seqs }

abbrev pub deliver : Link → Frame → Multiplex → Multiplex
deliver up frame m = record m { sent = m.sent ++ frame ∷ [] }
deliver _ frame m = m

-- What a call does with its frame: it sends or drops it, and the one of onEnded drops the allocator
-- then.
unfoldable pub complete : Link → Frame → Multiplex → Multiplex
unfolding drop_alloc
complete link (session_ended id seq kind reason) m =
    drop_alloc id (deliver link (session_ended id seq kind reason) m)
complete link (session_started s machine_id hostname) m =
    deliver link (session_started s machine_id hostname) m
complete link (session_event id seq kind ts content) m =
    deliver link (session_event id seq kind ts content) m
complete link (session_state_change id seq ts from to) m =
    deliver link (session_state_change id seq ts from to) m
complete link (session_pty id seq bytes ts) m = deliver link (session_pty id seq bytes ts) m

-- The first step of a call: the state behind it, and the frame that is to be sent.
abbrev pub Built : Type 0
Built = Multiplex × Option Frame

abbrev pub complete_built : Link → Built → Multiplex
complete_built link (m, none) = m
complete_built link (m, some frame) = complete link frame m

unfoldable pub register_built : String → Session → Multiplex → Built
unfolding alloc_for
register_built machine_id s m = (alloc_for s.session_id m, some (session_started s machine_id ""))

unfoldable pub on_register : String → Session → Link → Multiplex → Multiplex
on_register machine_id s link m = complete_built link (register_built machine_id s m)

unfoldable pub is_known_event_kind : String → Bool
is_known_event_kind k =
    str_eq k "agent_start"
    || (str_eq k "agent_end"
        || (str_eq k "attention_dialog"
            || (str_eq k "compaction_start"
                || (str_eq k "compaction_end"
                    || (str_eq k "extension_error"
                        || (str_eq k "model_select"
                            || (str_eq k "queue_update" || str_eq k "tool_failure")))))))

abbrev pub event_frame : String → ℕ → Multiplex → Option ExtEvent → Built
event_frame id now m none = (m, none)
event_frame id now m (some raw) =
    let ts = if raw.ts == 0 then now else raw.ts in
    if str_eq raw.kind ""
    then (m, none)
    else if not (is_known_event_kind raw.kind)
    then (m, none)
    else (taken id m, some (session_event id (next_seq id m) raw.kind ts raw.content))

unfoldable pub ended_built : Session → EndedKind → String → Multiplex → Built
ended_built s kind reason m =
    (taken s.session_id m, some (session_ended s.session_id (next_seq s.session_id m) kind reason))

unfoldable pub on_ended : Session → EndedKind → String → Link → Multiplex → Multiplex
on_ended s kind reason link m = complete_built link (ended_built s kind reason m)

unfoldable pub state_change_built : String → SessionState → SessionState → ℕ → Multiplex → Built
state_change_built id from to now m =
    (taken id m, some (session_state_change id (next_seq id m) now from to))

unfoldable pub on_state_change :
    String → SessionState → SessionState → ℕ → Link → Multiplex → Multiplex
on_state_change id from to now link m = complete_built link (state_change_built id from to now m)

abbrev pub filter_of : Option Sanitizer → Sanitizer
filter_of none = new_sanitizer
filter_of (some f) = f

abbrev pub fails : Link → Bool
fails failing = true
fails _ = false

unfoldable pub pty_built : String → List ℕ → ℕ → Multiplex → Multiplex × Frame
pty_built id raw now m =
    let (clean, f) = sanitize raw (filter_of (lookup id m.sanitizers)) in
    let m' = record m { sanitizers = insert id f m.sanitizers } in
    (taken id m', session_pty id (next_seq id m) clean now)

-- The flag tells whether `Send` failed.
unfoldable pub send_pty : String → List ℕ → ℕ → Link → Multiplex → Multiplex × Bool
unfolding pty_built complete
send_pty id raw now link m =
    let (m', frame) = pty_built id raw now m in (complete link frame m', fails link)

-- `parse` is `json.Unmarshal` into an `extEventFrame`.
module _ (parse : List ℕ → Option ExtEvent) where
  unfoldable pub event_built : String → List ℕ → ℕ → Multiplex → Built
  event_built id bytes now m = event_frame id now m (parse bytes)

  unfoldable pub on_event : String → List ℕ → ℕ → Link → Multiplex → Multiplex
  on_event id bytes now link m = complete_built link (event_built id bytes now m)

-- `pid_alive` is the probe of the process.
module _ (pid_alive : ℕ → Bool) where
  unfoldable pub live_of_all : List Session → Multiplex → List LiveSession
  live_of_all [] m = []
  live_of_all (s ∷ ss) m =
      let rest = live_of_all ss m in
      if ltb 0 s.pid && not (pid_alive s.pid)
      then rest
      else record { session = s; last_seq = peek s.session_id m } ∷ rest

  unfoldable pub live_sessions : Registry → Multiplex → List LiveSession
  live_sessions r m = live_of_all (snapshot r) m
