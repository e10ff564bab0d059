-- ===== src/Daemon/Registry.antt =====
-- pi-remote-daemon/internal/session/session.go and registry.go. The mutex makes each method atomic;
-- a callback is a recorded call, newest last. A time is a number, with 0 for the zero value.
pub mod Calls
pub mod Ending
pub mod Reuse
pub mod Sweeping
use pi_remote.Prelude.{
  ℕ, ◌+◌, ◌-◌, String, Bool, true, false, not, ◌&&◌, ◌||◌, Option, none, some, List, [], ◌∷◌, ◌++◌,
  Map, lookup, insert, delete, string_eq, ltb, leb, ◌==◌, if◌then◌else◌,
}

pub data SessionState : Type 0 where
  running idle paused unresponsive ended : SessionState

pub record Session : Type 0 where
  pub session_id : String
  pub spawn_token : String
  pub tmux_target : String
  pub pid : ℕ
  pub cwd : String
  pub project_name : String
  pub hostname : String
  pub model : String
  pub started_at : ℕ
  pub last_heartbeat : ℕ
  pub ended_at : ℕ
  pub last_seq : ℕ
  pub state : SessionState
  pub attached_clients : Map String Bool

pub data EndedKind : Type 0 where
  ended_explicit ended_implicit : EndedKind

pub data Call : Type 0 where
  on_register : Session → Call
  on_heartbeat : String → ℕ → Call
  on_ended : Session → EndedKind → String → Call
  on_event : String → List ℕ → Call
  on_state_change : String → SessionState → SessionState → Call

-- Which callbacks are installed.
pub record Hooks : Type 0 where
  pub has_register : Bool
  pub has_heartbeat : Bool
  pub has_ended : Bool
  pub has_event : Bool
  pub has_state_change : Bool

pub record Registry : Type 0 where
  pub sessions : Map String Session
  pub ended : Map String Bool
  pub hooks : Hooks
  pub calls : List Call

abbrev pub err_duplicate : String
err_duplicate = "ERR_DAEMON_DUPLICATE_SESSION_ID"

unfoldable pub new_registry : Hooks → Registry
new_registry hooks = record { sessions = []; ended = []; hooks = hooks; calls = [] }

abbrev pub invoke : Bool → Call → Registry → Registry
invoke installed call r = if installed then record r { calls = r.calls ++ call ∷ [] } else r

-- The grace period of a registration that has not sent a heartbeat.
abbrev pub stamped : ℕ → Session → Session
stamped now s = if s.last_heartbeat == 0 then record s { last_heartbeat = now } else s

abbrev pub store : Session → Registry → Registry
store s r = record r { sessions = insert s.session_id s r.sessions }

abbrev pub register_over : Session → Registry → Option Session → Registry × Bool × String
register_over s r none = (invoke r.hooks.has_register (on_register s) (store s r), true, "")
register_over s r (some existing) =
    if existing.pid == s.pid then (store s r, true, "") else (r, false, err_duplicate)

unfoldable pub register : Session → ℕ → Registry → Registry × Bool × String
register s now r = let s' = stamped now s in register_over s' r (lookup s'.session_id r.sessions)

abbrev pub is_unresponsive : SessionState → Bool
is_unresponsive unresponsive = true
is_unresponsive _ = false

abbrev pub heartbeat_of : String → ℕ → Registry → Option Session → Registry × Bool
heartbeat_of id ts r none = (r, false)
heartbeat_of id ts r (some s) =
    let recovered = is_unresponsive s.state in
    let s' =
      if recovered
      then record s { last_heartbeat = ts; state = running }
      else record s { last_heartbeat = ts } in
    let r' = record r { sessions = insert id s' r.sessions } in
    let change = on_state_change id unresponsive running in
    let r'' = if recovered then invoke r.hooks.has_state_change change r' else r' in
    (invoke r.hooks.has_heartbeat (on_heartbeat id ts) r'', true)

-- `false` is ErrUnknownSession.
unfoldable pub update_heartbeat : String → ℕ → Registry → Registry × Bool
update_heartbeat id ts r = heartbeat_of id ts r (lookup id r.sessions)

unfoldable pub event : String → List ℕ → Registry → Registry
event id bytes r = invoke r.hooks.has_event (on_event id bytes) r

-- The zero value of a map is false.
abbrev pub flag : Option Bool → Bool
flag none = false
flag (some b) = b

abbrev pub already_ended : String → Registry → Bool
already_ended id r = flag (lookup id r.ended)

abbrev pub remove_found : String → String → ℕ → Registry → Option Session → Registry
remove_found id reason now r none = r
remove_found id reason now r (some s) =
    let r' = record r { sessions = delete id r.sessions } in
    let call = on_ended (record s { ended_at = now }) ended_explicit reason in
    if already_ended id r
    then r'
    else invoke r.hooks.has_ended call (record r' { ended = insert id true r.ended })

unfoldable pub remove_with_reason : String → String → ℕ → Registry → Registry
remove_with_reason id reason now r = remove_found id reason now r (lookup id r.sessions)

unfoldable pub remove : String → ℕ → Registry → Registry
remove id = remove_with_reason id ""

abbrev pub is_live : SessionState → Bool
is_live running = true
is_live idle = true
is_live _ = false

-- The test of the sweep: alive in name, and silent for longer than the timeout.
abbrev pub is_silent : ℕ → ℕ → Session → Bool
is_silent now timeout s = is_live s.state && ltb timeout (now - s.last_heartbeat)

abbrev pub flip : Session → Session
flip s = record s { state = unresponsive }

-- The loop of the sweep over the map.
unfoldable pub sweep : ℕ → ℕ → Map String Session → Map String Session × List String × List Call
sweep now timeout [] = ([], [], [])
sweep now timeout ((id, s) ∷ m) =
    let (m', flipped, calls) = sweep now timeout m in
    if is_silent now timeout s
    then ((id, flip s) ∷ m', id ∷ flipped, on_state_change id s.state unresponsive ∷ calls)
    else ((id, s) ∷ m', flipped, calls)

unfoldable pub sweep_heartbeats : ℕ → ℕ → Registry → Registry × List String
sweep_heartbeats now timeout r =
    let (m, flipped, calls) = sweep now timeout r.sessions in
    let calls' = if r.hooks.has_state_change then r.calls ++ calls else r.calls in
    (record r { sessions = m; calls = calls' }, flipped)

abbrev pub is_ended : SessionState → Bool
is_ended ended = true
is_ended _ = false

abbrev pub is_stale : ℕ → ℕ → Session → Bool
is_stale now ttl s = is_ended s.state && (not (s.ended_at == 0) && ltb ttl (now - s.ended_at))

-- The loop of the reaper over the map.
unfoldable pub reap : ℕ → ℕ → Map String Session → Map String Session × ℕ
reap now ttl [] = ([], 0)
reap now ttl ((id, s) ∷ m) =
    let (m', n) = reap now ttl m in if is_stale now ttl s then (m', n + 1) else ((id, s) ∷ m', n)

unfoldable pub reap_ended : ℕ → ℕ → Registry → Registry × ℕ
reap_ended now ttl r = let (m, n) = reap now ttl r.sessions in (record r { sessions = m }, n)

abbrev pub mark_found : String → ℕ → Registry → Option Session → Registry
mark_found id now r none = r
mark_found id now r (some s) =
    let s' = record s { state = ended; ended_at = now } in
    if already_ended id r
    then r
    else invoke r.hooks.has_ended (on_ended s' ended_implicit "")
        (record r { sessions = insert id s' r.sessions; ended = insert id true r.ended })

unfoldable pub mark_ended : String → ℕ → Registry → Registry
mark_ended id now r = mark_found id now r (lookup id r.sessions)

unfoldable pub get : String → Registry → Option Session
get id r = lookup id r.sessions

-- The loop of `Snapshot`.
unfoldable pub live_of : Map String Session → List Session
live_of [] = []
live_of ((id, s) ∷ m) = let rest = live_of m in if is_ended s.state then rest else s ∷ rest

unfoldable pub snapshot : Registry → List Session
snapshot r = live_of r.sessions
