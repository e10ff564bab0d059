-- ===== src/Sessions/Registry.antt =====
-- pi-remote-coordinator/internal/sessions/registry.go. A pointer into the map is modelled by its
-- key: a method that changes a session puts the changed session back.
pub mod Attached
pub mod Histories
pub mod Numbers
pub mod Seen
pub mod Paused
use pi_remote.Prelude.{
  ℕ, zero, suc, ◌+◌, ◌/◌, String, str_eq, Bool, true, false, not, ◌&&◌, ◌||◌, Option, none, some,
  List, [], ◌∷◌, map, Map, lookup, insert, string_eq, ltb, if◌then◌else◌, ◌*◌, ℤ, pos, negsuc,
}
use pi_remote.Broker.Ring.{Entry, RingBuffer, new_ring_buffer}
use pi_remote.Broker.Lru.{Floats, LruItem, balance_global_lru}
use pi_remote.Sessions.Channels.{Bytes, Channels}
use pi_remote.Sessions.Session.{
  State, running, paused, ended, Metadata, Session, publish, broadcast,
}

pub record Registry : Type 0 where
  pub sessions : Map String Session
  pub total_cache_bytes : ℕ
  pub session_cache_floor_bytes : ℕ

abbrev pub default_total_cache_bytes : ℕ
default_total_cache_bytes = 50 * 1024 * 1024

abbrev pub default_session_cache_floor_bytes : ℕ
default_session_cache_floor_bytes = 1 * 1024 * 1024

abbrev pub positive_or : ℕ → ℤ → ℕ
positive_or d (pos zero) = d
positive_or d (pos (suc n)) = suc n
positive_or d (negsuc n) = d

unfoldable pub new_registry_with_limits : ℤ → ℤ → Registry
new_registry_with_limits total_cache_bytes session_cache_floor_bytes = record {
  sessions = [];
  total_cache_bytes = positive_or default_total_cache_bytes total_cache_bytes;
  session_cache_floor_bytes =
      positive_or default_session_cache_floor_bytes session_cache_floor_bytes;
}

unfoldable pub initial_ring_max_bytes : Registry → ℕ
initial_ring_max_bytes r =
    let initial = r.total_cache_bytes / 10 in
    if ltb initial r.session_cache_floor_bytes then r.session_cache_floor_bytes else initial

unfoldable pub new_session : String → String → Metadata → ℕ → RingBuffer → Session
new_session session_id machine_id metadata now ring = record {
  session_id = session_id;
  machine_id = machine_id;
  metadata = metadata;
  state = running;
  last_seq = 0;
  ended = false;
  ended_at = 0;
  last_touched = now;
  ring = ring;
  attached_clients = [];
}

-- `Register` creates the entry or replaces the one that is there.
unfoldable pub register : String → String → Metadata → ℕ → Registry → Registry
unfolding new_session
register session_id machine_id metadata now r =
    let ring = new_ring_buffer (initial_ring_max_bytes r) now in
    record r {
      sessions = insert session_id (new_session session_id machine_id metadata now ring) r.sessions;
    }

unfoldable pub get : String → Registry → Option Session
get session_id r = lookup session_id r.sessions

-- `if s, ok := r.m[sessionID]; ok { ... }`
abbrev pub put_in :
    String → (Session → Session) → Map String Session → Option Session → Map String Session
put_in session_id f m none = m
put_in session_id f m (some s) = insert session_id (f s) m

abbrev pub modify : String → (Session → Session) → Registry → Registry
modify session_id f r = record r {
  sessions = put_in session_id f r.sessions (lookup session_id r.sessions);
}

abbrev pub raise_seq : ℕ → ℕ → Session → Session
raise_seq n now s = if ltb s.last_seq n then record s { last_seq = n; last_touched = now } else s

abbrev pub advances : ℕ → Option Session → Bool
advances n none = false
advances n (some s) = ltb s.last_seq n

unfoldable pub advance_seq : String → ℕ → ℕ → Registry → Registry × Bool
advance_seq session_id seq now r =
    (modify session_id (raise_seq seq now) r, advances seq (lookup session_id r.sessions))

unfoldable pub set_state : String → State → ℕ → Registry → Registry
set_state session_id state now =
    modify session_id λ s. record s { state = state; last_touched = now }

unfoldable pub mark_ended : String → ℕ → Registry → Registry
mark_ended session_id now =
    modify session_id
      λ s. record s { ended = true; ended_at = now; last_touched = now; state = ended }

unfoldable pub restore_last_seq : String → ℕ → ℕ → Registry → Registry
restore_last_seq session_id n now = modify session_id (raise_seq n now)

-- The `session_state_change` and `session_ended` frames for the app, which go through
-- `json.Marshal`.
pub record Encoder : Type 0 where
  pub state_change : String → String → State → State → Bytes
  pub session_ended : String → String → String → Bytes

abbrev pub is_paused : State → Bool
is_paused paused = true
is_paused _ = false

abbrev pub keeps_state : String → Session → Bool
keeps_state machine_id s = not (str_eq s.machine_id machine_id) || s.ended || is_paused s.state

abbrev pub pause : ℕ → Session → Session
pause now s = record s { state = paused; last_touched = now }

module _ (enc : Encoder) where
  -- The loop of `PauseAllForMachine` over the map.
  unfoldable pub pause_all :
      String → ℕ → Map String Session → Channels → Map String Session × Channels
  pause_all machine_id now [] ch = ([], ch)
  pause_all machine_id now ((k, s) ∷ m) ch =
      let keep = keeps_state machine_id s in
      let raw = enc.state_change s.session_id machine_id s.state paused in
      let (m', ch') = pause_all machine_id now m (if keep then ch else broadcast raw s ch) in
      ((k, if keep then s else pause now s) ∷ m', ch')

  unfoldable pub pause_all_for_machine : String → ℕ → Registry × Channels → Registry × Channels
  unfolding pause_all
  pause_all_for_machine machine_id now (r, ch) =
      let (m, ch') = pause_all machine_id now r.sessions ch in (record r { sessions = m }, ch')

abbrev pub lru_item : Session → LruItem
lru_item s = record {
  session_id = s.session_id;
  ended = s.ended;
  last_touched = s.last_touched;
  ring = s.ring;
}

abbrev pub lru_items : Map String Session → List LruItem
lru_items [] = []
lru_items ((k, s) ∷ m) = lru_item s ∷ lru_items m

-- The items share their rings with the sessions: what the balance does to an item's ring, it does
-- to the session's.
abbrev pub with_rings : List LruItem → Map String Session → Map String Session
with_rings [] m = m
with_rings (x ∷ xs) [] = []
with_rings (x ∷ xs) ((k, s) ∷ m) = (k, record s { ring = x.ring }) ∷ with_rings xs m

module _ (fl : Floats) where
  abbrev pub publish_in :
      String → Entry → ℕ → Registry × Channels → Option Session → Registry × Channels
  publish_in session_id entry now (r, ch) none = (r, ch)
  publish_in session_id entry now (r, ch) (some s) =
      let (s', ch') = publish entry now (s, ch) in
      let m = insert session_id (record s' { last_touched = now }) r.sessions in
      let items =
        balance_global_lru fl (lru_items m) session_id r.total_cache_bytes
          r.session_cache_floor_bytes in
      (record r { sessions = with_rings items m }, ch')

  unfoldable pub publish_to : String → Entry → ℕ → Registry × Channels → Registry × Channels
  publish_to session_id entry now (r, ch) =
      publish_in session_id entry now (r, ch) (lookup session_id r.sessions)
