-- ===== src/Push.antt =====
-- pi-remote-coordinator/internal/clients and internal/push: the registered apps, and which of them
-- a notification is sent to. `None` for preferences is nil.
pub mod Focus
pub mod Dispatched
pub mod Transport
use pi_remote.Prelude.{
  ℕ, String, str_eq, Bool, true, false, not, ◌&&◌, ◌||◌, Option, none, some, List, [], ◌∷◌, map,
  Map, lookup, insert, delete, string_eq, ◌==◌, if◌then◌else◌,
}
use Prim.Native.String.{◌++◌ as str_append}
use pi_remote.Machines.Ingest.{Notification}

pub record Client : Type 0 where
  pub id : String
  pub device_display_name : String
  pub last_seen : ℕ
  pub endpoint : String
  pub pub_key : List ℕ
  pub registered_at : ℕ
  pub preferences : Map String Bool

abbrev pub Clients : Type 0
Clients = Map String Client

unfoldable pub register : Client → Clients → Clients
register c m = insert c.id c m

unfoldable pub list : Clients → List Client
list = map λ (entry : String × Client). entry.1

abbrev pub set_found : String → Map String Bool → Clients → Option Client → Clients × Bool
set_found id prefs m none = (m, false)
set_found id prefs m (some c) = (insert id (record c { preferences = prefs }) m, true)

unfoldable pub set_preferences : String → Map String Bool → Clients → Clients × Bool
set_preferences id prefs m = set_found id prefs m (lookup id m)

unfoldable pub get : String → Clients → Option Client
get id m = lookup id m

-- `defaultReasonEnabled`.
abbrev pub default_reason_enabled : Map String Bool
default_reason_enabled =
    ("agent_idle", true)
    ∷ ("extension_dialog", true)
    ∷ ("tool_failure", true)
    ∷ ("queue_update", false)
    ∷ ("compaction_complete", false)
    ∷ ("extension_error", false)
    ∷ ("unresponsive", true)
    ∷ ("session_ended", false)
    ∷ ("machine_suspended", false)
    ∷ []

abbrev pub is_some : Option Bool → Bool
is_some none = false
is_some (some b) = true

abbrev pub or_else : Option Bool → Bool → Bool
or_else none d = d
or_else (some b) d = b

unfoldable pub valid_reason : String → Bool
valid_reason reason = is_some (lookup reason default_reason_enabled)

unfoldable pub reason_enabled : Map String Bool → String → Bool
reason_enabled prefs reason =
    or_else (lookup reason prefs) (or_else (lookup reason default_reason_enabled) false)

pub record ConnFocus : Type 0 where
  pub client_id : String
  pub sessions : Map String Bool

abbrev pub FocusTracker : Type 0
FocusTracker = Map String ConnFocus

abbrev pub claims_of : String → Option ConnFocus → ConnFocus
claims_of client_id none = record { client_id = client_id; sessions = [] }
claims_of client_id (some cf) = cf

unfoldable pub set_focus : String → String → String → Bool → FocusTracker → FocusTracker
set_focus conn_id client_id session_id focused t =
    let cf = claims_of client_id (lookup conn_id t) in
    let held =
      if focused then insert session_id true cf.sessions else delete session_id cf.sessions in
    insert conn_id (record cf { sessions = held }) t

unfoldable pub drop_conn : String → FocusTracker → FocusTracker
drop_conn conn_id t = delete conn_id t

abbrev pub has_claim : String → String → ConnFocus → Bool
has_claim client_id session_id cf =
    str_eq cf.client_id client_id && or_else (lookup session_id cf.sessions) false

unfoldable pub is_focused : String → String → FocusTracker → Bool
is_focused client_id session_id [] = false
is_focused client_id session_id ((conn_id, cf) ∷ t) =
    let rest = is_focused client_id session_id t in
    if has_claim client_id session_id cf then true else rest

-- `PushPayloadJson`, without its constant fields.
pub record Payload : Type 0 where
  pub notification : Notification
  pub deep_link : String

-- One call of `Post`.
pub record Post : Type 0 where
  pub endpoint : String
  pub sealed : List ℕ

abbrev pub is_zero_key : List ℕ → Bool
is_zero_key [] = true
is_zero_key (b ∷ key) = if b == 0 then is_zero_key key else false

abbrev pub payload_of : Notification → ℕ → Payload
payload_of n now = record {
  notification = record n { ts = if n.ts == 0 then now else n.ts };
  deep_link = str_append "pi-remote://session/" n.session_id;
}

abbrev pub posted : Client → Option (List ℕ) → List Post → List Post
posted c none posts = posts
posted c (some sealed) posts = record { endpoint = c.endpoint; sealed = sealed } ∷ posts

-- `seal` is the encoding of the payload and its encryption to a key.
module _ (seal : Payload → List ℕ → Option (List ℕ)) where
  -- The loop over the clients.
  unfoldable pub fan_out : Notification → Payload → FocusTracker → List Client → List Post
  fan_out n payload t [] = []
  fan_out n payload t (c ∷ cs) =
      let rest = fan_out n payload t cs in
      if str_eq c.endpoint "" || is_zero_key c.pub_key
      then rest
      else if not (reason_enabled c.preferences n.reason)
      then rest
      else if is_focused c.id n.session_id t
      then rest
      else posted c (seal payload c.pub_key) rest

  unfoldable pub dispatch : Notification → ℕ → FocusTracker → Clients → List Post
  dispatch n now t clients =
      if not (valid_reason n.reason) then [] else fan_out n (payload_of n now) t (list clients)
