-- ===== src/Machines/Registry.antt =====
-- pi-remote-coordinator/internal/machines/machine.go and registry.go. A connection is known by a
-- number, as a pointer is by its address; `none` is nil.
pub mod Takeover
use pi_remote.Prelude.{
  ℕ, String, str_eq, Bool, true, false, not, ◌&&◌, Option, none, some, List, [], ◌∷◌, map, Map,
  lookup, insert, delete, string_eq, ◌==◌, if◌then◌else◌,
}

abbrev pub Conn : Type 0
Conn = ℕ

pub data MachineState : Type 0 where
  online suspended : MachineState

pub record Machine : Type 0 where
  pub id : String
  pub display_name : String
  pub daemon_version : String
  pub capabilities : List String
  pub state : MachineState
  pub conn : Option Conn
  pub last_seen : ℕ

abbrev pub Registry : Type 0
Registry = Map String Machine

-- Comparison of interface values, nil included.
abbrev pub same_conn : Option Conn → Option Conn → Bool
same_conn none none = true
same_conn none (some d) = false
same_conn (some c) none = false
same_conn (some c) (some d) = c == d

-- The connections that a take-over closes: that of the entry before, if it is another one.
abbrev pub taken_over : Option Machine → Option Conn → List Conn
taken_over none conn = []
taken_over (some prev) conn = elim prev.conn [
  | none ↦ []
  | some c ↦ if same_conn (some c) conn then [] else c ∷ []
]

-- The result has the connections that were closed, with StatusPolicyViolation.
unfoldable pub register :
    String → String → String → List String → Option Conn → ℕ → Registry → Registry × List Conn
register machine_id display_name daemon_version capabilities conn now m =
    (insert machine_id machine m, taken_over (lookup machine_id m) conn)
  where
    machine : Machine
    machine = record {
      id = machine_id;
      display_name = display_name;
      daemon_version = daemon_version;
      capabilities = capabilities;
      state = online;
      conn = conn;
      last_seen = now;
    }

unfoldable pub get : String → Registry → Option Machine
get machine_id m = lookup machine_id m

unfoldable pub set_suspended : String → ℕ → Registry → Registry
set_suspended machine_id now m = elim (lookup machine_id m) [
  | none ↦ m
  | some x ↦ insert machine_id (record x { state = suspended; last_seen = now }) m
]

unfoldable pub unregister_by_conn : String → Option Conn → Registry → Registry
unregister_by_conn machine_id conn m = elim (lookup machine_id m) [
  | none ↦ m
  | some x ↦ if same_conn x.conn conn then delete machine_id m else m
]

unfoldable pub list : Registry → List Machine
list = map λ (entry : String × Machine). entry.1
