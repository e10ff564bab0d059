-- ===== src/Daemon/Config.antt =====
-- pi-remote-daemon/internal/config/config.go. The file, the environment (a variable that is not set
-- is "") and what the operating system answers are arguments. A path is its list of bytes.
pub mod Identity
use pi_remote.Prelude.{
  ℕ, String, str_eq, Bool, true, false, not, ◌&&◌, ◌||◌, Option, none, some, List, [], ◌∷◌, ◌++◌,
  ◌==◌, if◌then◌else◌,
}
use pi_remote.Daemon.Tmux.Lines.{bytes, same}
use pi_remote.Daemon.Tmux.Panes.{trim_space}

pub record Config : Type 0 where
  pub machine_id : List ℕ
  pub machine_display_name : List ℕ
  pub url : List ℕ
  pub service_token_id_file : List ℕ
  pub service_token_secret_file : List ℕ
  pub socket_path : List ℕ
  pub tmux_binary : List ℕ
  pub session_prefix : List ℕ
  pub level : List ℕ
  pub log_file : List ℕ

unfoldable pub defaults : Config
defaults = record {
  machine_id = [];
  machine_display_name = [];
  url = [];
  service_token_id_file = [];
  service_token_secret_file = [];
  socket_path = bytes "~/.pi-remote/daemon.sock";
  tmux_binary = bytes "tmux";
  session_prefix = bytes "pi-remote-";
  level = bytes "info";
  log_file = [];
}

-- No file is found; it cannot be read or parsed; or it gives values, and keys that are unknown.
pub data File : Type 0 where
  missing : File
  broken : File
  decoded : (Config → Config) → List String → File

abbrev pub over : List ℕ → List ℕ → List ℕ
over old [] = old
over old (c ∷ v) = c ∷ v

unfoldable pub apply_env : (String → List ℕ) → Config → Config
apply_env getenv cfg = record {
  machine_id = over cfg.machine_id (getenv "PI_REMOTE_MACHINE_ID");
  machine_display_name = over cfg.machine_display_name (getenv "PI_REMOTE_MACHINE_DISPLAY_NAME");
  url = over cfg.url (getenv "PI_REMOTE_COORDINATOR_URL");
  service_token_id_file = over cfg.service_token_id_file (getenv "PI_REMOTE_SERVICE_TOKEN_ID_FILE");
  service_token_secret_file =
      over cfg.service_token_secret_file (getenv "PI_REMOTE_SERVICE_TOKEN_SECRET_FILE");
  socket_path = over cfg.socket_path (getenv "PI_REMOTE_SOCKET_PATH");
  tmux_binary = over cfg.tmux_binary (getenv "PI_REMOTE_TMUX_BINARY");
  session_prefix = over cfg.session_prefix (getenv "PI_REMOTE_TMUX_SESSION_PREFIX");
  level = over cfg.level (getenv "PI_REMOTE_LOG_LEVEL");
  log_file = over cfg.log_file (getenv "PI_REMOTE_LOG_FILE");
}

abbrev pub from_file : Bool → File → Option Config
from_file explicit missing = if explicit then none else some defaults
from_file explicit broken = none
from_file explicit (decoded overlay []) = some (overlay defaults)
from_file explicit (decoded overlay (k ∷ unknown)) = none

abbrev pub with_env : (String → List ℕ) → Option Config → Option Config
with_env getenv none = none
with_env getenv (some cfg) = some (apply_env getenv cfg)

-- With whether a path was given.
unfoldable pub load : Bool → File → (String → List ℕ) → Option Config
load explicit file getenv = with_env getenv (from_file explicit file)

pub data Problem : Type 0 where
  no_token_id no_token_secret empty_socket empty_binary bad_level : Problem

abbrev pub unless : Bool → Problem → List Problem
unless true p = []
unless false p = p ∷ []

abbrev pub is_set : List ℕ → Bool
is_set s = not (same s [])

abbrev pub is_level : List ℕ → Bool
is_level s =
    same s []
    || (same s (bytes "debug")
        || (same s (bytes "info") || (same s (bytes "warn") || same s (bytes "error"))))

unfoldable pub validate : Config → List Problem
validate cfg =
    unless (not (is_set cfg.url) || is_set cfg.service_token_id_file) no_token_id
    ++ (unless (not (is_set cfg.url) || is_set cfg.service_token_secret_file) no_token_secret
        ++ (unless (is_set cfg.socket_path) empty_socket
            ++ (unless (is_set cfg.tmux_binary) empty_binary
                ++ unless (is_level cfg.level) bad_level)))

-- filepath.Join, for parts that are clean.
abbrev pub join : List ℕ → List ℕ → List ℕ
join dir name = dir ++ b'/' ∷ name

-- `home` is the home directory, with `none` for an error.
abbrev pub in_home : Option (List ℕ) → List ℕ → Option (List ℕ)
in_home none p = none
in_home (some home) [] = some home
in_home (some home) (c ∷ p) = if c == b'/' then some (join home p) else none

unfoldable pub expand_path : Option (List ℕ) → List ℕ → Option (List ℕ)
expand_path home [] = none
expand_path home (c ∷ p) = if c == b'~' then in_home home p else some (c ∷ p)

abbrev pub state_in_home : Option (List ℕ) → Option (List ℕ)
state_in_home none = none
state_in_home (some home) = some (join home (bytes ".local/state/pi-remote/machine_id"))

-- With whether the process runs as root.
unfoldable pub machine_id_path : (String → List ℕ) → Bool → Option (List ℕ) → Option (List ℕ)
machine_id_path getenv root home =
    let dir = getenv "PI_REMOTE_STATE_DIR" in
    let xdg = getenv "XDG_STATE_HOME" in
    if is_set dir
    then some (join dir (bytes "machine_id"))
    else if root
    then some (bytes "/var/lib/pi-remote/machine_id")
    else if is_set xdg
    then some (join xdg (bytes "pi-remote/machine_id"))
    else state_in_home home

-- The state file: absent, unreadable, or its content.
pub data StateFile : Type 0 where
  absent unreadable : StateFile
  content : List ℕ → StateFile

-- With a new id, and whether it can be written. The result is the id and the file.
abbrev pub generate : Option (List ℕ) → Bool → StateFile → Option (List ℕ) × StateFile
generate none written file = (none, file)
generate (some id) written file =
    if written then (some id, content (id ++ 10 ∷ [])) else (none, file)

abbrev pub read_or : Option (List ℕ) × StateFile → StateFile → List ℕ → Option (List ℕ) × StateFile
read_or fresh file [] = fresh
read_or fresh file (c ∷ id) = (some (c ∷ id), file)

abbrev pub ensure_in : Option (List ℕ) → Bool → StateFile → Option (List ℕ) × StateFile
ensure_in uuid written absent = generate uuid written absent
ensure_in uuid written unreadable = (none, unreadable)
ensure_in uuid written (content b) =
    read_or (generate uuid written (content b)) (content b) (trim_space b)

-- `found` tells whether the path of the state file is known.
unfoldable pub ensure_machine_id :
    Bool → Option (List ℕ) → Bool → StateFile → Option (List ℕ) × StateFile
ensure_machine_id found uuid written file =
    if found then ensure_in uuid written file else (none, file)

abbrev pub with_name : Option (List ℕ) → Config → Option Config
with_name hostname cfg = if is_set cfg.machine_display_name then some cfg else elim hostname [
  | none ↦ none
  | some host ↦ some (record cfg { machine_display_name = host })
]

abbrev pub with_id :
    Option (List ℕ) → Config → Option (List ℕ) × StateFile → Option Config × StateFile
with_id hostname cfg (none, file) = (none, file)
with_id hostname cfg (some id, file) = (with_name hostname (record cfg { machine_id = id }), file)

unfoldable pub finalize :
    Option (List ℕ) → Bool → Option (List ℕ) → Bool → StateFile → Config → Option Config × StateFile
finalize hostname found uuid written file cfg =
    if is_set cfg.machine_id
    then (with_name hostname cfg, file)
    else with_id hostname cfg (ensure_machine_id found uuid written file)
