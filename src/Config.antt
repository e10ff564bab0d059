-- ===== src/Config.antt =====
-- pi-remote-coordinator/internal/config/config.go. What the file holds is an argument: it lays its
-- keys over the defaults. So is the environment, where a variable that is not set is "".
pub mod Limits
use pi_remote.Prelude.{
  ℕ, ℤ, pos, negsuc, ◌+◌, ◌-◌, ◌*◌, ◌^◌, String, str_eq, Bool, true, false, not, ◌&&◌, ◌||◌, Option,
  none, some, List, [], ◌∷◌, ◌++◌, ltb, leb, ◌==◌, if◌then◌else◌,
}
use pi_remote.Daemon.Tmux.Lines.{bytes}

pub record Config : Type 0 where
  pub listen : String
  pub access_aud : String
  pub service_token_audience : String
  pub team_domain : String
  pub ntfy_url : String
  pub auth_token : String
  pub total_cache_bytes : ℤ
  pub session_cache_floor_bytes : ℤ
  pub coordinator_keypair_path : String

unfoldable pub defaults : Config
defaults = record {
  listen = ":8080";
  access_aud = "";
  service_token_audience = "";
  team_domain = "";
  ntfy_url = "";
  auth_token = "";
  total_cache_bytes = pos 52428800;
  session_cache_floor_bytes = pos 1048576;
  coordinator_keypair_path = "/data/coordinator-keypair.box";
}

-- No file is found; it cannot be read or parsed; or it gives values, and keys that are unknown.
pub data File : Type 0 where
  missing : File
  broken : File
  decoded : (Config → Config) → List String → File

abbrev pub digits : ℕ → List ℕ → Option ℕ
digits n [] = some n
digits n (c ∷ s) =
    let rest = digits (n * 10 + (c - b'0')) s in if leb b'0' c && leb c b'9' then rest else none

abbrev pub some_digits : List ℕ → Option ℕ
some_digits [] = none
some_digits (c ∷ s) = digits 0 (c ∷ s)

abbrev pub positive : Option ℕ → Option ℤ
positive none = none
positive (some n) = if ltb n (2 ^ 63) then some (pos n) else none

abbrev pub negative : Option ℕ → Option ℤ
negative none = none
negative (some n) =
    if n == 0 then some (pos 0) else if leb n (2 ^ 63) then some (negsuc (n - 1)) else none

-- strconv.ParseInt to base 10 and 64 bits.
abbrev pub parse_int : List ℕ → Option ℤ
parse_int [] = none
parse_int (c ∷ s) =
    if c == b'-'
    then negative (some_digits s)
    else if c == b'+'
    then positive (some_digits s)
    else positive (digits 0 (c ∷ s))

abbrev pub over : String → String → String
over old v = if str_eq v "" then old else v

abbrev pub over_int : ℤ → String → Option ℤ
over_int old v = if str_eq v "" then some old else parse_int (bytes v)

abbrev pub with_limits : Config → Option ℤ → Option ℤ → Option Config
with_limits cfg (some total) (some floor) =
    some (record cfg { total_cache_bytes = total; session_cache_floor_bytes = floor })
with_limits cfg none floor = none
with_limits cfg (some total) none = none

-- `none` is an error.
unfoldable pub apply_env : (String → String) → Config → Option Config
apply_env getenv cfg =
    with_limits
      (record cfg {
        listen = over cfg.listen (getenv "PI_REMOTE_LISTEN");
        access_aud = over cfg.access_aud (getenv "PI_REMOTE_ACCESS_AUD");
        service_token_audience =
            over cfg.service_token_audience (getenv "PI_REMOTE_SERVICE_TOKEN_AUDIENCE");
        team_domain = over cfg.team_domain (getenv "PI_REMOTE_CF_TEAM_DOMAIN");
        ntfy_url = over cfg.ntfy_url (getenv "PI_REMOTE_NTFY_URL");
        auth_token = over cfg.auth_token (getenv "PI_REMOTE_NTFY_AUTH_TOKEN");
        coordinator_keypair_path =
            over cfg.coordinator_keypair_path (getenv "PI_REMOTE_COORDINATOR_KEYPAIR_PATH");
      })
      (over_int cfg.total_cache_bytes (getenv "PI_REMOTE_TOTAL_CACHE_BYTES"))
      (over_int cfg.session_cache_floor_bytes (getenv "PI_REMOTE_SESSION_CACHE_FLOOR_BYTES"))

pub data Problem : Type 0 where
  empty_listen bad_total bad_floor floor_above_total : Problem
  no_access_aud no_service_audience no_team_domain : Problem

abbrev pub is_positive : ℤ → Bool
is_positive (pos n) = ltb 0 n
is_positive (negsuc n) = false

abbrev pub exceeds : ℤ → ℤ → Bool
exceeds (pos a) (pos b) = ltb b a
exceeds (pos a) (negsuc b) = true
exceeds (negsuc a) (pos b) = false
exceeds (negsuc a) (negsuc b) = ltb a b

abbrev pub unless : Bool → Problem → List Problem
unless true p = []
unless false p = p ∷ []

-- All problems that the configuration has.
unfoldable pub validate : Config → List Problem
validate cfg =
    let total = cfg.total_cache_bytes in
    let floor = cfg.session_cache_floor_bytes in
    unless (not (str_eq cfg.listen "")) empty_listen
    ++ (unless (is_positive total) bad_total
        ++ (unless (is_positive floor) bad_floor
            ++ unless (not (is_positive floor && is_positive total && exceeds floor total))
                floor_above_total))

unfoldable pub validate_cf_access : Config → List Problem
validate_cf_access cfg =
    unless (not (str_eq cfg.access_aud "")) no_access_aud
    ++ (unless (not (str_eq cfg.service_token_audience "")) no_service_audience
        ++ unless (not (str_eq cfg.team_domain "")) no_team_domain)

abbrev pub from_file : Bool → File → Option Config
from_file explicit missing = if explicit then none else some defaults
from_file explicit broken = none
from_file explicit (decoded overlay []) = some (overlay defaults)
from_file explicit (decoded overlay (k ∷ unknown)) = none

abbrev pub if_valid : Config → List Problem → Option Config
if_valid cfg [] = some cfg
if_valid cfg (p ∷ problems) = none

abbrev pub validated : Option Config → Option Config
validated none = none
validated (some cfg) = if_valid cfg (validate cfg)

abbrev pub with_env : (String → String) → Option Config → Option Config
with_env getenv none = none
with_env getenv (some cfg) = apply_env getenv cfg

-- With whether a path was given.
unfoldable pub load : Bool → File → (String → String) → Option Config
load explicit file getenv = validated (with_env getenv (from_file explicit file))
