-- ===== src/Tests/Settings.antt =====
-- Runs of the configurations and of the endpoints of the apps.
use pi_remote.Prelude.{
  ℕ, pos, ◌≡◌, refl, String, true, false, Option, none, some, List, [], ◌∷◌, replicate, str_eq,
  if◌then◌else◌,
}
use pi_remote.Auth.{ok, refused, unauthenticated, Identity}
use pi_remote.Http.Endpoints.{RegisterBody}
use pi_remote.Http.Endpoints.Requests.{
  IsSoundAll, Request, registering, preferring, run, run-IsSoundAll,
}
use pi_remote.Sessions.Registry.{new_registry_with_limits}
use pi_remote.Config as Coordinator
use pi_remote.Config.{File, missing, defaults, load, apply_env, validate}
use pi_remote.Config.Limits.{IsBounded, load-IsBounded}
use pi_remote.Daemon.Tmux.Lines.{bytes}
use pi_remote.Daemon.Config.{absent, content, ensure_machine_id}
use pi_remote.Daemon.Config.Identity.{ensure_machine_id-again}

abbrev identity : Identity
identity = record { machine_id = ""; email = "a@b.c"; client_id = "" }

abbrev body : RegisterBody
body = record {
  device_display_name = "phone";
  unifiedpush_endpoint = "https://push";
  x25519_pubkey = "key";
}

abbrev base64 : String → Option (List ℕ)
base64 s = some (replicate 32 7)

abbrev requests : List Request
requests =
    registering (ok identity) (some body) (some "c") 5
    ∷ preferring (ok identity) "c" (some (("session_ended", true) ∷ []))
    ∷ preferring (ok identity) "c" (some (("weather", true) ∷ []))
    ∷ preferring (refused unauthenticated) "c" none
    ∷ []

run-IsSoundAll_example : IsSoundAll (run base64 requests [])
run-IsSoundAll_example = run-IsSoundAll base64 requests [] tt

abbrev getenv : String → String
getenv name = if str_eq name "PI_REMOTE_SESSION_CACHE_FLOOR_BYTES" then "2048" else ""

abbrev settings : Coordinator.Config
settings = record {
  listen = ":8080";
  access_aud = "";
  service_token_audience = "";
  team_domain = "";
  ntfy_url = "";
  auth_token = "";
  total_cache_bytes = pos 52428800;
  session_cache_floor_bytes = pos 2048;
  coordinator_keypair_path = "/data/coordinator-keypair.box";
}

loads : load false missing getenv ≡ some settings
unfolding load defaults apply_env validate
loads = refl

load-IsBounded_example :
    IsBounded settings
      (new_registry_with_limits settings.total_cache_bytes settings.session_cache_floor_bytes)
load-IsBounded_example = load-IsBounded false missing getenv settings loads

abbrev uuid : List ℕ
uuid = bytes "a1"

generated : ensure_machine_id true (some uuid) true absent ≡ (some uuid, content (bytes "a1\n"))
unfolding ensure_machine_id
generated = refl

ensure_machine_id-again_example :
    ensure_machine_id true (some (bytes "b2")) true (content (bytes "a1\n"))
    ≡ (some uuid, content (bytes "a1\n"))
ensure_machine_id-again_example =
    ensure_machine_id-again b'a' (bytes "1") (refl, (refl, tt)) (some (bytes "b2")) true true absent
      (content (bytes "a1\n")) uuid generated
