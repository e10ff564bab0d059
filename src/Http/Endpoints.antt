-- ===== src/Http/Endpoints.antt =====
-- pi-remote-coordinator/internal/http/clients_register.go and clients_preferences.go. The result of
-- the authentication, the decoded body and the new id are arguments; `none` is an error.
pub mod Requests
use pi_remote.Prelude.{
  ℕ, String, str_eq, Bool, true, false, not, ◌&&◌, ◌||◌, Option, none, some, List, [], ◌∷◌, Map,
  length, ◌==◌, if◌then◌else◌,
}
use pi_remote.Auth.{Result, ok, refused, Identity}
use pi_remote.Push.{Client, Clients, register, set_preferences, valid_reason}

pub record RegisterBody : Type 0 where
  pub device_display_name : String
  pub unifiedpush_endpoint : String
  pub x25519_pubkey : String

-- The status, and the id in the response to a registration.
pub data Response : Type 0 where
  registered : String → Response
  updated auth_required bad_request unknown_client internal_error : Response

abbrev pub Answer : Type 0
Answer = Clients × Response

abbrev pub client_of : String → RegisterBody → List ℕ → ℕ → Client
client_of id body pub_key now = record {
  id = id;
  device_display_name = body.device_display_name;
  last_seen = 0;
  endpoint = body.unifiedpush_endpoint;
  pub_key = pub_key;
  registered_at = now;
  preferences = [];
}

abbrev pub register_id : RegisterBody → List ℕ → ℕ → Clients → Option String → Answer
register_id body pub_key now m none = (m, internal_error)
register_id body pub_key now m (some id) =
    (register (client_of id body pub_key now) m, registered id)

abbrev pub register_key : RegisterBody → Option String → ℕ → Clients → Option (List ℕ) → Answer
register_key body id now m none = (m, bad_request)
register_key body id now m (some pub_key) =
    if length pub_key == 32 then register_id body pub_key now m id else (m, bad_request)

-- `base64` decodes the key.
abbrev pub register_body :
    (String → Option (List ℕ)) → Option String → ℕ → Clients → Option RegisterBody → Answer
register_body base64 id now m none = (m, bad_request)
register_body base64 id now m (some body) =
    if str_eq body.device_display_name ""
      || (str_eq body.unifiedpush_endpoint "" || str_eq body.x25519_pubkey "")
    then (m, bad_request)
    else register_key body id now m (base64 body.x25519_pubkey)

unfoldable pub serve_register :
    (String → Option (List ℕ))
    → Result Identity
    → Option RegisterBody
    → Option String
    → ℕ
    → Clients
    → Answer
serve_register base64 (refused e) body id now m = (m, auth_required)
serve_register base64 (ok identity) body id now m = register_body base64 id now m body

abbrev pub all_valid : Map String Bool → Bool
all_valid [] = true
all_valid ((reason, wanted) ∷ prefs) =
    let rest = all_valid prefs in if valid_reason reason then rest else false

abbrev pub stored : Clients × Bool → Answer
stored (m, found) = (m, if found then updated else unknown_client)

abbrev pub update : String → Clients → Option (Map String Bool) → Answer
update id m none = (m, bad_request)
update id m (some prefs) =
    if all_valid prefs then stored (set_preferences id prefs m) else (m, bad_request)

unfoldable pub serve_preferences :
    Result Identity → String → Option (Map String Bool) → Clients → Answer
serve_preferences (refused e) id prefs m = (m, auth_required)
serve_preferences (ok identity) id prefs m = update id m prefs
