-- ===== src/Auth.antt =====
-- pi-remote-coordinator/internal/auth: who a request comes from. A token is its list of bytes, a
-- time is in nanoseconds with 0 for the zero value, and the answer to the request for the key set
-- is an argument. Base64, JSON and RSA are parameters.
pub mod Accepts
pub mod Keys
use pi_remote.Prelude.{
  ℕ, ℤ, pos, negsuc, ◌+◌, ◌-◌, ◌*◌, ◌%◌, ◌^◌, String, str_eq, string_eq, Bool, true, false, not,
  ◌&&◌, ◌||◌, Option, none, some, List, [], ◌∷◌, ◌++◌, Map, lookup, insert, ltb, ◌==◌,
  if◌then◌else◌,
}

pub data Refusal : Type 0 where
  unauthenticated fetch_failed : Refusal

pub data Result (A : Type 0) : Type 0 where
  ok : A → Result A
  refused : Refusal → Result A

infixl 5 ◌>>=◌
abbrev pub ◌>>=◌ : {A B : Type 0} → Result A → (A → Result B) → Result B
ok a >>= f = f a
refused e >>= f = refused e

abbrev pub need : {A : Type 0} → Option A → Result A
need none = refused unauthenticated
need (some a) = ok a

abbrev pub check : {A : Type 0} → Bool → Result A → Result A
check true r = r
check false r = refused unauthenticated

pub record Identity : Type 0 where
  pub machine_id : String
  pub email : String
  pub client_id : String

pub record Key : Type 0 where
  pub n : ℕ
  pub e : ℕ

-- An entry of the fetched key set.
pub record Jwk : Type 0 where
  pub kty : String
  pub kid : String
  pub n : List ℕ
  pub e : List ℕ

pub record Claims : Type 0 where
  pub aud : List String
  pub exp : ℤ
  pub nbf : ℤ
  pub email : String
  pub common_name : String

pub record Header : Type 0 where
  pub alg : String
  pub kid : String

-- base64.RawURLEncoding, the two uses of encoding/json, and rsa.VerifyPKCS1v15 over SHA-256.
pub record Codec : Type 0 where
  pub decode : List ℕ → Option (List ℕ)
  pub header_of : List ℕ → Option Header
  pub claims_of : List ℕ → Option Claims
  pub verifies : Key → List ℕ → List ℕ → Bool

-- The key set is `none` before the first fetch.
pub record CfAccess : Type 0 where
  pub access_aud : String
  pub service_token_audience : String
  pub keys : Option (Map String Key)
  pub fetched_at : ℕ

-- The team's domain only makes the address of the key set.
unfoldable pub new_cf_access : String → String → String → Option CfAccess
new_cf_access access_aud service_token_audience team_domain =
    let c : CfAccess = record {
      access_aud = access_aud;
      service_token_audience = service_token_audience;
      keys = none;
      fetched_at = 0;
    } in
    if str_eq access_aud "" then none else if str_eq team_domain "" then none else some c

-- The fixtures of stub.go.
unfoldable pub stub_service_token : String → String → Result Identity
stub_service_token id secret =
    if str_eq id "" || str_eq secret ""
    then refused unauthenticated
    else if str_eq id "test-machine"
    then ok (record { machine_id = id; email = ""; client_id = "" })
    else refused unauthenticated

unfoldable pub stub_access_jwt : Option String → Result Identity
stub_access_jwt none = refused unauthenticated
stub_access_jwt (some cookie) =
    if str_eq cookie "test-jwt-clayton"
    then ok (record { machine_id = ""; email = "clayton@example.com"; client_id = "test-client-1" })
    else refused unauthenticated

abbrev pub second : ℕ
second = 1000000000

abbrev pub jwks_refresh_interval : ℕ
jwks_refresh_interval = 300 * second

-- The pieces between the dots.
abbrev pub to_first : ℕ → List (List ℕ) → List (List ℕ)
to_first c [] = (c ∷ []) ∷ []
to_first c (p ∷ ps) = (c ∷ p) ∷ ps

abbrev pub split : List ℕ → List (List ℕ)
split [] = [] ∷ []
split (c ∷ s) = let more = split s in if c == b'.' then [] ∷ more else to_first c more

pub record Token : Type 0 where
  pub head : List ℕ
  pub payload : List ℕ
  pub sig : List ℕ

abbrev pub three : List (List ℕ) → Option Token
three [] = none
three (a ∷ []) = none
three (a ∷ b ∷ []) = none
three (a ∷ b ∷ c ∷ []) = some (record { head = a; payload = b; sig = c })
three (a ∷ b ∷ c ∷ d ∷ rest) = none

-- big.Int.SetBytes.
abbrev pub big_from : ℕ → List ℕ → ℕ
big_from n [] = n
big_from n (b ∷ bs) = big_from (n * 256 + b) bs

abbrev pub key_of : Option (List ℕ) → Option (List ℕ) → Option Key
key_of (some n) (some e) = some (record { n = big_from 0 n; e = big_from 0 e % 2 ^ 64 })
key_of (some n) none = none
key_of none e = none

abbrev pub add_key : String → Option Key → Map String Key → Map String Key
add_key kid none keys = keys
add_key kid (some key) keys = insert kid key keys

abbrev pub has_aud : String → List String → Bool
has_aud want [] = false
has_aud want (a ∷ aud) = str_eq a want || has_aud want aud

abbrev pub is_expired : ℕ → ℤ → Bool
is_expired now (pos e) = not (e == 0) && ltb (e * second) now
is_expired now (negsuc e) = true

-- With a minute of tolerance.
abbrev pub is_early : ℕ → ℤ → Bool
is_early now (pos n) = not (n == 0) && ltb (now + 60 * second) (n * second)
is_early now (negsuc n) = false

abbrev pub find_key : String → Option (Map String Key) → Option Key
find_key kid none = none
find_key kid (some keys) = lookup kid keys

abbrev pub is_fetched : Option (Map String Key) → Bool
is_fetched none = false
is_fetched (some keys) = true

module _ (codec : Codec) where
  -- The RSA keys of the set; a key that does not decode is left out.
  unfoldable pub rsa_keys : List Jwk → Map String Key → Map String Key
  rsa_keys [] keys = keys
  rsa_keys (k ∷ jwks) keys =
      let key = if str_eq k.kty "RSA" then key_of (codec.decode k.n) (codec.decode k.e) else none in
      rsa_keys jwks (add_key k.kid key keys)

  abbrev pub install : ℕ → CfAccess → Map String Key → Result CfAccess
  install now c [] = refused fetch_failed
  install now c (k ∷ keys) = ok (record c { keys = some (k ∷ keys); fetched_at = now })

  -- `none` is a failed fetch or decode.
  abbrev pub refresh_locked : ℕ → Option (List Jwk) → CfAccess → Result CfAccess
  refresh_locked now none c = refused fetch_failed
  refresh_locked now (some jwks) c = install now c (rsa_keys jwks [])

  abbrev pub after_refresh : String → CfAccess → Result CfAccess → CfAccess × Result Key
  after_refresh kid c (refused e) = (c, refused e)
  after_refresh kid c (ok c') = (c', need (find_key kid c'.keys))

  abbrev pub key_unless :
      String → ℕ → Option (List Jwk) → CfAccess → Option Key → CfAccess × Result Key
  key_unless kid now fetch c (some key) = (c, ok key)
  key_unless kid now fetch c none =
      if ltb (now - c.fetched_at) jwks_refresh_interval && is_fetched c.keys
      then (c, refused unauthenticated)
      else after_refresh kid c (refresh_locked now fetch c)

  unfoldable pub key_for : String → ℕ → Option (List Jwk) → CfAccess → CfAccess × Result Key
  key_for kid now fetch c = key_unless kid now fetch c (find_key kid c.keys)

  -- What `verify` checks once it has the key.
  abbrev pub verify_claims : String → ℕ → Claims → Result Claims
  verify_claims want now claims =
      check (has_aud want claims.aud) (
        check (not (is_expired now claims.exp)) (check (not (is_early now claims.nbf)) (ok claims)))

  abbrev pub verify_with : Token → String → ℕ → Key → Result Claims
  verify_with t want now key = need (codec.decode t.sig) >>= λ sig.
      check (codec.verifies key (t.head ++ b'.' ∷ t.payload) sig) (
        need (codec.decode t.payload) >>= λ payload.
        need (codec.claims_of payload) >>= verify_claims want now)

  abbrev pub then_verify : Token → String → ℕ → CfAccess × Result Key → CfAccess × Result Claims
  then_verify t want now (c, key) = (c, key >>= verify_with t want now)

  abbrev pub verify_token :
      Token → String → ℕ → Option (List Jwk) → CfAccess → Option Header → CfAccess × Result Claims
  verify_token t want now fetch c none = (c, refused unauthenticated)
  verify_token t want now fetch c (some header) =
      if str_eq header.alg "RS256"
      then then_verify t want now (key_for header.kid now fetch c)
      else (c, refused unauthenticated)

  abbrev pub header_in : Option (List ℕ) → Option Header
  header_in none = none
  header_in (some bytes) = codec.header_of bytes

  abbrev pub verify_parts :
      String → ℕ → Option (List Jwk) → CfAccess → Option Token → CfAccess × Result Claims
  verify_parts want now fetch c none = (c, refused unauthenticated)
  verify_parts want now fetch c (some t) =
      verify_token t want now fetch c (header_in (codec.decode t.head))

  unfoldable pub verify :
      List ℕ → String → ℕ → Option (List Jwk) → CfAccess → CfAccess × Result Claims
  verify token want now fetch c = verify_parts want now fetch c (three (split token))

  abbrev pub machine_of : Claims → Result Identity
  machine_of claims =
      check (not (str_eq claims.common_name ""))
        (ok (record { machine_id = claims.common_name; email = ""; client_id = "" }))

  abbrev pub user_of : Claims → Result Identity
  user_of claims =
      check (not (str_eq claims.email ""))
        (ok (record { machine_id = ""; email = claims.email; client_id = "" }))

  abbrev pub identified :
      (Claims → Result Identity) → CfAccess × Result Claims → CfAccess × Result Identity
  identified f (c, claims) = (c, claims >>= f)

  -- The header Cf-Access-Jwt-Assertion, empty if it is missing.
  unfoldable pub service_token :
      List ℕ → ℕ → Option (List Jwk) → CfAccess → CfAccess × Result Identity
  service_token [] now fetch c = (c, refused unauthenticated)
  service_token (b ∷ token) now fetch c =
      identified machine_of (verify (b ∷ token) c.service_token_audience now fetch c)

  abbrev pub user_token : List ℕ → ℕ → Option (List Jwk) → CfAccess → CfAccess × Result Identity
  user_token [] now fetch c = (c, refused unauthenticated)
  user_token (b ∷ token) now fetch c =
      identified user_of (verify (b ∷ token) c.access_aud now fetch c)

  -- The cookie CF_Authorization, or else the header; both empty if missing.
  unfoldable pub access_jwt :
      List ℕ → List ℕ → ℕ → Option (List Jwk) → CfAccess → CfAccess × Result Identity
  access_jwt [] assertion now fetch c = user_token assertion now fetch c
  access_jwt (b ∷ cookie) assertion now fetch c = user_token (b ∷ cookie) now fetch c
