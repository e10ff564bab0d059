-- ===== src/Push/Transport.antt =====
-- pi-remote-coordinator/internal/push/keypair.go, encrypt.go and ntfy.go: the key pair in its file,
-- what is sealed with it, and the request that carries it. The random bytes, the box of the
-- library, the file and the answer of the server are arguments.
use pi_remote.Prelude.{
  ℕ, zero, suc, ◌≡◌, refl, ap, String, str_eq, Bool, true, false, ◌||◌, Option, none, some, List,
  [], ◌∷◌, ◌++◌, ltb, ◌==◌, length, length-append, take, if◌then◌else◌, arith,
}

abbrev pub drop : ℕ → List ℕ → List ℕ
drop zero xs = xs
drop (suc n) [] = []
drop (suc n) (x ∷ xs) = drop n xs

pub record Keypair : Type 0 where
  pub public : List ℕ
  pub secret : List ℕ

abbrev pub keypair_file_size : ℕ
keypair_file_size = 64

-- The key file: absent, unreadable, or its content.
pub data KeyFile : Type 0 where
  absent unreadable : KeyFile
  content : List ℕ → KeyFile

-- A key pair from the library, if it makes one, and whether the file can be written.
abbrev pub generate : Option Keypair → Bool → Option Keypair × KeyFile
generate none written = (none, absent)
generate (some kp) written =
    if written then (some kp, content (kp.public ++ kp.secret)) else (none, absent)

unfoldable pub load_or_generate_keypair : Option Keypair → Bool → KeyFile → Option Keypair × KeyFile
load_or_generate_keypair fresh written absent = generate fresh written
load_or_generate_keypair fresh written unreadable = (none, unreadable)
load_or_generate_keypair fresh written (content b) =
    if length b == keypair_file_size
    then (some (record { public = take 32 b; secret = drop 32 b }), content b)
    else (none, content b)

-- With a nonce of 24 bytes, which stands before the box.
unfoldable pub seal :
    (List ℕ → List ℕ → List ℕ → List ℕ → List ℕ)
    → Option (List ℕ)
    → Keypair
    → List ℕ
    → List ℕ
    → Option (List ℕ)
seal box none kp plaintext recipient = none
seal box (some nonce) kp plaintext recipient =
    some (nonce ++ box plaintext nonce recipient kp.secret)

pub record PostRequest : Type 0 where
  pub endpoint : String
  pub content_type : String
  pub auth_token : Option String
  pub sent : List ℕ

unfoldable pub post_request : String → String → List ℕ → PostRequest
post_request auth_token endpoint sealed = record {
  endpoint = endpoint;
  content_type = "application/octet-stream";
  auth_token = if str_eq auth_token "" then none else some auth_token;
  sent = sealed;
}

-- The status of the answer, or none; the result tells whether the post succeeded.
unfoldable pub post : Option ℕ → Bool
post none = false
post (some status) = if ltb status 200 || ltb 299 status then false else true

take-append : (n : ℕ) (xs ys : List ℕ) → length xs ≡ n → take n (xs ++ ys) ≡ xs
take-append zero [] ys e = refl
take-append zero (x ∷ xs) ys e = absurd (omega arith)
take-append (suc n) [] ys e = absurd (omega arith)
take-append (suc n) (x ∷ xs) ys e = ap (◌∷◌ x) (take-append n xs ys (omega arith))

drop-append : (n : ℕ) (xs ys : List ℕ) → length xs ≡ n → drop n (xs ++ ys) ≡ ys
drop-append zero [] ys e = refl
drop-append zero (x ∷ xs) ys e = absurd (omega arith)
drop-append (suc n) [] ys e = absurd (omega arith)
drop-append (suc n) (x ∷ xs) ys e = drop-append n xs ys (omega arith)

-- A key pair that is generated and persisted on the first start is what every later start loads,
-- and the file stays as it is: the keys of the library have 32 bytes.
pub load_or_generate_keypair-again :
    (kp : Keypair) (later : Option Keypair) (again : Bool)
    → length kp.public ≡ 32
    → length kp.secret ≡ 32
    → let first = load_or_generate_keypair (some kp) true absent in
      (first.0 ≡ some kp) × (load_or_generate_keypair later again first.1 ≡ first)
unfolding load_or_generate_keypair
load_or_generate_keypair-again kp later again p s =
    let size : length (kp.public ++ kp.secret) ≡ 64 =
      omega (arith, length-append kp.public kp.secret) in
    (
      refl,
      rw size
          (rw (take-append 32 kp.public kp.secret p, drop-append 32 kp.public kp.secret p) refl),
    )
