-- ===== src/Auth/Accepts.antt =====
-- Which tokens are accepted.
use pi_remote.Prelude.{
  ℕ, ℤ, pos, negsuc, ◌+◌, ◌*◌, ◌≤◌, ◌≡◌, ◌⊎◌, ◌↔◌, inl, inr, refl, ap, subst, ◌∙◌, String, str_eq,
  eq_iff, Bool, Bool-cases, true, false, not, Option, none, some, List, [], ◌∷◌, ◌++◌, ltb, ◌==◌,
  ◌&&◌, arith,
}
use pi_remote.Auth.{
  Result, ok, refused, ◌>>=◌, need, check, Key, Jwk, Claims, Header, Codec, CfAccess, second, Token,
  three, split, has_aud, is_expired, is_early, key_for, verify_claims, verify_with, verify_token,
  header_in, verify_parts, verify,
}

need_inv :
    {A B : Type 0} (o : Option A) (f : A → Result B) (b : B)
    → (need o >>= f) ≡ ok b
    → (a : A) × (o ≡ some a) × (f a ≡ ok b)
need_inv none f b e = cc
need_inv (some a) f b e = (a, refl, e)

check_inv :
    {A : Type 0} (b : Bool) (r : Result A) (a : A) → check b r ≡ ok a → (b ≡ true) × (r ≡ ok a)
check_inv true r a e = (refl, e)
check_inv false r a e = cc

bind_inv :
    {A B : Type 0} (r : Result A) (f : A → Result B) (b : B)
    → (r >>= f) ≡ ok b
    → (a : A) × (r ≡ ok a) × (f a ≡ ok b)
bind_inv (ok a) f b e = (a, refl, e)
bind_inv (refused x) f b e = cc

abbrev pub Among : String → List String → Type 0
Among want [] = ⊥
Among want (a ∷ aud) = (a ≡ want) ⊎ Among want aud

has_aud-Among : (want : String) (aud : List String) → (has_aud want aud ≡ true) ↔ Among want aud
has_aud-Among want [] = (λ e. cc, λ h. absurd h)
has_aud-Among want (a ∷ aud) =
    let (to, back) = has_aud-Among want aud in
    (
      λ e. elim (Bool-cases (str_eq a want)) [
        | inl own ↦ inl ((eq_iff a want).0 own)
        | inr other ↦ inr (to (ground arith))
      ],
      λ h. elim h [
        | inl own ↦ ground (arith, eq_iff a want)
        | inr later ↦ ground (arith, back later)
      ],
    )

-- No end is set, or it has not passed.
abbrev pub Lasts : ℕ → ℤ → Type 0
Lasts now (pos e) = (e ≡ 0) ⊎ (now ≤ e * second)
Lasts now (negsuc e) = ⊥

-- No begin is set, or it is less than a minute away.
abbrev pub Began : ℕ → ℤ → Type 0
Began now (pos n) = (n ≡ 0) ⊎ (n * second ≤ now + 60 * second)
Began now (negsuc n) = Unit {0}

window : (x a b : ℕ) → (not (not (x == 0) && ltb a b) ≡ true) ↔ ((x ≡ 0) ⊎ (b ≤ a))
window x a b = (
  λ h. elim (Bool-cases (x == 0)) [ inl e ↦ inl (ground arith) | inr e ↦ inr (ground arith) ],
  λ h. elim h [ inl e ↦ ground arith | inr e ↦ ground arith ],
)

is_expired-Lasts : (now : ℕ) (e : ℤ) → (not (is_expired now e) ≡ true) ↔ Lasts now e
is_expired-Lasts now (pos e) = window e (e * second) now
is_expired-Lasts now (negsuc e) = (λ h. cc, λ h. absurd h)

is_early-Began : (now : ℕ) (n : ℤ) → (not (is_early now n) ≡ true) ↔ Began now n
is_early-Began now (pos n) = window n (now + 60 * second) (n * second)
is_early-Began now (negsuc n) = (λ h. tt, λ h. refl)

module _ (codec : Codec) where
  -- A token of three parts whose head names RS256 and a key that is found; whose signature the key
  -- verifies over the first two parts; and whose claims name the audience and hold at this time.
  pub record Accepted (token : List ℕ) (want : String) (now : ℕ) (fetch : Option (List Jwk))
      (c : CfAccess) (claims : Claims) : Type 0 where
    pub t : Token
    pub parts : three (split token) ≡ some t
    pub header : Header
    pub headed : header_in codec (codec.decode t.head) ≡ some header
    pub algorithm : header.alg ≡ "RS256"
    pub key : Key
    pub found : (key_for codec header.kid now fetch c).1 ≡ ok key
    pub sig : List ℕ
    pub signed : codec.decode t.sig ≡ some sig
    pub verified : codec.verifies key (t.head ++ b'.' ∷ t.payload) sig ≡ true
    pub payload : List ℕ
    pub decoded : codec.decode t.payload ≡ some payload
    pub claimed : codec.claims_of payload ≡ some claims
    pub audience : Among want claims.aud
    pub lasts : Lasts now claims.exp
    pub began : Began now claims.nbf

  verify_claims_inv :
      (want : String) (now : ℕ) (cl claims : Claims)
      → verify_claims codec want now cl ≡ ok claims
      → (cl ≡ claims) × Among want cl.aud × Lasts now cl.exp × Began now cl.nbf
  verify_claims_inv want now cl claims e =
      let (a, e1) = check_inv (has_aud want cl.aud) _ claims e in
      let (l, e2) = check_inv (not (is_expired now cl.exp)) _ claims e1 in
      let (b, e3) = check_inv (not (is_early now cl.nbf)) (ok cl) claims e2 in
      (
        cc e3,
        (has_aud-Among want cl.aud).0 a,
        (is_expired-Lasts now cl.exp).0 l,
        (is_early-Began now cl.nbf).0 b,
      )

  module _ (token : List ℕ) (want : String) (now : ℕ) (fetch : Option (List Jwk))
      (c : CfAccess) where
    verify_token_inv :
        (claims : Claims) (t : Token) (o : Option Header)
        → three (split token) ≡ some t
        → header_in codec (codec.decode t.head) ≡ o
        → (verify_token codec t want now fetch c o).1 ≡ ok claims
        → Accepted token want now fetch c claims
    verify_token_inv claims t none p q e = cc
    verify_token_inv claims t (some header) p q e = elim (Bool-cases (str_eq header.alg "RS256")) [
      | inl alg ↦
          let e1 : ((key_for codec header.kid now fetch c).1 >>= verify_with codec t want now)
              ≡ ok claims =
            rw alg at e in
          let (key, found, e2) = bind_inv (key_for codec header.kid now fetch c).1 _ claims e1 in
          let (sig, signed, e3) = need_inv (codec.decode t.sig) _ claims e2 in
          let (verified, e4) = check_inv _ _ claims e3 in
          let (payload, decoded, e5) = need_inv (codec.decode t.payload) _ claims e4 in
          let (cl, claimed, e6) = need_inv (codec.claims_of payload) _ claims e5 in
          let (same, aud, lasts, began) = verify_claims_inv want now cl claims e6 in
          record {
            t = t;
            parts = p;
            header = header;
            headed = q;
            algorithm = (eq_iff header.alg "RS256").0 alg;
            key = key;
            found = found;
            sig = sig;
            signed = signed;
            verified = verified;
            payload = payload;
            decoded = decoded;
            claimed = claimed ∙ ap some same;
            audience = subst (λ (x : Claims). Among want x.aud) same aud;
            lasts = subst (λ (x : Claims). Lasts now x.exp) same lasts;
            began = subst (λ (x : Claims). Began now x.nbf) same began;
          }
      | inr other ↦ absurd (ground arith)
    ]

    Accepted-verify :
        (claims : Claims)
        → Accepted token want now fetch c claims
        → (verify codec token want now fetch c).1 ≡ ok claims
    unfolding verify
    Accepted-verify claims w =
        rw (w.parts, w.headed, w.algorithm, w.found, w.signed)
          (rw (w.verified, w.decoded, w.claimed)
            (rw
              (
                (has_aud-Among want claims.aud).1 w.audience,
                (is_expired-Lasts now claims.exp).1 w.lasts,
                (is_early-Began now claims.nbf).1 w.began,
              )
              refl))

    -- `verify` accepts a token with its claims exactly if it has three parts, its head names RS256
    -- and a key that is found, that key verifies its signature, and the claims name the audience,
    -- have not expired and have begun up to a minute of tolerance.
    pub verify-Accepted :
        (claims : Claims)
        → ((verify codec token want now fetch c).1 ≡ ok claims)
          ↔ Accepted token want now fetch c claims
    unfolding verify
    verify-Accepted claims = (split_token (three (split token)) refl, Accepted-verify claims)
      where
        split_token :
            (o : Option Token)
            → three (split token) ≡ o
            → (verify_parts codec want now fetch c o).1 ≡ ok claims
            → Accepted token want now fetch c claims
        split_token none p e = cc
        split_token (some t) p e =
            verify_token_inv claims t (header_in codec (codec.decode t.head)) p refl e
