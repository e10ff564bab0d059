-- ===== src/Auth/Keys.antt =====
-- How long a key is used.
use pi_remote.Prelude.{
  ℕ, ◌≡◌, refl, String, str_eq, Bool-cases, Option, some, List, string_eq, inl, inr,
}
use pi_remote.Auth.{
  Key, Jwk, Header, Codec, CfAccess, Token, three, split, find_key, header_in, key_for, verify,
}

-- A token whose key is in the cache.
pub record IsCached (codec : Codec) (c : CfAccess) (token : List ℕ) : Type 0 where
  pub t : Token
  pub parts : three (split token) ≡ some t
  pub header : Header
  pub headed : header_in codec (codec.decode t.head) ≡ some header
  pub key : Key
  pub cached : find_key header.kid c.keys ≡ some key

-- A key that is in the cache serves for its tokens at any later time, whatever set of keys is
-- published by then: no fetch is made, and the cache stays as it is.
pub verify-IsCached :
    (codec : Codec) (c : CfAccess) (token : List ℕ) (want : String) (now : ℕ)
    (fetch other : Option (List Jwk))
    → IsCached codec c token
    → (verify codec token want now fetch c ≡ verify codec token want now other c)
      × ((verify codec token want now fetch c).0 ≡ c)
unfolding verify key_for
verify-IsCached codec c token want now fetch other w =
    rw (w.parts, w.headed)
      (elim (Bool-cases (str_eq w.header.alg "RS256")) [
        | inl e ↦ rw (e, w.cached) (refl, refl)
        | inr e ↦ rw e (refl, refl)
      ])
