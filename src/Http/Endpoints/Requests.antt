-- ===== src/Http/Endpoints/Requests.antt =====
-- What the registered apps are after any requests.
use pi_remote.Prelude.{
  ℕ, ◌≡◌, refl, subst, String, str_eq, eq_iff, Bool, Bool-cases, true, Option, none, some, List, [],
  ◌∷◌, Map, lookup, insert, string_eq, length, ◌==◌, ==_iff, inl, inr, if_rule, if_cases, arith,
}
use pi_remote.Auth.{Result, ok, refused, Identity}
use pi_remote.Push.{Client, Clients, register, set_found, set_preferences}
use pi_remote.Http.Endpoints.{
  RegisterBody, Answer, register_id, register_key, serve_register, all_valid, stored,
  serve_preferences,
}

pub record IsSound (id : String) (c : Client) : Type 0 where
  pub own : c.id ≡ id
  pub key : length c.pub_key ≡ 32
  pub reasons : all_valid c.preferences ≡ true

-- A property of every client, with the id that it stands under.
abbrev pub IsSoundAll : Clients → Type 0
IsSoundAll [] = Unit {0}
IsSoundAll ((id, c) ∷ m) = IsSound id c × IsSoundAll m

IsSoundAll-insert :
    (id : String) (c : Client) (m : Clients)
    → IsSound id c
    → IsSoundAll m
    → IsSoundAll (insert id c m)
IsSoundAll-insert id c [] s h = (s, tt)
IsSoundAll-insert id c ((j, d) ∷ m) s (t, h) =
    if_rule IsSoundAll (str_eq j id) _ _ (s, h) (t, IsSoundAll-insert id c m s h)

lookup-IsSound :
    (id : String) (c : Client) (m : Clients) → lookup id m ≡ some c → IsSoundAll m → IsSound id c
lookup-IsSound id c [] e h = cc
lookup-IsSound id c ((j, d) ∷ m) e (t, h) = elim (Bool-cases (str_eq j id)) [
  | inl own ↦
      let same : d ≡ c = ground arith in
      subst (λ (x : String). IsSound x c) ((eq_iff j id).0 own)
        (subst (λ (y : Client). IsSound j y) same t)
  | inr other ↦ lookup-IsSound id c m (rw other at e) h
]

pub data Request : Type 0 where
  registering : Result Identity → Option RegisterBody → Option String → ℕ → Request
  preferring : Result Identity → String → Option (Map String Bool) → Request

module _ (base64 : String → Option (List ℕ)) where
  unfoldable pub run : List Request → Clients → Clients
  run [] m = m
  run (registering auth body id now ∷ requests) m =
      run requests (serve_register base64 auth body id now m).0
  run (preferring auth id prefs ∷ requests) m = run requests (serve_preferences auth id prefs m).0

  serve_register-IsSoundAll :
      (auth : Result Identity) (body : Option RegisterBody) (id : Option String) (now : ℕ)
      (m : Clients)
      → IsSoundAll m
      → IsSoundAll (serve_register base64 auth body id now m).0
  unfolding serve_register register
  serve_register-IsSoundAll (refused e) body id now m h = h
  serve_register-IsSoundAll (ok identity) none id now m h = h
  serve_register-IsSoundAll (ok identity) (some body) id now m h =
      if_rule (λ (a : Answer). IsSoundAll a.0) _ _ _ h (keyed (base64 body.x25519_pubkey))
    where
      named :
          (k : List ℕ) (o : Option String)
          → length k ≡ 32
          → IsSoundAll (register_id body k now m o).0
      named k none e = h
      named k (some name) e =
          IsSoundAll-insert name _ m (record { own = refl; key = e; reasons = refl }) h

      keyed : (o : Option (List ℕ)) → IsSoundAll (register_key body id now m o).0
      keyed none = h
      keyed (some k) =
          if_cases (λ (a : Answer). IsSoundAll a.0) (length k == 32) _ _
            (λ e. named k id ((==_iff (length k) 32).0 e)) (λ e. h)

  serve_preferences-IsSoundAll :
      (auth : Result Identity) (id : String) (prefs : Option (Map String Bool)) (m : Clients)
      → IsSoundAll m
      → IsSoundAll (serve_preferences auth id prefs m).0
  unfolding serve_preferences set_preferences
  serve_preferences-IsSoundAll (refused e) id prefs m h = h
  serve_preferences-IsSoundAll (ok identity) id none m h = h
  serve_preferences-IsSoundAll (ok identity) id (some prefs) m h =
      if_cases (λ (a : Answer). IsSoundAll a.0) (all_valid prefs) _ _
        (λ e. set (lookup id m) refl e) (λ e. h)
    where
      set :
          (o : Option Client)
          → lookup id m ≡ o
          → all_valid prefs ≡ true
          → IsSoundAll (stored (set_found id prefs m o)).0
      set none f e = h
      set (some c) f e =
          let s = lookup-IsSound id c m f h in
          IsSoundAll-insert id _ m (record { own = s.own; key = s.key; reasons = e }) h

  -- Whatever requests come, in any order: every client stands under its own id, with a public key
  -- of 32 bytes, and its preferences name known reasons only.
  pub run-IsSoundAll :
      (requests : List Request) (m : Clients) → IsSoundAll m → IsSoundAll (run requests m)
  unfolding run
  run-IsSoundAll [] m h = h
  run-IsSoundAll (registering auth body id now ∷ requests) m h =
      run-IsSoundAll requests _ (serve_register-IsSoundAll auth body id now m h)
  run-IsSoundAll (preferring auth id prefs ∷ requests) m h =
      run-IsSoundAll requests _ (serve_preferences-IsSoundAll auth id prefs m h)
