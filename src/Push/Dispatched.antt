-- ===== src/Push/Dispatched.antt =====
-- What a notification posts to which client.
use pi_remote.Prelude.{
  ℕ, ◌≡◌, refl, subst, eq_iff, ◌∙◌, sym, inl, inr, String, str_eq, string_eq, Bool, true, false,
  not, ◌&&◌, ◌||◌, Option, none, some, List, [], ◌∷◌, ◌++◌, Map, lookup, ◌==◌, if◌then◌else◌,
  Bool-cases, arith,
}
use Prim.Native.String.{◌++◌ as str_append}
use pi_remote.Machines.Ingest.{Notification}
use pi_remote.Push.{
  Client, Clients, ConnFocus, FocusTracker, Payload, Post, default_reason_enabled, or_else,
  reason_enabled, is_focused, is_zero_key, payload_of, posted, fan_out, dispatch, valid_reason,
  list,
}

-- The reasons that are pushed unless a client says otherwise, and those that are not.
abbrev pub is_on : String → Bool
is_on r =
    str_eq "agent_idle" r
    || (str_eq "extension_dialog" r || (str_eq "tool_failure" r || str_eq "unresponsive" r))

abbrev pub is_off : String → Bool
is_off r =
    str_eq "queue_update" r
    || (str_eq "compaction_complete" r
        || (str_eq "extension_error" r
            || (str_eq "session_ended" r || str_eq "machine_suspended" r)))

abbrev pub any {ℓ} : {A : Type ℓ} → (A → Bool) → List A → Bool
any p [] = false
any p (x ∷ xs) = p x || any p xs

-- What the client says of the reason, or else what holds for all.
abbrev pub prefers : String → Option Bool → Bool
prefers reason (some b) = b
prefers reason none = is_on reason

abbrev pub is_held : Option Bool → Bool
is_held (some b) = b
is_held none = false

-- The client has an endpoint and a key that is not all zeros, wants the reason, and none of its
-- connections shows the session.
abbrev pub wants : Notification → FocusTracker → Client → Bool
wants n t c =
    not (str_eq c.endpoint "")
    && (any (λ b. not (b == 0)) c.pub_key
        && (prefers n.reason (lookup n.reason c.preferences)
            && not (
                any
                  (λ (entry : String × ConnFocus).
                    str_eq entry.1.client_id c.id && is_held (lookup n.session_id entry.1.sessions))
                  t)))

-- The notification, of now if it has no time, with a link to its session.
abbrev pub linked : Notification → ℕ → Payload
linked n now = record {
  notification = record n { ts = if n.ts == 0 then now else n.ts };
  deep_link = str_append "pi-remote://session/" n.session_id;
}

-- The one post of a client, or none where the payload cannot be sealed to its key.
abbrev pub post_of : String → Option (List ℕ) → List Post
post_of endpoint none = []
post_of endpoint (some bytes) = record { endpoint = endpoint; sealed = bytes } ∷ []

abbrev pub posts_of :
    (Payload → List ℕ → Option (List ℕ)) → Notification → ℕ → FocusTracker → Client → List Post
posts_of seal n now t c =
    if (is_on n.reason || is_off n.reason) && wants n t c
    then post_of c.endpoint (seal (linked n now) c.pub_key)
    else []

-- The clients one after the other.
abbrev pub each_of : (Client → List Post) → Clients → List Post
each_of f [] = []
each_of f ((id, c) ∷ cs) = f c ++ each_of f cs

valid_reason_lem : (r : String) → valid_reason r ≡ is_on r || is_off r
unfolding valid_reason
valid_reason_lem r = ground arith

default_enabled_lem : (r : String) → or_else (lookup r default_reason_enabled) false ≡ is_on r
default_enabled_lem r = elim (Bool-cases (str_eq "unresponsive" r)) [
  | inl e ↦
      subst (λ z. or_else (lookup z default_reason_enabled) false ≡ is_on z)
        ((eq_iff "unresponsive" r).0 e) refl
  | inr f ↦ ground arith
]

reason_enabled_lem :
    (prefs : Map String Bool) (r : String) → reason_enabled prefs r ≡ prefers r (lookup r prefs)
unfolding reason_enabled
reason_enabled_lem prefs r = go (lookup r prefs)
  where
    go :
        (o : Option Bool)
        → or_else o (or_else (lookup r default_reason_enabled) false) ≡ prefers r o
    go none = default_enabled_lem r
    go (some b) = refl

is_zero_key_lem : (key : List ℕ) → is_zero_key key ≡ not (any (λ b. not (b == 0)) key)
is_zero_key_lem [] = refl
is_zero_key_lem (b ∷ key) = ground (arith, is_zero_key_lem key)

is_focused_lem :
    (id session : String) (t : FocusTracker)
    → is_focused id session t
      ≡ any
          (λ (entry : String × ConnFocus).
            str_eq entry.1.client_id id && is_held (lookup session entry.1.sessions))
          t
unfolding is_focused
is_focused_lem id session [] = refl
is_focused_lem id session ((conn, cf) ∷ t) = ground (arith, is_focused_lem id session t)

chosen :
    (a b c d : Bool) (skip take : List Post)
    → (if a || not b then skip else if not c then skip else if d then skip else take)
      ≡ (if not a && (b && (c && not d)) then take else skip)
chosen true b c d skip take = refl
chosen false false c d skip take = refl
chosen false true false d skip take = refl
chosen false true true true skip take = refl
chosen false true true false skip take = refl

posted_lem :
    (w : Bool) (c : Client) (o : Option (List ℕ)) (rest : List Post)
    → (if w then posted c o rest else rest) ≡ (if w then post_of c.endpoint o else []) ++ rest
posted_lem false c o rest = refl
posted_lem true c none rest = refl
posted_lem true c (some bytes) rest = refl

module _ (seal : Payload → List ℕ → Option (List ℕ)) (n : Notification) (now : ℕ) where
  fan_out-each :
      (t : FocusTracker) (cs : Clients)
      → (is_on n.reason || is_off n.reason) ≡ true
      → fan_out seal n (payload_of n now) t (list cs) ≡ each_of (posts_of seal n now t) cs
  unfolding fan_out list
  fan_out-each t [] known = refl
  fan_out-each t ((id, c) ∷ cs) known =
      let sealed = seal (payload_of n now) c.pub_key in
      let rest = each_of (posts_of seal n now t) cs in
      rw
        (
          fan_out-each t cs known,
          is_zero_key_lem c.pub_key,
          reason_enabled_lem c.preferences n.reason,
          is_focused_lem c.id n.session_id t,
          known,
        )
        (chosen _ _ _ _ rest (posted c sealed rest) ∙ posted_lem (wants n t c) c sealed rest)

  nothing :
      (t : FocusTracker) (cs : Clients)
      → (is_on n.reason || is_off n.reason) ≡ false
      → each_of (posts_of seal n now t) cs ≡ []
  nothing t [] unknown = refl
  nothing t ((id, c) ∷ cs) unknown = rw unknown (nothing t cs unknown)

  -- A notification is posted to the registered clients in their order, to each at most once. A
  -- client gets its one post, the notification, of now if it has no time, with a link to its session,
  -- sealed to its key, where the reason is one of the nine,
  -- the client has an endpoint and a key that is not all zeros, its preferences take the reason, or
  -- say nothing of it and it is one of the four that are on, no connection of the client has the
  -- session in focus, and the payload can be sealed; else it gets none.
  pub dispatch-each :
      (t : FocusTracker) (clients : Clients)
      → dispatch seal n now t clients ≡ each_of (posts_of seal n now t) clients
  unfolding dispatch
  dispatch-each t clients = elim (Bool-cases (is_on n.reason || is_off n.reason)) [
    | inl e ↦ rw (valid_reason_lem n.reason, e) (fan_out-each t clients e)
    | inr e ↦ rw (valid_reason_lem n.reason, e) (sym (nothing t clients e))
  ]
