-- ===== src/Http/ClientWs/Attached.antt =====
-- Which connections are attached to which sessions: the sessions' side, `AttachedClients`, against
-- the loops' side, `attachedSession` of pi-remote-coordinator/internal/http/client_ws.go.
use pi_remote.Prelude.{
  ℕ, ◌≡◌, refl, sym, ap, subst, ◌∙◌, inl, inr, String, str_eq, eq_iff, true, false, Option, none,
  some, Map, lookup, insert, delete, string_eq, lookup-insert, lookup-delete, Bool-cases,
}
use mathlib.Core.Option.{some-injective}
use pi_remote.Sessions.Channels.{ClientConn}
use pi_remote.Sessions.Session.{Session, detach}
use pi_remote.Sessions.Registry.Attached.{AllAttached}
use pi_remote.Http.ClientWs.{AppConn, detach_found, detach_at, detach_in}

-- The connection is open, and its loop has the session.
abbrev pub Follower : Map String AppConn → String → String → Type 0
Follower conns k id = (c : AppConn) × (lookup id conns ≡ some c) × (c.attached ≡ some k)

-- Every connection of a session's `AttachedClients` follows it.
abbrev pub Follows : Map String AppConn → String → Map String ClientConn → Type 0
Follows conns k clients =
    (id : String) (cc : ClientConn) → lookup id clients ≡ some cc → Follower conns k id

-- So does every one, and none of them is `id`.
abbrev pub FollowsBut : String → Map String AppConn → String → Map String ClientConn → Type 0
FollowsBut id conns k clients =
    (id' : String) (cc : ClientConn)
    → lookup id' clients ≡ some cc
    → (str_eq id id' ≡ false) × Follower conns k id'

none_found : {A : Type 0} {a : A} {o : Option A} → o ≡ none → o ≡ some a → ⊥
none_found e f = cc

module _ (id : String) (c : AppConn) (conns : Map String AppConn)
    (open_conn : lookup id conns ≡ some c) where
  -- A connection follows one session at most: the one that its loop has.
  follows_one :
      (k : String) (id' : String)
      → Follower conns k id'
      → str_eq id id' ≡ true
      → c.attached ≡ some k
  follows_one k id' (c', l, at) t =
      let here = subst (λ j. lookup j conns ≡ some c') (sym ((eq_iff id id').0 t)) l in
      ap (λ (z : AppConn). z.attached) (some-injective _ _ (sym open_conn ∙ here)) ∙ at

  -- A session that the loop does not have.
  but_here :
      (k : String) (clients : Map String ClientConn)
      → Follows conns k clients
      → (c.attached ≡ some k → lookup id clients ≡ none)
      → FollowsBut id conns k clients
  but_here k clients follows away id' cc e = elim (Bool-cases (str_eq id id')) [
    | inl t ↦
        let f = follows id' cc e in
        let gone = away (follows_one k id' f t) in
        absurd (none_found (subst (λ j. lookup j clients ≡ none) ((eq_iff id id').0 t) gone) e)
    | inr f ↦ (f, follows id' cc e)
  ]

  deleted :
      (k : String) (clients : Map String ClientConn)
      → Follows conns k clients
      → FollowsBut id conns k (delete id clients)
  deleted k clients follows id' cc e = elim (Bool-cases (str_eq id id')) [
    | inl t ↦ absurd (none_found (lookup-delete id id' clients ∙ rw t) e)
    | inr f ↦ (f, follows id' cc (sym (lookup-delete id id' clients ∙ rw f) ∙ e))
  ]

  -- `Detach` on the session that the loop has takes the connection out of every session.
  module _ (now : ℕ) (m : Map String Session) (all : AllAttached (Follows conns) m) where
    -- The loop has another session.
    other_session :
        (j k : String) (s : Session)
        → c.attached ≡ some j
        → str_eq j k ≡ false
        → lookup k m ≡ some s
        → FollowsBut id conns k s.attached_clients
    other_session j k s has f e =
        but_here k s.attached_clients (all k s e)
          λ at. cc ((eq_iff j k).1 (some-injective _ _ (sym has ∙ at)), f)

    detach_found-FollowsBut :
        (j : String) (s : Session) (o : Option ClientConn)
        → c.attached ≡ some j
        → lookup j m ≡ some s
        → lookup id s.attached_clients ≡ o
        → AllAttached (FollowsBut id conns) (detach_found id now j s m o)
    unfolding detach
    detach_found-FollowsBut j s none has l away k s' e = elim (Bool-cases (str_eq j k)) [
      | inl t ↦
          let found = subst (λ i. lookup i m ≡ some s) ((eq_iff j k).0 t) l in
          but_here k s'.attached_clients (all k s' e) λ at.
            subst (λ (z : Session). lookup id z.attached_clients ≡ none)
              (some-injective _ _ (sym found ∙ e)) away
      | inr f ↦ other_session j k s' has f e
    ]
    detach_found-FollowsBut j s (some held) has l at k s' e = elim (Bool-cases (str_eq j k)) [
      | inl t ↦
          let found : lookup k (insert j (detach id now s) m) ≡ some (detach id now s) =
            lookup-insert j k (detach id now s) m ∙ rw t in
          subst (λ (z : Session). FollowsBut id conns k z.attached_clients)
            (some-injective _ _ (sym found ∙ e))
            (deleted k s.attached_clients
              (all k s (subst (λ i. lookup i m ≡ some s) ((eq_iff j k).0 t) l)))
      | inr f ↦
          let found : lookup k (insert j (detach id now s) m) ≡ lookup k m =
            lookup-insert j k (detach id now s) m ∙ rw f in
          other_session j k s' has f (sym found ∙ e)
    ]

    detach_at-FollowsBut :
        (j : String) (o : Option Session)
        → c.attached ≡ some j
        → lookup j m ≡ o
        → AllAttached (FollowsBut id conns) (detach_at id now j m o)
    detach_at-FollowsBut j (some s) has l k s' e =
        detach_found-FollowsBut j s (lookup id s.attached_clients) has l refl k s' e
    detach_at-FollowsBut j none has l k s e = elim (Bool-cases (str_eq j k)) [
      | inl t ↦ absurd (none_found (subst (λ i. lookup i m ≡ none) ((eq_iff j k).0 t) l) e)
      | inr f ↦ other_session j k s has f e
    ]

    detach_in-FollowsBut :
        (o : Option String)
        → c.attached ≡ o
        → AllAttached (FollowsBut id conns) (detach_in id now m o)
    detach_in-FollowsBut none has k s e = but_here k s.attached_clients (all k s e) λ at. cc
    detach_in-FollowsBut (some j) has k s e = detach_at-FollowsBut j (lookup j m) has refl k s e

    pub detach-FollowsBut : AllAttached (FollowsBut id conns) (detach_in id now m c.attached)
    detach-FollowsBut = detach_in-FollowsBut c.attached refl
