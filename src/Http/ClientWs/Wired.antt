-- ===== src/Http/ClientWs/Wired.antt =====
-- An invariant of all connections of the apps, whatever these, the daemons and the network do.
use Prim.Native.Nat.{◌^◌}
use pi_remote.Prelude.{
  ℕ, ◌+◌, ◌≤◌, ◌<◌, ◌≡◌, refl, sym, ap, subst, ◌∙◌, inl, inr, arith, String, str_eq, eq_iff, true,
  false, Option, none, some, Map, lookup, insert, delete, string_eq, lookup-insert, lookup-delete,
  Bool-cases,
}
use native.Mathlib.Nat.{mod-eq_of_lt}
use mathlib.Core.Option.{some-injective}
use pi_remote.Sessions.Session.{Session}
use pi_remote.Sessions.Registry.Attached.{AllAttached}
use pi_remote.Http.ConnId.{conn_id, conn_id-injective}
use pi_remote.Http.ClientWs.{AppConn, Hub, sessions_of, detach_attached}
use pi_remote.Http.ClientWs.Attached.{Follows, FollowsBut, detach-FollowsBut}
use pi_remote.Http.ClientWs.Serve.{admit, on_close}

-- The id of an open connection is made of its client and a number that was counted.
abbrev pub Named : ℕ → Map String AppConn → Type 0
Named count conns =
    (id : String) (c : AppConn)
    → lookup id conns ≡ some c
    → (n : ℕ) × (n ≤ count) × (id ≡ conn_id c.client_id n)

-- Each open connection has an id of its own, and every connection that a session sends its frames
-- to is open and attached, by its own loop's account, to that session and to no other. `limit`
-- bounds the number of connections so far.
pub record IsWired (limit : ℕ) (h : Hub) : Type 0 where
  pub counted : h.count ≤ limit
  pub named : Named h.count h.conns
  pub held : AllAttached (Follows h.conns) (sessions_of h)

none_found : {A : Type 0} {a : A} {o : Option A} → o ≡ none → o ≡ some a → ⊥
none_found e f = cc

insert-Named :
    (count : ℕ) (conns : Map String AppConn) (id : String) (c : AppConn)
    → (n : ℕ) × (n ≤ count) × (id ≡ conn_id c.client_id n)
    → Named count conns
    → Named count (insert id c conns)
insert-Named count conns id c (n, le, is_id) named j d l = elim (Bool-cases (str_eq id j)) [
  | inl t ↦
      let found : lookup j (insert id c conns) ≡ some c = lookup-insert id j c conns ∙ rw t in
      let same : c ≡ d = some-injective _ _ (sym found ∙ l) in
      (n, le, sym ((eq_iff id j).0 t) ∙ (is_id ∙ ap (λ (z : AppConn). conn_id z.client_id n) same))
  | inr f ↦
      let found : lookup j (insert id c conns) ≡ lookup j conns =
        lookup-insert id j c conns ∙ rw f in
      named j d (sym found ∙ l)
]

-- Connections change only at `id`, which nothing follows.
moved :
    (id : String) (conns conns' : Map String AppConn) (m : Map String Session)
    → ((j : String) → str_eq id j ≡ false → lookup j conns' ≡ lookup j conns)
    → AllAttached (FollowsBut id conns) m
    → AllAttached (Follows conns') m
moved id conns conns' m same all k s e j conn at =
    let (other, follower) = all k s e j conn at in
    let (c, l, has) = follower in (c, same j other ∙ l, has)

-- A connection that is counted has an id that no open one has.
new_id :
    (count : ℕ) (conns : Map String AppConn) (client_id id : String) (c : AppConn)
    → Named count conns
    → lookup id conns ≡ some c
    → str_eq (conn_id client_id (count + 1)) id ≡ false
new_id count conns client_id id c named l =
    elim (Bool-cases (str_eq (conn_id client_id (count + 1)) id)) [
      | inr f ↦ f
      | inl t ↦
          let (n, le, is_id) = named id c l in
          let same = (eq_iff _ id).0 t in
          let clash = conn_id-injective client_id c.client_id (count + 1) n (same ∙ is_id) in
          absurd (omega arith)
    ]

pub admit-IsWired :
    (limit : ℕ) (client_id : String) (h : Hub)
    → limit + 1 < 2 ^ 64
    → IsWired limit h
    → IsWired (limit + 1) (admit client_id h)
unfolding admit
admit-IsWired limit client_id h small v =
    let below : h.count + 1 < 2 ^ 64 = omega (arith, v.counted) in
    rw (mod-eq_of_lt below) (record {
      counted = omega (arith, v.counted);
      named =
          insert-Named (h.count + 1) h.conns new conn (h.count + 1, omega arith, refl)
            (λ j d l. let (n, le, is_id) = v.named j d l in (n, omega arith, is_id));
      held =
          moved new h.conns (insert new conn h.conns) _
            (λ j f. lookup-insert new j conn h.conns ∙ rw f)
            (λ k s e j cc at.
              let (c, l, has) = v.held k s e j cc at in
              (new_id h.count h.conns client_id j c v.named l, (c, l, has)));
    })
  where
    new : String
    new = conn_id client_id (h.count + 1)

    conn : AppConn
    conn = record { client_id = client_id; attached = none; writing = true }

module _ (limit : ℕ) (id : String) (c : AppConn) (now : ℕ) (h : Hub)
    (open_conn : lookup id h.conns ≡ some c) (v : IsWired limit h) where
  -- What `detach_attached` leaves to follow.
  pub detached :
      AllAttached (FollowsBut id h.conns) (sessions_of (detach_attached id now c.attached h))
  unfolding detach_attached
  detached = detach-FollowsBut id c h.conns open_conn now (sessions_of h) v.held

  pub on_close-IsWired : IsWired limit (on_close id c now h)
  unfolding on_close detach_attached
  on_close-IsWired = record {
    counted = v.counted;
    named = λ j d e. elim (Bool-cases (str_eq id j)) [
      | inl t ↦ absurd (none_found (lookup-delete id j h.conns ∙ rw t) e)
      | inr f ↦
          let old : lookup j (delete id h.conns) ≡ lookup j h.conns =
            lookup-delete id j h.conns ∙ rw f in
          v.named j d (sym old ∙ e)
    ];
    held =
        moved id h.conns (delete id h.conns) _ (λ j f. lookup-delete id j h.conns ∙ rw f) detached;
  }

  -- The loop of the connection gets another state, of the same client.
  pub own_state : (d : AppConn) → d.client_id ≡ c.client_id → Named h.count (insert id d h.conns)
  own_state d same =
      let (n, le, is_id) = v.named id c open_conn in
      insert-Named h.count h.conns id d (n, le, rw same is_id) v.named

  pub moved_to :
      (d : AppConn) (m : Map String Session)
      → AllAttached (FollowsBut id h.conns) m
      → AllAttached (Follows (insert id d h.conns)) m
  moved_to d m = moved id h.conns _ m (λ j f. lookup-insert id j d h.conns ∙ rw f)

  -- The connection is added to the one session that its loop now has.
  pub attached_clients-Follows :
      (k : String) (d : AppConn) (s : Session) (m : Map String Session)
      → d.attached ≡ some k
      → lookup k m ≡ some s
      → AllAttached (FollowsBut id h.conns) m
      → Follows (insert id d h.conns) k (insert id (record { id = id }) s.attached_clients)
  attached_clients-Follows k d s m has l all j conn at = elim (Bool-cases (str_eq id j)) [
    | inl t ↦ (d, lookup-insert id j d h.conns ∙ rw t, has)
    | inr f ↦
        let found : lookup j (insert id (record { id = id }) s.attached_clients)
            ≡ lookup j s.attached_clients =
          lookup-insert id j (record { id = id }) s.attached_clients ∙ rw f in
        moved_to d m all k s l j conn (sym found ∙ at)
  ]

  -- The loop keeps its session.
  pub kept_session :
      (d : AppConn) (m : Map String Session)
      → d.attached ≡ c.attached
      → AllAttached (Follows h.conns) m
      → AllAttached (Follows (insert id d h.conns)) m
  kept_session d m same all k s e j conn at =
      let (c', l, has) = all k s e j conn at in
      elim (Bool-cases (str_eq id j)) [
        | inl t ↦
            let here = subst (λ i. lookup i h.conns ≡ some c') (sym ((eq_iff id j).0 t)) l in
            let is_c = some-injective _ _ (sym open_conn ∙ here) in
            (
              d,
              lookup-insert id j d h.conns ∙ rw t,
              same ∙ (ap (λ (z : AppConn). z.attached) is_c ∙ has),
            )
        | inr f ↦ (c', (lookup-insert id j d h.conns ∙ rw f) ∙ l, has)
      ]
