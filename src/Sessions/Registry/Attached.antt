-- ===== src/Sessions/Registry/Attached.antt =====
-- The connections that are attached to the sessions, whatever the daemons' frames do to the
-- sessions.
use pi_remote.Prelude.{
  ℕ, arith, ◌≡◌, refl, sym, ap, subst, ◌∙◌, inl, inr, String, str_eq, eq_iff, Bool, true, false,
  Option, none, some, List, [], ◌∷◌, if◌then◌else◌, Map, lookup, insert, string_eq, lookup-insert,
  Bool-cases, if_rule,
}
use mathlib.Core.Option.{some-injective}
use pi_remote.Broker.Ring.{Entry}
use pi_remote.Broker.Lru.{Floats, LruItem}
use pi_remote.Sessions.Channels.{Channels, ClientConn}
use pi_remote.Sessions.Session.{State, Metadata, Session, publish}
use pi_remote.Sessions.Registry.{
  Registry, Encoder, register, put_in, raise_seq, advance_seq, set_state, mark_ended,
  restore_last_seq, with_rings, publish_to, publish_in, pause_all, pause, keeps_state,
  pause_all_for_machine,
}

-- `P` holds of each session's id and attached connections.
abbrev pub AllAttached : (String → Map String ClientConn → Type 0) → Map String Session → Type 0
AllAttached P m = (k : String) (s : Session) → lookup k m ≡ some s → P k s.attached_clients

module _ (P : String → Map String ClientConn → Type 0) where
  put_case :
      (b : Bool) (j : String) (s s' : Session) (o : Option Session)
      → (if b then some s else o) ≡ some s'
      → (b ≡ true → P j s.attached_clients)
      → (o ≡ some s' → P j s'.attached_clients)
      → P j s'.attached_clients
  put_case true j s s' o e new old =
      subst (λ (z : Session). P j z.attached_clients) (some-injective _ _ e) (new refl)
  put_case false j s s' o e new old = old e

  pub insert-AllAttached :
      (k : String) (s : Session) (m : Map String Session)
      → AllAttached P m
      → P k s.attached_clients
      → AllAttached P (insert k s m)
  insert-AllAttached k s m all p j s' e =
      put_case (str_eq k j) j s s' (lookup j m) (sym (lookup-insert k j s m) ∙ e)
        (λ t. subst (λ i. P i s.attached_clients) ((eq_iff k j).0 t) p) (all j s')

  put_in-AllAttached :
      (k : String) (f : Session → Session) (m : Map String Session) (o : Option Session)
      → lookup k m ≡ o
      → ((s : Session) → (f s).attached_clients ≡ s.attached_clients)
      → AllAttached P m
      → AllAttached P (put_in k f m o)
  put_in-AllAttached k f m none l keep all = all
  put_in-AllAttached k f m (some s) l keep all =
      insert-AllAttached k (f s) m all (subst (P k) (sym (keep s)) (all k s l))

  with_rings-lookup :
      (xs : List LruItem) (m : Map String Session) (k : String) (s' : Session)
      → lookup k (with_rings xs m) ≡ some s'
      → (s : Session) × (lookup k m ≡ some s) × (s'.attached_clients ≡ s.attached_clients)
  with_rings-lookup [] m k s' e = (s', e, refl)
  with_rings-lookup (x ∷ xs) [] k s' e = cc
  with_rings-lookup (x ∷ xs) ((j, s) ∷ m) k s' e = elim (Bool-cases (str_eq j k)) [
    | inl t ↦
        let same : record s { ring = x.ring } ≡ s' = some-injective _ _ (rw t at e) in
        (s, rw t, ap (λ (z : Session). z.attached_clients) (sym same))
    | inr f ↦ let (s₀, l, at) = with_rings-lookup xs m k s' (rw f at e) in (s₀, rw f l, at)
  ]

  pause_all-lookup :
      (enc : Encoder) (machine_id : String) (now : ℕ) (m : Map String Session) (ch : Channels)
      (k : String) (s' : Session)
      → lookup k (pause_all enc machine_id now m ch).0 ≡ some s'
      → (s : Session) × (lookup k m ≡ some s) × (s'.attached_clients ≡ s.attached_clients)
  unfolding pause_all
  pause_all-lookup enc machine_id now [] ch k s' e = cc
  pause_all-lookup enc machine_id now ((j, s) ∷ m) ch k s' e = elim (Bool-cases (str_eq j k)) [
    | inl t ↦ (
      s,
      rw t,
      sym (ap (λ (z : Session). z.attached_clients) (some-injective _ _ (rw t at e)))
          ∙ if_rule (λ (z : Session). z.attached_clients ≡ s.attached_clients)
              (keeps_state machine_id s) s (pause now s) refl refl,
    )
    | inr f ↦
        let (s₀, l, at) = pause_all-lookup enc machine_id now m _ k s' (rw f at e) in
        (s₀, rw f l, at)
  ]

  module _ (empty : (k : String) → P k []) (r : Registry) (all : AllAttached P r.sessions) where
    pub advance_seq-AllAttached :
        (id : String) (n now : ℕ) → AllAttached P (advance_seq id n now r).0.sessions
    unfolding advance_seq
    advance_seq-AllAttached id n now =
        put_in-AllAttached id (raise_seq n now) r.sessions _ refl (λ s. ground arith) all

    pub restore_last_seq-AllAttached :
        (id : String) (n now : ℕ) → AllAttached P (restore_last_seq id n now r).sessions
    unfolding restore_last_seq
    restore_last_seq-AllAttached id n now =
        put_in-AllAttached id (raise_seq n now) r.sessions _ refl (λ s. ground arith) all

    pub set_state-AllAttached :
        (id : String) (state : State) (now : ℕ) → AllAttached P (set_state id state now r).sessions
    unfolding set_state
    set_state-AllAttached id state now = put_in-AllAttached id _ r.sessions _ refl (λ s. refl) all

    pub mark_ended-AllAttached :
        (id : String) (now : ℕ) → AllAttached P (mark_ended id now r).sessions
    unfolding mark_ended
    mark_ended-AllAttached id now = put_in-AllAttached id _ r.sessions _ refl (λ s. refl) all

    pub register-AllAttached :
        (id machine_id : String) (metadata : Metadata) (now : ℕ)
        → AllAttached P (register id machine_id metadata now r).sessions
    unfolding register
    register-AllAttached id machine_id metadata now =
        insert-AllAttached id _ r.sessions all (empty id)

    pub publish_to-AllAttached :
        (fl : Floats) (id : String) (e : Entry) (now : ℕ) (ch : Channels)
        → AllAttached P (publish_to fl id e now (r, ch)).0.sessions
    unfolding publish_to publish
    publish_to-AllAttached fl id e now ch = go (lookup id r.sessions) refl
      where
        go :
            (o : Option Session)
            → lookup id r.sessions ≡ o
            → AllAttached P (publish_in fl id e now (r, ch) o).0.sessions
        go none l k s' found = all k s' found
        go (some s) l k s' found =
            let (s₀, known, at) = with_rings-lookup _ _ k s' found in
            subst (P k) (sym at) (insert-AllAttached id _ r.sessions all (all id s l) k s₀ known)

    pub pause_all_for_machine-AllAttached :
        (enc : Encoder) (machine_id : String) (now : ℕ) (ch : Channels)
        → AllAttached P (pause_all_for_machine enc machine_id now (r, ch)).0.sessions
    unfolding pause_all_for_machine
    pause_all_for_machine-AllAttached enc machine_id now ch k s' e =
        let (s, l, at) = pause_all-lookup enc machine_id now r.sessions ch k s' e in
        subst (P k) (sym at) (all k s l)
