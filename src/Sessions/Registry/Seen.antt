-- ===== src/Sessions/Registry/Seen.antt =====
-- A session that has come to a number: what the operations of the registry leave of that.
use pi_remote.Prelude.{
  ℕ, ◌≤◌, ◌≡◌, refl, subst, inl, inr, String, str_eq, eq_iff, true, false, Option, none, some, List,
  [], ◌∷◌, arith, Map, lookup, insert, string_eq, lookup-insert, Bool-cases, if_rule,
}
use pi_remote.Broker.Ring.{Entry}
use pi_remote.Broker.Lru.{Floats, LruItem}
use pi_remote.Sessions.Channels.{Channels}
use pi_remote.Sessions.Session.{State, Session, Metadata, publish}
use pi_remote.Sessions.Registry.{
  Registry, Encoder, register, put_in, raise_seq, advances, advance_seq, set_state, mark_ended,
  restore_last_seq, keeps_state, pause, pause_all, pause_all_for_machine, with_rings, publish_in,
  publish_to,
}

abbrev pub AtLeast : ℕ → Option Session → Type 0
AtLeast n none = ⊥
AtLeast n (some s) = n ≤ s.last_seq

-- There is a session of that id, and its last number is not below `n`.
abbrev pub Seen : ℕ → String → Map String Session → Type 0
Seen n id m = AtLeast n (lookup id m)

module _ (n : ℕ) (id : String) where
  put-Seen :
      (k : String) (s : Session) (m : Map String Session)
      → (str_eq k id ≡ true → n ≤ s.last_seq)
      → Seen n id m
      → Seen n id (insert k s m)
  put-Seen k s m own h = elim (Bool-cases (str_eq k id)) [
    | inl t ↦ rw (lookup-insert k id s m, t) (own t)
    | inr f ↦ rw (lookup-insert k id s m, f) h
  ]

  put_in-Seen :
      (k : String) (f : Session → Session) (m : Map String Session) (o : Option Session)
      → lookup k m ≡ o
      → ((s : Session) → s.last_seq ≤ (f s).last_seq)
      → Seen n id m
      → Seen n id (put_in k f m o)
  put_in-Seen k f m none l up h = h
  put_in-Seen k f m (some s) l up h =
      put-Seen k (f s) m
        (λ t.
          let same : lookup id m ≡ some s =
            subst (λ j. lookup j m ≡ some s) ((eq_iff k id).0 t) l in
          let old : n ≤ s.last_seq = subst (AtLeast n) same h in omega (arith, up s))
        h

  raised : (x now : ℕ) (s : Session) → s.last_seq ≤ (raise_seq x now s).last_seq
  raised x now s = ground arith

  with_rings-Seen :
      (xs : List LruItem) (m : Map String Session) → Seen n id m → Seen n id (with_rings xs m)
  with_rings-Seen [] m h = h
  with_rings-Seen (x ∷ xs) [] h = h
  with_rings-Seen (x ∷ xs) ((j, s) ∷ m) h = elim (Bool-cases (str_eq j id)) [
    | inl t ↦ rw t (rw t at h)
    | inr f ↦ rw f (with_rings-Seen xs m (rw f at h))
  ]

  pause_all-Seen :
      (enc : Encoder) (machine_id : String) (now : ℕ) (m : Map String Session) (ch : Channels)
      → Seen n id m
      → Seen n id (pause_all enc machine_id now m ch).0
  unfolding pause_all
  pause_all-Seen enc machine_id now [] ch h = h
  pause_all-Seen enc machine_id now ((j, s) ∷ m) ch h = elim (Bool-cases (str_eq j id)) [
    | inl t ↦ rw t (
        if_rule (λ (z : Session). n ≤ z.last_seq) (keeps_state machine_id s) s (pause now s)
          (rw t at h) (rw t at h))
    | inr f ↦ rw f (pause_all-Seen enc machine_id now m _ (rw f at h))
  ]

  module _ (r : Registry) (h : Seen n id r.sessions) where
    pub advance_seq-Seen : (k : String) (x now : ℕ) → Seen n id (advance_seq k x now r).0.sessions
    unfolding advance_seq
    advance_seq-Seen k x now = put_in-Seen k (raise_seq x now) r.sessions _ refl (raised x now) h

    pub restore_last_seq-Seen :
        (k : String) (x now : ℕ) → Seen n id (restore_last_seq k x now r).sessions
    unfolding restore_last_seq
    restore_last_seq-Seen k x now =
        put_in-Seen k (raise_seq x now) r.sessions _ refl (raised x now) h

    pub set_state-Seen :
        (k : String) (state : State) (now : ℕ) → Seen n id (set_state k state now r).sessions
    unfolding set_state
    set_state-Seen k state now = put_in-Seen k _ r.sessions _ refl (λ s. omega arith) h

    pub mark_ended-Seen : (k : String) (now : ℕ) → Seen n id (mark_ended k now r).sessions
    unfolding mark_ended
    mark_ended-Seen k now = put_in-Seen k _ r.sessions _ refl (λ s. omega arith) h

    -- Another session is registered.
    pub register-Seen :
        (k machine_id : String) (metadata : Metadata) (now : ℕ)
        → str_eq k id ≡ false
        → Seen n id (register k machine_id metadata now r).sessions
    unfolding register
    register-Seen k machine_id metadata now other = put-Seen k _ r.sessions (λ t. cc) h

    pub publish_to-Seen :
        (fl : Floats) (k : String) (e : Entry) (now : ℕ) (ch : Channels)
        → Seen n id (publish_to fl k e now (r, ch)).0.sessions
    unfolding publish_to publish
    publish_to-Seen fl k e now ch = go (lookup k r.sessions) refl
      where
        go :
            (o : Option Session)
            → lookup k r.sessions ≡ o
            → Seen n id (publish_in fl k e now (r, ch) o).0.sessions
        go none l = h
        go (some s) l = with_rings-Seen _ _ (
            put-Seen k _ r.sessions
              (λ t.
                subst (AtLeast n) (subst (λ j. lookup j r.sessions ≡ some s) ((eq_iff k id).0 t) l)
                  h)
              h)

    pub pause_all_for_machine-Seen :
        (enc : Encoder) (machine_id : String) (now : ℕ) (ch : Channels)
        → Seen n id (pause_all_for_machine enc machine_id now (r, ch)).0.sessions
    unfolding pause_all_for_machine
    pause_all_for_machine-Seen enc machine_id now ch =
        pause_all-Seen enc machine_id now r.sessions ch h

-- A number that has been seen does not advance its session.
pub Seen-advances : (n : ℕ) (o : Option Session) → AtLeast n o → advances n o ≡ false
Seen-advances n none h = absurd h
Seen-advances n (some s) h = ground arith

-- A known session whose number did not advance, had come to it.
pub known-AtLeast :
    (n : ℕ) (o : Option Session) (s : Session) → o ≡ some s → advances n o ≡ false → AtLeast n o
known-AtLeast n none s l e = cc
known-AtLeast n (some t) s l e = ground arith
