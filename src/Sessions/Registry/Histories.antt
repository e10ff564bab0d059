-- ===== src/Sessions/Registry/Histories.antt =====
-- The rings of all sessions against the histories of what was published to them.
use pi_remote.Prelude.{
  ℕ, ◌+◌, ◌^◌, ◌≤◌, ◌<◌, ◌≡◌, refl, sym, ap, subst, ◌∙◌, inl, inr, String, str_eq, eq_iff, Bool,
  true, false, Option, none, some, List, [], ◌∷◌, ◌++◌, arith, ltb, if◌then◌else◌, Map, lookup,
  insert, string_eq, lookup-insert, lookup-insert_self, lt→ltb, Bool-cases, ltb→lt,
}
use mathlib.Core.Option.{some-injective}
use pi_remote.Broker.Ring.{Entry}
use pi_remote.Broker.Ring.History.{
  Tracks, last_seq, append-Tracks, new_ring_buffer-Tracks, last_seq-append,
}
use pi_remote.Broker.Lru.{Floats, LruItem}
use pi_remote.Broker.Lru.Kept.{KeptAll, balance_global_lru-KeptAll}
use pi_remote.Sessions.Channels.{Channels}
use pi_remote.Sessions.Session.{State, Metadata, Session, publish}
use pi_remote.Sessions.Registry.{
  Registry, register, put_in, raise_seq, advances, advance_seq, set_state, mark_ended,
  restore_last_seq, lru_items, with_rings, publish_to, initial_ring_max_bytes,
}

-- The session's ring tracks the history `h`, and no entry of `h` is numbered above `LastSeq`.
pub record IsTracked (h : List Entry) (s : Session) : Type 0 where
  pub tracks : Tracks s.ring h
  pub seen : last_seq 0 h ≤ s.last_seq

-- Each session of the map has its history.
abbrev pub AllTracked : (String → List Entry) → Map String Session → Type 0
AllTracked hist m = (id : String) (s : Session) → lookup id m ≡ some s → IsTracked (hist id) s

-- The history of one session is replaced.
abbrev pub set_history : String → List Entry → (String → List Entry) → String → List Entry
set_history k h hist id = if str_eq k id then h else hist id

put_case :
    (b : Bool) (s s' : Session) (o : Option Session) (h g : List Entry)
    → (if b then some s else o) ≡ some s'
    → IsTracked h s
    → (o ≡ some s' → IsTracked g s')
    → IsTracked (if b then h else g) s'
put_case true s s' o h g e t old = subst (IsTracked h) (some-injective _ _ e) t
put_case false s s' o h g e t old = old e

-- A session that is put under `k` with history `h` leaves the others as they were.
put-AllTracked :
    (k : String) (s : Session) (h : List Entry) (hist : String → List Entry)
    (m : Map String Session)
    → AllTracked hist m
    → IsTracked h s
    → AllTracked (set_history k h hist) (insert k s m)
put-AllTracked k s h hist m all t id s' e =
    put_case (str_eq k id) s s' (lookup id m) h (hist id) (sym (lookup-insert k id s m) ∙ e) t
      (all id s')

own_history :
    (k id : String) (hist : String → List Entry) → set_history k (hist k) hist id ≡ hist id
own_history k id hist = elim (Bool-cases (str_eq k id)) [
  | inl t ↦ rw t (ap hist ((eq_iff k id).0 t))
  | inr f ↦ rw f
]

-- A change of a session that keeps its ring, and does not lower `LastSeq`, keeps all histories.
put_in-AllTracked :
    (k : String) (f : Session → Session) (hist : String → List Entry) (m : Map String Session)
    (o : Option Session)
    → lookup k m ≡ o
    → ((h : List Entry) (s : Session) → IsTracked h s → IsTracked h (f s))
    → AllTracked hist m
    → AllTracked hist (put_in k f m o)
put_in-AllTracked k f hist m none l keep all id s' e = all id s' e
put_in-AllTracked k f hist m (some s) l keep all id s' e =
    subst (λ h. IsTracked h s') (own_history k id hist)
      (put-AllTracked k (f s) (hist k) hist m all (keep (hist k) s (all k s l)) id s' e)

raise_seq-IsTracked :
    (n now : ℕ) (h : List Entry) (s : Session) → IsTracked h s → IsTracked h (raise_seq n now s)
raise_seq-IsTracked n now h s t = elim (Bool-cases (ltb s.last_seq n)) [
  | inl e ↦ rw e (record { tracks = t.tracks; seen = omega (arith, t.seen, ltb→lt _ _ e) })
  | inr e ↦ rw e t
]

put_in_known :
    (k : String) (f : Session → Session) (m : Map String Session) (o : Option Session) (s : Session)
    → o ≡ some s
    → lookup k (put_in k f m o) ≡ some (f s)
put_in_known k f m none s e = cc
put_in_known k f m (some t) s e =
    lookup-insert_self k (f t) m ∙ ap (λ x. some (f x)) (some-injective _ _ e)

pub advance_seq_flag :
    (k : String) (n now : ℕ) (r : Registry)
    → (advance_seq k n now r).1 ≡ advances n (lookup k r.sessions)
unfolding advance_seq
advance_seq_flag k n now r = refl

-- A number that advances is the session's `LastSeq` afterwards.
pub advance_seq_known :
    (k : String) (n now : ℕ) (r : Registry) (s : Session)
    → lookup k r.sessions ≡ some s
    → s.last_seq < n
    → (s' : Session) × (lookup k (advance_seq k n now r).0.sessions ≡ some s') × (s'.last_seq ≡ n)
unfolding advance_seq
advance_seq_known k n now r s l lt =
    (raise_seq n now s, put_in_known k (raise_seq n now) r.sessions _ s l, rw (lt→ltb _ _ lt))

-- A session in the map behind a balance: it was there before, and its ring tracks what it tracked.
pub with_rings-lookup :
    (xs : List LruItem) (m : Map String Session) (id : String) (s' : Session)
    → KeptAll (lru_items m) xs
    → lookup id (with_rings xs m) ≡ some s'
    → (s : Session) × (lookup id m ≡ some s)
      × (s'.last_seq ≡ s.last_seq)
      × ((h : List Entry) → Tracks s.ring h → Tracks s'.ring h)
with_rings-lookup [] m id s' k e = (s', e, refl, λ h t. t)
with_rings-lookup (x ∷ xs) [] id s' k e = cc
with_rings-lookup (x ∷ xs) ((j, s) ∷ m) id s' k e = elim (Bool-cases (str_eq j id)) [
  | inl t ↦
      let same : record s { ring = x.ring } ≡ s' = some-injective _ _ (rw t at e) in
      (
        s,
        rw t,
        ap (λ (z : Session). z.last_seq) (sym same),
        λ h tr. subst (λ (z : Session). Tracks z.ring h) same (k.0.history h tr),
      )
  | inr f ↦
      let (s₀, l, seq, hs) = with_rings-lookup xs m id s' k.1 (rw f at e) in (s₀, rw f l, seq, hs)
]

with_rings-AllTracked :
    (xs : List LruItem) (m : Map String Session) (hist : String → List Entry)
    → KeptAll (lru_items m) xs
    → AllTracked hist m
    → AllTracked hist (with_rings xs m)
with_rings-AllTracked xs m hist k all id s' e =
    let (s, l, seq, hs) = with_rings-lookup xs m id s' k e in
    let t = all id s l in
    record { tracks = hs (hist id) t.tracks; seen = omega (arith, t.seen, seq) }

module _ (hist : String → List Entry) (r : Registry) (all : AllTracked hist r.sessions) where
  pub advance_seq-AllTracked :
      (id : String) (n now : ℕ) → AllTracked hist (advance_seq id n now r).0.sessions
  unfolding advance_seq
  advance_seq-AllTracked id n now =
      put_in-AllTracked id (raise_seq n now) hist r.sessions _ refl (raise_seq-IsTracked n now) all

  pub restore_last_seq-AllTracked :
      (id : String) (n now : ℕ) → AllTracked hist (restore_last_seq id n now r).sessions
  unfolding restore_last_seq
  restore_last_seq-AllTracked id n now =
      put_in-AllTracked id (raise_seq n now) hist r.sessions _ refl (raise_seq-IsTracked n now) all

  pub set_state-AllTracked :
      (id : String) (state : State) (now : ℕ) → AllTracked hist (set_state id state now r).sessions
  unfolding set_state
  set_state-AllTracked id state now =
      put_in-AllTracked id _ hist r.sessions _ refl
        (λ h s t. record { tracks = t.tracks; seen = t.seen }) all

  pub mark_ended-AllTracked :
      (id : String) (now : ℕ) → AllTracked hist (mark_ended id now r).sessions
  unfolding mark_ended
  mark_ended-AllTracked id now =
      put_in-AllTracked id _ hist r.sessions _ refl
        (λ h s t. record { tracks = t.tracks; seen = t.seen }) all

  -- A session that is registered anew begins with an empty history.
  pub register-AllTracked :
      (id machine_id : String) (metadata : Metadata) (now : ℕ)
      → AllTracked (set_history id [] hist) (register id machine_id metadata now r).sessions
  unfolding register
  register-AllTracked id machine_id metadata now =
      put-AllTracked id _ [] hist r.sessions all (record {
        tracks = new_ring_buffer-Tracks (initial_ring_max_bytes r) now;
        seen = omega arith;
      })

  -- `Publish` to a known session extends its history by the entry, and keeps the other histories,
  -- balance included, if the entry is numbered above the history and at most `LastSeq`.
  pub publish_to-AllTracked :
      (fl : Floats) (id : String) (e : Entry) (now : ℕ) (ch : Channels) (s : Session)
      → lookup id r.sessions ≡ some s
      → last_seq 0 (hist id) < e.seq
      → e.seq ≤ s.last_seq
      → e.seq + 1 < 2 ^ 64
      → AllTracked
          (set_history id (hist id ++ e ∷ []) hist)
          (publish_to fl id e now (r, ch)).0.sessions
  unfolding publish_to publish
  publish_to-AllTracked fl id e now ch s l above below small = rw l (
      with_rings-AllTracked _ _ _
        (balance_global_lru-KeptAll fl _ id r.total_cache_bytes r.session_cache_floor_bytes)
        (put-AllTracked id _ (hist id ++ e ∷ []) hist r.sessions all (record {
          tracks = append-Tracks e now s.ring (hist id) (all id s l).tracks above small;
          seen = omega (arith, below, last_seq-append 0 (hist id) e);
        })))
