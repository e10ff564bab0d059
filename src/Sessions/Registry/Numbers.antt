-- ===== src/Sessions/Registry/Numbers.antt =====
-- The sequence numbers that `AdvanceSeq` lets through.
use pi_remote.Prelude.{
  ℕ, ◌<◌, ◌≡◌, refl, ap, subst, inl, inr, String, str_eq, eq_iff, true, false, Option, none, some,
  [], ◌∷◌, Map, lookup, insert, string_eq, Bool-cases, ltb→lt,
}
use mathlib.Core.Option.{some-injective}
use pi_remote.Sessions.Session.{Session}
use pi_remote.Sessions.Registry.{Registry, raise_seq, put_in, advances, advance_seq}

-- A known session that is put back changes nothing.
insert_known :
    (k : String) (s : Session) (m : Map String Session) → lookup k m ≡ some s → insert k s m ≡ m
insert_known k s [] e = cc
insert_known k s ((j, t) ∷ m) e = elim (Bool-cases (str_eq j k)) [
  | inl same ↦
      let eq = (eq_iff j k).0 same in
      let v = some-injective _ _ (rw same at e) in
      rw same (ap (λ (p : String × Session). p ∷ m) (rw (eq, v)))
  | inr f ↦ rw f (ap ((j, t) ∷◌) (insert_known k s m (rw f at e)))
]

put_in_same :
    (k : String) (f : Session → Session) (m : Map String Session) (o : Option Session)
    → lookup k m ≡ o
    → ((s : Session) → o ≡ some s → f s ≡ s)
    → put_in k f m o ≡ m
put_in_same k f m none l h = refl
put_in_same k f m (some s) l h = rw (h s refl) (insert_known k s m l)

stale_raise :
    (n now : ℕ) (o : Option Session) (s : Session)
    → advances n o ≡ false
    → o ≡ some s
    → raise_seq n now s ≡ s
stale_raise n now none s e l = cc
stale_raise n now (some t) s e l =
    subst (λ (z : Session). raise_seq n now z ≡ z) (some-injective _ _ l) (rw e)

-- A number that does not advance its session leaves the registry as it was.
pub advance_seq_stale :
    (k : String) (n now : ℕ) (r : Registry)
    → advances n (lookup k r.sessions) ≡ false
    → advance_seq k n now r ≡ (r, false)
unfolding advance_seq
advance_seq_stale k n now r e =
    let same =
      put_in_same k (raise_seq n now) r.sessions (lookup k r.sessions) refl
        λ s l. stale_raise n now _ s e l in
    rw (same, e)

-- A number that advances has a known session, with a lower number.
pub advances_known :
    (n : ℕ) (o : Option Session)
    → advances n o ≡ true
    → (s : Session) × (o ≡ some s) × (s.last_seq < n)
advances_known n none e = cc
advances_known n (some s) e = (s, refl, ltb→lt _ _ e)
