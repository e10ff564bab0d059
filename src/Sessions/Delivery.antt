-- ===== src/Sessions/Delivery.antt =====
-- Which frames reach the queue of one connection.
use pi_remote.Prelude.{
  ◌≡◌, refl, ap, subst, ◌∙◌, inl, inr, String, str_eq, eq_iff, Bool, true, false, Option, none,
  some, List, [], ◌∷◌, arith, if◌then◌else◌, Map, lookup, insert, delete, string_eq, lookup-insert,
  lookup-delete, if_rule, map, Bool-cases,
}
use pi_remote.Sessions.Channels.{Bytes, Channels, ClientConn, enqueue, send, lookup-send}
use pi_remote.Sessions.Session.{fan_out}

-- Every connection is attached under its own id, and under that id once.
abbrev pub IsKeyed : Map String ClientConn → Type 0
IsKeyed [] = Unit {0}
IsKeyed ((k, c) ∷ m) = (c.id ≡ k) × (lookup k m ≡ none) × IsKeyed m

abbrev clients_of : Map String ClientConn → List ClientConn
clients_of = map λ (entry : String × ClientConn). entry.1

-- What a fan-out does to the queue of a connection, by what the map holds under its id.
abbrev pub received : Option ClientConn → Bytes → List Bytes → List Bytes
received none raw q = q
received (some _) raw q = enqueue raw q

pub send_at :
    (c : ClientConn) (raw : Bytes) (ch : Channels) (k : String) (q : List Bytes) (b : Bool)
    → lookup k ch ≡ some q
    → str_eq c.id k ≡ b
    → lookup k (send c raw ch) ≡ some (if b then enqueue raw q else q)
send_at c raw ch k q b h e =
    lookup-send c raw ch k q h ∙ ap (λ (x : Bool). some (if x then enqueue raw q else q)) e

-- A frame reaches the queue of each attached connection once, and no other queue.
pub lookup-fan_out :
    (m : Map String ClientConn) (raw : Bytes) (ch : Channels) (k : String) (q : List Bytes)
    → IsKeyed m
    → lookup k ch ≡ some q
    → lookup k (fan_out (clients_of m) raw ch) ≡ some (received (lookup k m) raw q)
unfolding fan_out
lookup-fan_out [] raw ch k q keyed h = h
lookup-fan_out ((j, c) ∷ m) raw ch k q (same, fresh, keyed) h =
    let id = ap (λ i. str_eq i k) same in
    elim (Bool-cases (str_eq j k)) [
      | inl t ↦
          lookup-fan_out m raw (send c raw ch) k (enqueue raw q) keyed
            (send_at c raw ch k q true h (id ∙ t))
          ∙ rw (t, subst (λ i. lookup i m ≡ none) ((eq_iff j k).0 t) fresh)
      | inr f ↦
          lookup-fan_out m raw (send c raw ch) k q keyed (send_at c raw ch k q false h (id ∙ f))
          ∙ rw f
    ]

eq_comm_false : (a b : String) → str_eq a b ≡ false → str_eq b a ≡ false
eq_comm_false a b f = ground (arith, eq_iff a b, eq_iff b a)

pub IsKeyed-insert :
    (c : ClientConn) (m : Map String ClientConn) → IsKeyed m → IsKeyed (insert c.id c m)
IsKeyed-insert c [] k = (refl, refl, tt)
IsKeyed-insert c ((j, d) ∷ m) (same, fresh, k) = elim (Bool-cases (str_eq j c.id)) [
  | inl t ↦ rw t (refl, subst (λ i. lookup i m ≡ none) ((eq_iff j c.id).0 t) fresh, k)
  | inr f ↦ rw f (same, lookup-insert c.id j c m ∙ rw (other f) fresh, IsKeyed-insert c m k)
]
  where
    other : str_eq j c.id ≡ false → str_eq c.id j ≡ false
    other f = eq_comm_false j c.id f

pub lookup-delete-none :
    (k j : String) (m : Map String ClientConn) → lookup j m ≡ none → lookup j (delete k m) ≡ none
lookup-delete-none k j m h =
    lookup-delete k j m ∙ if_rule (λ o. o ≡ none) (str_eq k j) none (lookup j m) refl h

pub IsKeyed-delete : (k : String) (m : Map String ClientConn) → IsKeyed m → IsKeyed (delete k m)
IsKeyed-delete k [] h = tt
IsKeyed-delete k ((j, d) ∷ m) (same, fresh, h) =
    if_rule IsKeyed (str_eq j k) (delete k m) ((j, d) ∷ delete k m) (IsKeyed-delete k m h)
      (same, lookup-delete-none k j m fresh, IsKeyed-delete k m h)
