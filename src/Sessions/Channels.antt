-- ===== src/Sessions/Channels.antt =====
-- The send queues of the client connections: `attachedClient` of
-- pi-remote-coordinator/internal/http/client_ws.go, whose channel holds 512 frames. A connection is
-- known by its id, which is unique in the process; the channels are the store that the connections
-- share with their write loops.
use pi_remote.Prelude.{
  ℕ, suc, ◌-◌, ◌≡◌, refl, sym, ap, ◌∙◌, inl, inr, String, str_eq, eq_iff, true, Option, none, some,
  List, [], ◌∷◌, ◌++◌, arith, length, length-append, take, ltb, if◌then◌else◌, Map, lookup, insert,
  lookup-insert, string_eq, append_assoc, append-nil, subst, take-nil, ltb→lt, ltb-false,
  Bool-cases,
}
use text.Mathlib.TextPositions.{eq_refl}

-- A frame is a JSON text.
abbrev pub Bytes : Type 0
Bytes = List ℕ

abbrev pub Channels : Type 0
Channels = Map String (List Bytes)

abbrev pub send_capacity : ℕ
send_capacity = 512

pub record ClientConn : Type 0 where
  pub id : String

-- `select { case a.sendChan <- msg: default: }`: a full queue drops the frame.
abbrev pub enqueue : Bytes → List Bytes → List Bytes
enqueue msg q = if ltb (length q) send_capacity then q ++ msg ∷ [] else q

abbrev pub enqueue_in : String → Bytes → Channels → Option (List Bytes) → Channels
enqueue_in id msg ch none = ch
enqueue_in id msg ch (some q) = insert id (enqueue msg q) ch

unfoldable pub send : ClientConn → Bytes → Channels → Channels
send c msg ch = enqueue_in c.id msg ch (lookup c.id ch)

unfoldable pub send_all : ClientConn → List Bytes → Channels → Channels
send_all c [] ch = ch
send_all c (msg ∷ msgs) ch = send_all c msgs (send c msg ch)

same_queue :
    (id k : String) (ch : Channels) (p q : List Bytes)
    → lookup id ch ≡ some p
    → lookup k ch ≡ some q
    → str_eq id k ≡ true
    → p ≡ q
same_queue id k ch p q e h t =
    let same = (eq_iff id k).0 t in cc (subst (λ j. lookup j ch ≡ some p) same e)

no_queue :
    (id k : String) (ch : Channels) (q : List Bytes)
    → lookup id ch ≡ none
    → lookup k ch ≡ some q
    → str_eq id k ≡ true
    → ⊥
no_queue id k ch q e h t =
    let same = (eq_iff id k).0 t in cc (subst (λ j. lookup j ch ≡ none) same e)

lookup-enqueue_in :
    (id : String) (msg : Bytes) (ch : Channels) (k : String) (q : List Bytes)
    (o : Option (List Bytes))
    → lookup id ch ≡ o
    → lookup k ch ≡ some q
    → lookup k (enqueue_in id msg ch o) ≡ some (if str_eq id k then enqueue msg q else q)
lookup-enqueue_in id msg ch k q none e h = elim (Bool-cases (str_eq id k)) [
  | inl t ↦ absurd (no_queue id k ch q e h t)
  | inr f ↦ rw f h
]
lookup-enqueue_in id msg ch k q (some p) e h =
    lookup-insert id k (enqueue msg p) ch ∙ (elim (Bool-cases (str_eq id k)) [
      | inl t ↦ rw (t, same_queue id k ch p q e h t)
      | inr f ↦ rw f h
    ])

-- A frame goes to the queue of its connection, if the queue has room, and to no other queue.
pub lookup-send :
    (c : ClientConn) (msg : Bytes) (ch : Channels) (k : String) (q : List Bytes)
    → lookup k ch ≡ some q
    → lookup k (send c msg ch) ≡ some (if str_eq c.id k then enqueue msg q else q)
unfolding send
lookup-send c msg ch k q h = lookup-enqueue_in c.id msg ch k q (lookup c.id ch) refl h

enqueue-take :
    (q : List Bytes) (msg : Bytes) (msgs : List Bytes)
    → enqueue msg q ++ take (send_capacity - length (enqueue msg q)) msgs
      ≡ q ++ take (send_capacity - length q) (msg ∷ msgs)
enqueue-take q msg msgs = elim (Bool-cases (ltb (length q) send_capacity)) [
  | inl room ↦
      let left : suc (send_capacity - length (q ++ msg ∷ [])) ≡ send_capacity - length q =
        omega (arith, ltb→lt _ _ room, length-append q (msg ∷ [])) in
      rw room (append_assoc q (msg ∷ []) _ ∙ ap (λ k. q ++ take k (msg ∷ msgs)) left)
  | inr full ↦
      let none_left : send_capacity - length q ≡ 0 = omega (arith, ltb-false _ _ full) in
      rw (full, none_left)
]

-- As many of the frames as the queue has room for arrive, in order; the rest is lost.
pub lookup-send_all :
    (c : ClientConn) (msgs : List Bytes) (ch : Channels) (q : List Bytes)
    → lookup c.id ch ≡ some q
    → lookup c.id (send_all c msgs ch) ≡ some (q ++ take (send_capacity - length q) msgs)
unfolding send_all
lookup-send_all c [] ch q h =
    h ∙ ap some (sym (append-nil q) ∙ ap (◌++◌ q) (sym (take-nil (send_capacity - length q))))
lookup-send_all c (msg ∷ msgs) ch q h =
    lookup-send_all c msgs (send c msg ch) (enqueue msg q)
      (lookup-send c msg ch c.id q h ∙ rw (eq_refl c.id))
    ∙ ap some (enqueue-take q msg msgs)
