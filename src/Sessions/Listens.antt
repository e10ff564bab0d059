-- ===== src/Sessions/Listens.antt =====
-- The operations on a session behind an attachment, as one connection sees them.
use pi_remote.Prelude.{
  ℕ, ◌+◌, ◌≤◌, ◌<◌, ◌≡◌, subst, ◌∙◌, String, str_eq, false, some, List, [], ◌∷◌, ◌++◌, arith,
  length, length-append, lookup, string_eq, lookup-insert, lookup-delete, append_assoc, append-nil,
  lt→ltb, if_rule,
}
use pi_remote.Broker.Ring.{Entry, replay}
use pi_remote.Sessions.Channels.{
  Bytes, Channels, ClientConn, send_capacity, enqueue, send, send_all,
}
use pi_remote.Sessions.Session.{
  Session, attach, detach, get_attached_clients, fan_out, publish, broadcast, attach_with_replay,
}
use pi_remote.Sessions.Delivery.{IsKeyed, lookup-fan_out, IsKeyed-insert, IsKeyed-delete, send_at}

-- The operations on a session that its lock puts in an order.
pub data Op : Type 0 where
  published : Entry → ℕ → Op
  broadcasted : Bytes → Op
  attached : ClientConn → ℕ → ℕ → Op
  detached : String → ℕ → Op

module _ (unavailable : ℕ → ℕ → Bytes) where
  unfoldable pub step : Op → Session × Channels → Session × Channels
  step (published e now) st = publish e now st
  step (broadcasted raw) (s, ch) = (s, broadcast raw s ch)
  step (attached c last now) st = (attach_with_replay c last unavailable now st).0
  step (detached id now) (s, ch) = (detach id now s, ch)

  unfoldable pub run : List Op → Session × Channels → Session × Channels
  run [] st = st
  run (op ∷ ops) st = run ops (step op st)

-- The operation does not attach or detach the connection `id`.
abbrev pub Spares : String → Op → Type 0
Spares id (published e now) = Unit {0}
Spares id (broadcasted raw) = Unit {0}
Spares id (attached c last now) = str_eq c.id id ≡ false
Spares id (detached k now) = str_eq k id ≡ false

abbrev pub AllSpare : String → List Op → Type 0
AllSpare id [] = Unit {0}
AllSpare id (op ∷ ops) = Spares id op × AllSpare id ops

-- The live frames of the operations.
abbrev pub frames_of : List Op → List Bytes
frames_of [] = []
frames_of (published e now ∷ ops) = e.payload ∷ frames_of ops
frames_of (broadcasted raw ∷ ops) = raw ∷ frames_of ops
frames_of (attached c last now ∷ ops) = frames_of ops
frames_of (detached k now ∷ ops) = frames_of ops

-- The connection is attached, and `q` waits in its queue.
pub record Listens (id : String) (q : List Bytes) (st : Session × Channels) : Type 0 where
  pub keyed : IsKeyed st.0.attached_clients
  pub conn : ClientConn
  pub present : lookup id st.0.attached_clients ≡ some conn
  pub queue : lookup id st.1 ≡ some q

enqueue_room :
    (raw : Bytes) (q : List Bytes) → length q < send_capacity → enqueue raw q ≡ q ++ raw ∷ []
enqueue_room raw q h = rw (lt→ltb _ _ h)

live_frame :
    (raw : Bytes) (id : String) (q : List Bytes) (s : Session) (ch : Channels)
    → Listens id q (s, ch)
    → length q < send_capacity
    → lookup id (fan_out (get_attached_clients s) raw ch) ≡ some (q ++ raw ∷ [])
unfolding get_attached_clients
live_frame raw id q s ch l room =
    lookup-fan_out s.attached_clients raw ch id q l.keyed l.queue
    ∙ rw (l.present, enqueue_room raw q room)

published-Listens :
    (e : Entry) (now : ℕ) (id : String) (q : List Bytes) (s : Session) (ch : Channels)
    → Listens id q (s, ch)
    → length q < send_capacity
    → Listens id (q ++ e.payload ∷ []) (publish e now (s, ch))
unfolding publish
published-Listens e now id q s ch l room = record {
  keyed = l.keyed;
  conn = l.conn;
  present = l.present;
  queue = live_frame e.payload id q s ch l room;
}

broadcasted-Listens :
    (raw : Bytes) (id : String) (q : List Bytes) (s : Session) (ch : Channels)
    → Listens id q (s, ch)
    → length q < send_capacity
    → Listens id (q ++ raw ∷ []) (s, broadcast raw s ch)
unfolding broadcast
broadcasted-Listens raw id q s ch l room = record {
  keyed = l.keyed;
  conn = l.conn;
  present = l.present;
  queue = live_frame raw id q s ch l room;
}

send_all_other :
    (c : ClientConn) (msgs : List Bytes) (ch : Channels) (k : String) (q : List Bytes)
    → str_eq c.id k ≡ false
    → lookup k ch ≡ some q
    → lookup k (send_all c msgs ch) ≡ some q
unfolding send_all
send_all_other c [] ch k q f h = h
send_all_other c (msg ∷ msgs) ch k q f h =
    send_all_other c msgs (send c msg ch) k q f (send_at c msg ch k q false h f)

attached-Listens :
    (unavailable : ℕ → ℕ → Bytes) (c : ClientConn) (last now : ℕ) (id : String) (q : List Bytes)
    (s : Session) (ch : Channels)
    → Listens id q (s, ch)
    → str_eq c.id id ≡ false
    → Listens id q (attach_with_replay c last unavailable now (s, ch)).0
unfolding attach_with_replay attach
attached-Listens unavailable c last now id q s ch l f = record {
  keyed = IsKeyed-insert c s.attached_clients l.keyed;
  conn = l.conn;
  present = lookup-insert c.id id c s.attached_clients ∙ rw f l.present;
  queue =
      if_rule (λ x. lookup id x ≡ some q) (replay last s.ring).ok _ _
        (send_all_other c _ ch id q f l.queue) (send_at c _ ch id q false l.queue f);
}

detached-Listens :
    (k : String) (now : ℕ) (id : String) (q : List Bytes) (s : Session) (ch : Channels)
    → Listens id q (s, ch)
    → str_eq k id ≡ false
    → Listens id q (detach k now s, ch)
unfolding detach
detached-Listens k now id q s ch l f = record {
  keyed = IsKeyed-delete k s.attached_clients l.keyed;
  conn = l.conn;
  present = lookup-delete k id s.attached_clients ∙ rw f l.present;
  queue = l.queue;
}

-- While other connections come and go, an attached connection is sent every live frame once and in
-- order, as long as its queue has room for all of them.
pub run-Listens :
    (unavailable : ℕ → ℕ → Bytes) (id : String) (ops : List Op) (q : List Bytes)
    (st : Session × Channels)
    → Listens id q st
    → AllSpare id ops
    → length q + length (frames_of ops) ≤ send_capacity
    → Listens id (q ++ frames_of ops) (run unavailable ops st)
unfolding run step
run-Listens unavailable id [] q st l sp room = rw append-nil l
run-Listens unavailable id (published e now ∷ ops) q st l sp room =
    subst (λ x. Listens id x (run unavailable ops (publish e now st)))
      (append_assoc q (e.payload ∷ []) (frames_of ops))
      (run-Listens unavailable id ops (q ++ e.payload ∷ []) _
        (published-Listens e now id q st.0 st.1 l (omega arith)) sp.1
        (omega (arith, length-append q (e.payload ∷ []))))
run-Listens unavailable id (broadcasted raw ∷ ops) q st l sp room =
    subst (λ x. Listens id x (run unavailable ops (st.0, broadcast raw st.0 st.1)))
      (append_assoc q (raw ∷ []) (frames_of ops))
      (run-Listens unavailable id ops (q ++ raw ∷ []) _
        (broadcasted-Listens raw id q st.0 st.1 l (omega arith)) sp.1
        (omega (arith, length-append q (raw ∷ []))))
run-Listens unavailable id (attached c last now ∷ ops) q st l sp room =
    run-Listens unavailable id ops q _
      (attached-Listens unavailable c last now id q st.0 st.1 l sp.0) sp.1 room
run-Listens unavailable id (detached k now ∷ ops) q st l sp room =
    run-Listens unavailable id ops q _ (detached-Listens k now id q st.0 st.1 l sp.0) sp.1 room
