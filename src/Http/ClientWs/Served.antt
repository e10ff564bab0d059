-- ===== src/Http/ClientWs/Served.antt =====
-- The invariant of the connections after any events of the apps and the daemons.
use Prim.Native.Nat.{◌^◌}
use pi_remote.Prelude.{
  ℕ, zero, suc, ◌+◌, ◌<◌, ◌≡◌, refl, subst, arith, String, str_eq, Bool, true, Option, none, some,
  List, [], ◌∷◌, Map, lookup, string_eq, length, if_rule, ℤ,
}
use native.Mathlib.Nat.{add-zero}
use pi_remote.Broker.Lru.{Floats}
use pi_remote.Sessions.Channels.{Bytes, ClientConn}
use pi_remote.Sessions.Session.{Session}
use pi_remote.Sessions.Registry as Registry
use pi_remote.Sessions.Registry.{Encoder}
use pi_remote.Sessions.Registry.Attached.{AllAttached, pause_all_for_machine-AllAttached}
use pi_remote.Machines.Frames.{Decoder, SpawnResponse}
use pi_remote.Machines.Ingest.{Ingestor, forget_conn, machine_id_for_conn}
use pi_remote.Machines.Ingest.Handle.{Outcome}
use pi_remote.Machines.Ingest.Attached.{handle-AllAttached}
use pi_remote.Push as Push
use pi_remote.Http.DaemonWs as DaemonWs
use pi_remote.Http.DaemonWs.{Received, text, other, failed}
use pi_remote.Http.AppFrames.{AppDecoder, AppFrame, ClientHello}
use pi_remote.Http.ClientWs.{
  AppConn, Hub, sessions_of, handle_spawn_response, broadcast_machine_list,
}
use pi_remote.Http.ClientWs.Serve.{
  Refusal, Event, opened, received, wrote, daemon, accept_hello, accept_head, accept_first, accept,
  of_conn, run_broadcasts, run_answers, daemon_step, step, serve, new_hub,
}
use pi_remote.Http.ClientWs.Attached.{Follows}
use pi_remote.Http.ClientWs.Wired.{IsWired, admit-IsWired}
use pi_remote.Http.ClientWs.Steps.{
  Untouched-IsWired, spawn_response-Untouched, read-IsWired, pump-IsWired,
}

more : (limit : ℕ) (h : Hub) → IsWired limit h → IsWired (limit + 1) h
more limit h v = record { counted = omega (arith, v.counted); named = v.named; held = v.held }

module _ (dec : AppDecoder) (app : AppFrame → Bytes) where
  accept-IsWired :
      (authorised : Bool) (first : Received) (limit : ℕ) (h : Hub)
      → limit + 1 < 2 ^ 64
      → IsWired limit h
      → IsWired (limit + 1) (accept dec app authorised first h).0
  unfolding accept
  accept-IsWired authorised first limit h small v =
      if_rule (λ (z : Hub × Option Refusal). IsWired (limit + 1) z.0) authorised _ _
        (at_first first) w
    where
      w : IsWired (limit + 1) h
      w = record { counted = omega (arith, v.counted); named = v.named; held = v.held }

      at_hello : (o : Option ClientHello) → IsWired (limit + 1) (accept_hello dec app h o).0
      at_hello none = w
      at_hello (some hello) =
          if_rule (λ (z : Hub × Option Refusal). IsWired (limit + 1) z.0) _ _ _
            (admit-IsWired limit hello.client_id h small v) w

      at_head : (b : Bytes) (o : Option String) → IsWired (limit + 1) (accept_head dec app b h o).0
      at_head b none = w
      at_head b (some t) =
          if_rule (λ (z : Hub × Option Refusal). IsWired (limit + 1) z.0) (str_eq t "client_hello")
            _ _ (at_hello (dec.client_hello b)) w

      at_first : (r : Received) → IsWired (limit + 1) (accept_first dec app h r).0
      at_first failed = w
      at_first other = w
      at_first (text b) = at_head b (dec.head b)

  of_conn-IsWired :
      (limit : ℕ) (id : String) (h : Hub) (f : AppConn → Hub) (o : Option AppConn)
      → lookup id h.conns ≡ o
      → IsWired limit h
      → ((c : AppConn) → lookup id h.conns ≡ some c → IsWired limit (f c))
      → IsWired limit (of_conn dec app f h o)
  of_conn-IsWired limit id h f none l v k = v
  of_conn-IsWired limit id h f (some c) l v k = k c l

  module _ (ddec : Decoder) (enc : Encoder) (fl : Floats) where
    run_broadcasts-IsWired :
        (limit n : ℕ) (h : Hub)
        → IsWired limit h
        → IsWired limit (run_broadcasts dec app ddec enc fl n h)
    unfolding run_broadcasts broadcast_machine_list
    run_broadcasts-IsWired limit zero h v = v
    run_broadcasts-IsWired limit (suc n) h v =
        run_broadcasts-IsWired limit n (broadcast_machine_list app h)
          (Untouched-IsWired limit h _ (refl, refl, refl) v)

    run_answers-IsWired :
        (limit : ℕ) (rs : List SpawnResponse) (h : Hub)
        → IsWired limit h
        → IsWired limit (run_answers dec app ddec enc fl rs h)
    unfolding run_answers
    run_answers-IsWired limit [] h v = v
    run_answers-IsWired limit (r ∷ rs) h v =
        run_answers-IsWired limit rs
          (handle_spawn_response app r.request_id r.success r.session_id r.error h)
          (Untouched-IsWired limit h _ (spawn_response-Untouched app r.request_id r.success _ _ h)
            v)

    -- A step of a daemon's connection, for what holds of sessions that no connection is attached to.
    daemon-AllAttached :
        (P : String → Map String ClientConn → Type 0)
        → ((k : String) → P k [])
        → (e : DaemonWs.Event) (i : Ingestor) → AllAttached P i.sessions.sessions
        → AllAttached P (DaemonWs.step ddec enc fl true e i).sessions.sessions
    unfolding DaemonWs.step DaemonWs.on_exit forget_conn
    daemon-AllAttached P empty e i all = go e.received
      where
        paused :
            (j : Ingestor) (o : Option String)
            → AllAttached P j.sessions.sessions
            → AllAttached P (DaemonWs.pause_known ddec enc fl true e.now o j).sessions.sessions
        paused j none a = a
        paused j (some machine_id) a =
            pause_all_for_machine-AllAttached P empty j.sessions a enc machine_id e.now j.channels

        after :
            (o : Outcome)
            → AllAttached P o.0.sessions.sessions
            → AllAttached P (DaemonWs.go_on ddec enc fl true e.now e.conn o).sessions.sessions
        after (j, none) a = a
        after (j, some err) a = paused j (machine_id_for_conn e.conn j) a

        go :
            (r : Received)
            → AllAttached P
                (DaemonWs.step ddec enc fl true (record e { received = r }) i).sessions.sessions
        go (text b) = after _ (handle-AllAttached P empty ddec enc fl e.now e.conn b i all)
        go other = all
        go failed = paused i (machine_id_for_conn e.conn i) all

    daemon_step-IsWired :
        (limit : ℕ) (e : DaemonWs.Event) (h : Hub)
        → IsWired limit h
        → IsWired limit (daemon_step dec app ddec enc fl e h)
    unfolding daemon_step
    daemon_step-IsWired limit e h v = run_answers-IsWired limit _ _ (
        run_broadcasts-IsWired limit _ _ (record {
          counted = v.counted;
          named = v.named;
          held =
              daemon-AllAttached (Follows h.conns) (λ k id conn at. cc) e
                (record (h.ingest) { calls = 0; answers = [] }) v.held;
        }))

    step-IsWired :
        (now : ℕ) (e : Event) (limit : ℕ) (h : Hub)
        → limit + 1 < 2 ^ 64
        → IsWired limit h
        → IsWired (limit + 1) (step dec app ddec enc fl now e h)
    unfolding step
    step-IsWired now (opened authorised first) limit h small v =
        accept-IsWired authorised first limit h small v
    step-IsWired now (received id r ok) limit h small v = more limit _ (
        of_conn-IsWired limit id h _ (lookup id h.conns) refl v
          λ c l. read-IsWired dec app limit id c now h l v r ok)
    step-IsWired now (wrote id ok) limit h small v = more limit _ (
        of_conn-IsWired limit id h _ (lookup id h.conns) refl v
          λ c l. pump-IsWired dec app limit id c now h l v ok)
    step-IsWired now (daemon e) limit h small v = more limit _ (daemon_step-IsWired limit e h v)

    serve-IsWired :
        (es : List (ℕ × Event)) (limit : ℕ) (h : Hub)
        → limit + length es < 2 ^ 64
        → IsWired limit h
        → IsWired (limit + length es) (serve dec app ddec enc fl es h)
    unfolding serve
    serve-IsWired [] limit h small v = rw add-zero v
    serve-IsWired ((now, e) ∷ es) limit h small v =
        let next = step-IsWired now e limit h (omega arith) v in
        let count : limit + 1 + length es ≡ limit + suc (length es) = omega arith in
        subst (λ n. IsWired n (serve dec app ddec enc fl es (step dec app ddec enc fl now e h)))
          count (serve-IsWired es (limit + 1) _ (omega arith) next)

    -- From a coordinator without sessions and connections on, after fewer than 2^64 events of any
    -- connections of apps and daemons, in any order: a connection that a session sends its frames
    -- to is open, and its own loop has that session. So it is attached to one session at most, and
    -- a connection that has ended to none.
    pub serve_attached :
        (total floor : ℤ) (has_push : Bool) (clients : Push.Clients)
        (focus : Option Push.FocusTracker) (es : List (ℕ × Event)) (k id : String) (s : Session)
        (conn : ClientConn)
        → length es < 2 ^ 64
        → lookup k (
            sessions_of (serve dec app ddec enc fl es (new_hub total floor has_push clients focus)))
          ≡ some s
        → lookup id s.attached_clients ≡ some conn
        → (c : AppConn) × (lookup id
              (serve dec app ddec enc fl es (new_hub total floor has_push clients focus)).conns
            ≡ some c)
          × (c.attached ≡ some k)
    unfolding new_hub DaemonWs.new_ingestor Registry.new_registry_with_limits
    serve_attached total floor has_push clients focus es k id s conn small l at =
        (serve-IsWired es 0 (new_hub total floor has_push clients focus) (omega arith)
            (record { counted = omega arith; named = λ id c e. cc; held = λ k s e. cc })).held
          k s l id conn at
