-- ===== src/Http/DaemonWs/Again.antt =====
-- Frames that come again: a daemon that reconnects may send its newest frames once more.
use pi_remote.Prelude.{
  ℕ, ◌≡◌, sym, subst, ◌∙◌, inl, inr, String, false, Bool, Option, none, some, List, [], ◌∷◌, arith,
  lookup, string_eq, nat_eq, Bool-cases, if_rule,
}
use pi_remote.Broker.Ring.{EntryKind, event}
use pi_remote.Broker.Lru.{Floats}
use pi_remote.Sessions.Channels.{Bytes}
use pi_remote.Sessions.Session.{Session}
use pi_remote.Sessions.Registry
use pi_remote.Sessions.Registry.{Encoder, advances, advance_seq}
use pi_remote.Sessions.Registry.Histories.{advance_seq_flag, advance_seq_known}
use pi_remote.Sessions.Registry.Numbers.{advance_seq_stale, advances_known}
use pi_remote.Sessions.Registry.Seen.{
  AtLeast, Seen, publish_to-Seen, pause_all_for_machine-Seen, Seen-advances, known-AtLeast,
}
use pi_remote.Machines.Registry.{Conn}
use pi_remote.Machines.Frames.{Decoder, SessionEvent}
use pi_remote.Machines.Ingest.{Ingestor, push_event_reason, forget_conn, machine_id_for_conn}
use pi_remote.Machines.Ingest.Evolves.{notify_reason-sessions}
use pi_remote.Machines.Ingest.Handle.{Outcome, publish_newer, handle_session_event}
use pi_remote.Machines.Ingest.Seen.{Spares, handle-Seen}
use pi_remote.Http.DaemonWs.{
  Event, Received, text, other, failed, pause_known, on_exit, go_on, step, serve,
}

abbrev SparesText : Decoder → String → Received → Type 0
SparesText dec id (text b) = Spares dec id b
SparesText dec id _ = Unit {0}

-- No message is a session_started of the session `id`.
abbrev pub AllSpare : Decoder → String → List Event → Type 0
AllSpare dec id [] = Unit {0}
AllSpare dec id (e ∷ es) = SparesText dec id e.received × AllSpare dec id es

module _ (dec : Decoder) (enc : Encoder) (fl : Floats) where
  -- A number that does not advance its session is dropped.
  publish_newer_stale :
      (now : ℕ) (id : String) (seq : ℕ) (kind : EntryKind) (ts : ℕ) (b : Bytes) (i : Ingestor)
      → advances seq (lookup id i.sessions.sessions) ≡ false
      → publish_newer dec enc fl now id seq kind ts b i ≡ (i, false)
  unfolding publish_newer
  publish_newer_stale now id seq kind ts b i e = rw (advance_seq_stale id seq now i.sessions e)

  -- A known session has come to the number of the frame behind it.
  publish_newer-Seen :
      (now : ℕ) (id : String) (seq : ℕ) (kind : EntryKind) (ts : ℕ) (b : Bytes) (i : Ingestor)
      (s : Session)
      → lookup id i.sessions.sessions ≡ some s
      → Seen seq id (publish_newer dec enc fl now id seq kind ts b i).0.sessions.sessions
  unfolding publish_newer
  publish_newer-Seen now id seq kind ts b i s l =
      elim (Bool-cases (advances seq (lookup id i.sessions.sessions))) [
        | inl e ↦
            let (s₀, l₀, lt) = advances_known seq (lookup id i.sessions.sessions) e in
            let (s', l', top) = advance_seq_known id seq now i.sessions s₀ l₀ lt in
            let come : Seen seq id (advance_seq id seq now i.sessions).0.sessions =
              subst (AtLeast seq) (sym l') (omega (arith, top)) in
            rw (advance_seq_flag id seq now i.sessions ∙ e) (
              publish_to-Seen seq id _ come fl id
                (record { seq = seq; kind = kind; ts = ts; payload = b }) now i.channels)
        | inr e ↦
            rw (advance_seq_stale id seq now i.sessions e)
              (known-AtLeast seq (lookup id i.sessions.sessions) s l e)
      ]

  module _ (hook : Bool) (n : ℕ) (id : String) where
    on_exit-Seen :
        (now : ℕ) (conn : Conn) (i : Ingestor)
        → Seen n id i.sessions.sessions
        → Seen n id (on_exit dec enc fl hook now conn i).sessions.sessions
    unfolding on_exit forget_conn
    on_exit-Seen now conn i h = go (machine_id_for_conn conn i)
      where
        go : (o : Option String) → Seen n id (pause_known dec enc fl hook now o i).sessions.sessions
        go none = h
        go (some machine_id) =
            let paused =
              pause_all_for_machine-Seen n id i.sessions h enc machine_id now i.channels in
            if_rule (λ (z : Ingestor). Seen n id z.sessions.sessions) hook _ _ paused paused

    step-Seen :
        (e : Event) (i : Ingestor)
        → SparesText dec id e.received
        → Seen n id i.sessions.sessions
        → Seen n id (step dec enc fl hook e i).sessions.sessions
    unfolding step
    step-Seen e i sp h = go e.received sp
      where
        after :
            (o : Outcome)
            → Seen n id o.0.sessions.sessions
            → Seen n id (go_on dec enc fl hook e.now e.conn o).sessions.sessions
        after (j, none) s = s
        after (j, some err) s = on_exit-Seen e.now e.conn j s

        go :
            (x : Received)
            → SparesText dec id x
            → Seen n id (step dec enc fl hook (record e { received = x }) i).sessions.sessions
        go (text b) q = after _ (handle-Seen n id dec enc fl e.now e.conn b i q h)
        go other q = h
        go failed q = on_exit-Seen e.now e.conn i h

    serve-Seen :
        (es : List Event) (i : Ingestor)
        → AllSpare dec id es
        → Seen n id i.sessions.sessions
        → Seen n id (serve dec enc fl hook es i).sessions.sessions
    unfolding serve
    serve-Seen [] i sp h = h
    serve-Seen (e ∷ es) i sp h =
        serve-Seen es (step dec enc fl hook e i) sp.1 (step-Seen e i sp.0 h)

  event_stale :
      (now : ℕ) (b : Bytes) (i : Ingestor) (m : SessionEvent)
      → dec.session_event b ≡ some m
      → Seen m.seq m.session_id i.sessions.sessions
      → (handle_session_event dec enc fl now b i).0 ≡ i
  unfolding handle_session_event
  event_stale now b i m e h = rw (
    e,
    publish_newer_stale now m.session_id m.seq event m.ts b i
        (Seen-advances m.seq (lookup m.session_id i.sessions.sessions) h),
  )

  event-Seen :
      (now : ℕ) (b : Bytes) (i : Ingestor) (m : SessionEvent) (s : Session)
      → dec.session_event b ≡ some m
      → lookup m.session_id i.sessions.sessions ≡ some s
      → Seen m.seq m.session_id (handle_session_event dec enc fl now b i).0.sessions.sessions
  unfolding handle_session_event
  event-Seen now b i m s e l =
      let p = publish_newer dec enc fl now m.session_id m.seq event m.ts b i in
      let done = publish_newer-Seen now m.session_id m.seq event m.ts b i s l in
      rw e (
        if_rule (λ (z : Ingestor). Seen m.seq m.session_id z.sessions.sessions) p.1 _ _
          (subst (λ (z : Registry.Registry). Seen m.seq m.session_id z.sessions)
            (sym (
              notify_reason-sessions dec enc fl now m.session_id m.kind b p.0
                (push_event_reason m.kind)))
            done)
          done)

  -- A session_event frame of a known session is handled, and after any messages and ends of daemon
  -- connections, of which none starts that session anew, the same frame comes again: it changes
  -- nothing, so that no entry is kept or sent a second time and no push is made.
  pub handle_session_event_again :
      (hook : Bool) (now now' : ℕ) (b : Bytes) (i : Ingestor) (m : SessionEvent) (s : Session)
      (es : List Event)
      → dec.session_event b ≡ some m
      → lookup m.session_id i.sessions.sessions ≡ some s
      → AllSpare dec m.session_id es
      → let i' = serve dec enc fl hook es (handle_session_event dec enc fl now b i).0 in
        (handle_session_event dec enc fl now' b i').0 ≡ i'
  handle_session_event_again hook now now' b i m s es e l sp =
      event_stale now' b _ m e
        (serve-Seen hook m.seq m.session_id es _ sp (event-Seen now b i m s e l))
