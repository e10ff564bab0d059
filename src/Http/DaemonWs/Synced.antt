-- ===== src/Http/DaemonWs/Synced.antt =====
-- The rings of all sessions, whatever the daemons send.
use pi_remote.Prelude.{
  All, inr, ◌++◌, ◌∷◌, inl, ℕ, ℤ, String, Bool, Option, none, some, List, [], string_eq, if_rule,
}
use pi_remote.Broker.Ring.{Entry}
use pi_remote.Broker.Lru.{Floats}
use pi_remote.Sessions.Registry
use pi_remote.Sessions.Registry.{Encoder}
use pi_remote.Sessions.Registry.Histories.{AllTracked}
use pi_remote.Sessions.Registry.Paused.{pause_all_for_machine-AllTracked}
use pi_remote.Machines.Registry.{Conn}
use pi_remote.Machines.Frames.{Decoder}
use pi_remote.Machines.Ingest.{Ingestor, forget_conn, machine_id_for_conn}
use pi_remote.Machines.Ingest.Handle.{Outcome}
use pi_remote.Machines.Ingest.Evolves.{Grows}
use pi_remote.Sessions.Channels.{Bytes}
use pi_remote.Machines.Ingest.Histories.{handle-Evolves}
use pi_remote.Http.DaemonWs.{
  Event, Received, text, other, failed, new_ingestor, pause_known, on_exit, go_on, step, serve,
}

-- Each session has a history that its ring tracks, with no number above its `LastSeq`, and each
-- entry of a history is a frame of which `P` holds.
abbrev pub Synced : (Bytes → Type 0) → Registry.Registry → Type 0
Synced P r =
    (hist : String → List Entry) × AllTracked hist r.sessions
    × ((id : String) → All (λ (e : Entry). P e.payload) (hist id))

abbrev pub AllText : (Bytes → Type 0) → Received → Type 0
AllText P (text b) = P b
AllText P _ = Unit {0}

-- `P` holds of each text message.
abbrev pub AllTexts : (Bytes → Type 0) → List Event → Type 0
AllTexts P [] = Unit {0}
AllTexts P (e ∷ es) = AllText P e.received × AllTexts P es

All-append :
    {A : Type 0} (P : A → Type 0) (xs : List A) (x : A) → All P xs → P x → All P (xs ++ x ∷ [])
All-append P [] x all p = (p, tt)
All-append P (y ∷ xs) x all p = (all.0, All-append P xs x all.1 p)

grown :
    (P : Bytes → Type 0) (raw : Bytes) (h h' : List Entry)
    → P raw
    → Grows raw h h'
    → All (λ (e : Entry). P e.payload) h
    → All (λ (e : Entry). P e.payload) h'
grown P raw h h' p (inl same) all = rw same all
grown P raw h h' p (inr (inl anew)) all = rw anew tt
grown P raw h h' p (inr (inr (e, is_raw, added))) all =
    rw added (All-append (λ (z : Entry). P z.payload) h e all (rw is_raw p))

module _ (dec : Decoder) (enc : Encoder) (fl : Floats) (hook : Bool) (P : Bytes → Type 0) where
  on_exit-Synced :
      (now : ℕ) (conn : Conn) (i : Ingestor)
      → Synced P i.sessions
      → Synced P (on_exit dec enc fl hook now conn i).sessions
  unfolding on_exit forget_conn
  on_exit-Synced now conn i (hist, all, from) = go (machine_id_for_conn conn i)
    where
      go : (o : Option String) → Synced P (pause_known dec enc fl hook now o i).sessions
      go none = (hist, all, from)
      go (some id) =
          let paused = pause_all_for_machine-AllTracked enc id now i.sessions i.channels hist all in
          if_rule (λ (z : Ingestor). Synced P z.sessions) hook _ _ (hist, paused, from)
            (hist, paused, from)

  step-Synced :
      (e : Event) (i : Ingestor)
      → AllText P e.received
      → Synced P i.sessions
      → Synced P (step dec enc fl hook e i).sessions
  unfolding step
  step-Synced e i p (hist, all, from) = go e.received p
    where
      after :
          (o : Outcome)
          → Synced P o.0.sessions
          → Synced P (go_on dec enc fl hook e.now e.conn o).sessions
      after (j, none) s = s
      after (j, some err) s = on_exit-Synced e.now e.conn j s

      go :
          (x : Received)
          → AllText P x
          → Synced P (step dec enc fl hook (record e { received = x }) i).sessions
      go (text b) q =
          let (hist', all', grows) = handle-Evolves dec enc fl e.now hist e.conn b i all in
          after _ (hist', all', λ id. grown P b (hist id) (hist' id) q (grows id) (from id))
      go other q = (hist, all, from)
      go failed q = on_exit-Synced e.now e.conn i (hist, all, from)

  serve-Synced :
      (es : List Event) (i : Ingestor)
      → AllTexts P es
      → Synced P i.sessions
      → Synced P (serve dec enc fl hook es i).sessions
  unfolding serve
  serve-Synced [] i ps s = s
  serve-Synced (e ∷ es) i ps s =
      serve-Synced es (step dec enc fl hook e i) ps.1 (step-Synced e i ps.0 s)

  -- From a registry without sessions on, after any frames of any daemon connections in any order,
  -- each handled before the next, and any ends of connections: each session has a history with strictly rising numbers, made of
  -- frames that were received, whatever property `P` tells these from others; its ring holds the
  -- end of that history and a window of numbers that tells where that end begins, and `LastSeq` is
  -- not below the newest number.
  pub serve_new :
      (total floor : ℤ) (has_push has_change has_spawn : Bool) (es : List Event)
      → AllTexts P es
      → Synced P
          (serve dec enc fl hook es (
            new_ingestor
              (Registry.new_registry_with_limits total floor)
              has_push
              has_change
              has_spawn)).sessions
  unfolding new_ingestor Registry.new_registry_with_limits
  serve_new total floor has_push has_change has_spawn es ps =
      serve-Synced es _ ps ((λ id. []), (λ id s e. cc), λ id. tt)
