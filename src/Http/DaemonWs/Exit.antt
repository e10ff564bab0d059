-- ===== src/Http/DaemonWs/Exit.antt =====
-- What the end of a daemon connection leaves.
use pi_remote.Prelude.{
  ℕ, ◌≡◌, refl, ap, ◌∙◌, inl, inr, String, str_eq, Bool, true, false, not, ◌&&◌, ◌||◌, Option, none,
  some, [], ◌∷◌, Map, lookup, string_eq, nat_eq, Bool-cases, if_rule, if◌then◌else◌, lookup-delete,
  ==_iff,
}
use pi_remote.Broker.Lru.{Floats}
use pi_remote.Sessions.Channels.{Channels}
use pi_remote.Sessions.Session.{State, running, idle, paused, unresponsive, Session}
use pi_remote.Sessions.Registry.{
  Encoder, is_paused, keeps_state, pause, pause_all, pause_all_for_machine,
}
use pi_remote.Machines.Registry.{Conn}
use pi_remote.Machines.Frames.{Decoder}
use pi_remote.Machines.Ingest.{Ingestor, no_state, state_of, forget_conn, machine_id_for_conn}
use pi_remote.Http.DaemonWs.{pause_known, on_exit}

-- A session of the machine that has not ended is paused, and touched now unless it was paused
-- before; in all else, and any other session in all, it is as it was.
abbrev pub after_exit : String → ℕ → Option Session → Option Session
after_exit machine_id now none = none
after_exit machine_id now (some s) =
    let mine = str_eq s.machine_id machine_id && not s.ended in
    some (record s {
      state = if mine then paused else s.state;
      last_touched = if mine && not (is_paused s.state) then now else s.last_touched;
    })

paused_lem :
    (mine ended : Bool) (st : State) (now : ℕ) (s : Session)
    → s.state ≡ st
    → (if not mine || ended || is_paused st
        then s
        else record s { state = paused; last_touched = now })
      ≡ record s {
        state = if mine && not ended then paused else st;
        last_touched = if (mine && not ended) && not (is_paused st) then now else s.last_touched;
      }
paused_lem false ended st now s e = rw (← e)
paused_lem true true st now s e = rw (← e)
paused_lem true false paused now s e = rw (← e)
paused_lem true false running now s e = refl
paused_lem true false idle now s e = refl
paused_lem true false unresponsive now s e = refl
paused_lem true false State.ended now s e = refl

-- One session in the loop of `PauseAllForMachine`.
abbrev swept : String → ℕ → Option Session → Option Session
swept machine_id now none = none
swept machine_id now (some s) = some (if keeps_state machine_id s then s else pause now s)

swept_lem :
    (machine_id : String) (now : ℕ) (o : Option Session)
    → swept machine_id now o ≡ after_exit machine_id now o
swept_lem machine_id now none = refl
swept_lem machine_id now (some s) =
    ap some (paused_lem (str_eq s.machine_id machine_id) s.ended s.state now s refl)

pause_all-lookup :
    (enc : Encoder) (machine_id : String) (now : ℕ) (m : Map String Session) (ch : Channels)
    (id : String)
    → lookup id (pause_all enc machine_id now m ch).0 ≡ swept machine_id now (lookup id m)
unfolding pause_all
pause_all-lookup enc machine_id now [] ch id = refl
pause_all-lookup enc machine_id now ((j, s) ∷ m) ch id = elim (Bool-cases (str_eq j id)) [
  | inl t ↦ rw t
  | inr f ↦ rw f (pause_all-lookup enc machine_id now m _ id)
]

paused-lookup :
    (enc : Encoder) (machine_id : String) (now : ℕ) (i : Ingestor) (id : String)
    → lookup id (pause_all_for_machine enc machine_id now (i.sessions, i.channels)).0.sessions
      ≡ after_exit machine_id now (lookup id i.sessions.sessions)
unfolding pause_all_for_machine
paused-lookup enc machine_id now i id =
    pause_all-lookup enc machine_id now i.sessions.sessions i.channels id
    ∙ swept_lem machine_id now (lookup id i.sessions.sessions)

module _ (dec : Decoder) (enc : Encoder) (fl : Floats) (hook : Bool) where
  -- The deferred clean-up of a connection that had registered the machine `m`: the sessions of `m`
  -- that have not ended are paused afterwards, and touched now unless they were paused before, and
  -- every other session and all other fields are as they were, whichever connection the machine has
  -- by then; the machine keeps its entry, and the connection is no longer registered.
  pub on_exit_pauses :
      (now : ℕ) (conn : Conn) (i : Ingestor)
      → (state_of conn i).registered ≡ true
      → let j = on_exit dec enc fl hook now conn i in
        ((id : String)
          → lookup id j.sessions.sessions
            ≡ after_exit (state_of conn i).machine_id now (lookup id i.sessions.sessions))
        × (j.machines ≡ i.machines)
        × (state_of conn j ≡ no_state)
  unfolding on_exit forget_conn machine_id_for_conn
  on_exit_pauses now conn i r =
      let st = state_of conn i in
      let known : machine_id_for_conn conn i ≡ some st.machine_id = rw r in
      let i' = pause_known dec enc fl hook now (machine_id_for_conn conn i) i in
      (
        λ id. rw known (
            if_rule
              (λ (z : Ingestor).
                lookup id z.sessions.sessions
                ≡ after_exit st.machine_id now (lookup id i.sessions.sessions))
              hook _ _ (paused-lookup enc st.machine_id now i id)
              (paused-lookup enc st.machine_id now i id)),
        rw known (if_rule (λ (z : Ingestor). z.machines ≡ i.machines) hook _ _ refl refl),
        rw (lookup-delete conn conn i'.conn_state, (==_iff conn conn).1 refl),
      )
