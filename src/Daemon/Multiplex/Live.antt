-- ===== src/Daemon/Multiplex/Live.antt =====
-- The sessions that a reconnect reports.
use pi_remote.Prelude.{
  ℕ, ◌≡◌, refl, Bool, false, not, ◌&&◌, List, [], ◌∷◌, ltb, All, if_cases, String, Map,
}
use pi_remote.Daemon.Registry.{Session, Registry, is_ended, live_of, snapshot}
use pi_remote.Daemon.Multiplex.{Multiplex, LiveSession, peek, live_of_all, live_sessions}

-- The session has not ended, its process is not known to be gone, and its last number is that of
-- its allocator.
abbrev pub IsLive : (ℕ → Bool) → Multiplex → LiveSession → Type 0
IsLive pid_alive m l =
    (is_ended l.session.state ≡ false)
    × ((ltb 0 l.session.pid && not (pid_alive l.session.pid)) ≡ false)
    × (l.last_seq ≡ peek l.session.session_id m)

abbrev IsUnended : Session → Type 0
IsUnended s = is_ended s.state ≡ false

live_of-IsUnended : (m : Map String Session) → All IsUnended (live_of m)
unfolding live_of
live_of-IsUnended [] = tt
live_of-IsUnended ((id, s) ∷ m) =
    if_cases (All IsUnended) (is_ended s.state) _ _ (λ e. live_of-IsUnended m)
      (λ e. (e, live_of-IsUnended m))

live_of_all-IsLive :
    (pid_alive : ℕ → Bool) (ss : List Session) (m : Multiplex)
    → All IsUnended ss
    → All (IsLive pid_alive m) (live_of_all pid_alive ss m)
unfolding live_of_all
live_of_all-IsLive pid_alive [] m unended = tt
live_of_all-IsLive pid_alive (s ∷ ss) m unended =
    let rest = live_of_all-IsLive pid_alive ss m unended.1 in
    if_cases (All (IsLive pid_alive m)) (ltb 0 s.pid && not (pid_alive s.pid)) _ _ (λ e. rest)
      (λ e. ((unended.0, e, refl), rest))

-- A reconnect reports only sessions that have not ended and whose process is not known to be gone,
-- each with the number that its allocator gave out last.
pub live_sessions-IsLive :
    (pid_alive : ℕ → Bool) (r : Registry) (m : Multiplex)
    → All (IsLive pid_alive m) (live_sessions pid_alive r m)
unfolding live_sessions snapshot
live_sessions-IsLive pid_alive r m =
    live_of_all-IsLive pid_alive (live_of r.sessions) m (live_of-IsUnended r.sessions)
