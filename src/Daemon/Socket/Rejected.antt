-- ===== src/Daemon/Socket/Rejected.antt =====
-- A registration that the registry rejects, after its pane was mapped.
use pi_remote.Prelude.{
  ℕ, ◌≡◌, ◌≢◌, refl, if_rule, String, str_eq, string_eq, true, false, Option, none, some, List, [],
  ◌∷◌, lookup, arith,
}
use pi_remote.Daemon.Registry.{Session, Registry, err_duplicate, register}
use pi_remote.Daemon.Registry.Reuse.{stamped_id}
use pi_remote.Daemon.Socket.{
  RegisterFrame, Decoder, Resolver, token_of, resolve, session_of, handle_register,
}
use pi_remote.Daemon.Tmux.Lines.{bytes, same}
use pi_remote.Daemon.Tmux.Panes.{Tmux, Panes, map_pane}
use pi_remote.Daemon.Tmux.Panes.Live.{IsMapped, map_pane-IsMapped}
use pi_remote.Daemon.Tmux.Targets.{
  Processes, notify, map_resolved, resolved_as, untmuxed, find_tmux_target_by_pid_or_tty,
  resolve_and_map,
}

abbrev pub texts : (List ℕ → String) → Option (List ℕ × List ℕ) → Option (String × String)
texts text none = none
texts text (some (target, pane)) = some (text target, text pane)

-- The tmux client as the resolver of a connection; `text` reads bytes as a text.
abbrev pub tmux_resolver : (List ℕ → String) → Tmux → Processes → Resolver Panes
tmux_resolver text tmux ps pid input id token r st =
    let (st', found) = resolve_and_map tmux ps pid (bytes input) id token r st in
    (st', texts text found)

module _ (tmux : Tmux) (ps : Processes) (id token : String) where
  map_resolved_inv :
      (target out pane : List ℕ) (q : Panes × Option (List ℕ))
      → (map_resolved tmux ps target id token q).1 ≡ some (out, pane)
      → (q.1 ≡ some pane)
        × ((map_resolved tmux ps target id token q).0.pane_to_session ≡ q.0.pane_to_session)
  map_resolved_inv target out pane (st, none) h = cc
  map_resolved_inv target out pane (st, some p) h = (
    cc,
    if_rule (λ (z : Panes). z.pane_to_session ≡ st.pane_to_session) (str_eq token "") _ _ refl
        (told (lookup token st.pending_spawns)),
  )
    where
      told : (o : Option ℕ) → (notify tmux ps o id st).pane_to_session ≡ st.pane_to_session
      told none = refl
      told (some ch) = refl

  resolved_as-IsMapped :
      (r : Registry) (out pane : List ℕ) (q : Panes × Option (List ℕ))
      → (resolved_as tmux ps id token r q).1 ≡ some (out, pane)
      → IsMapped (resolved_as tmux ps id token r q).0 pane id
  resolved_as-IsMapped r out pane (st, none) h = cc
  resolved_as-IsMapped r out pane (st, some target) h =
      let (found, same) = map_resolved_inv target out pane (map_pane tmux target id r st) h in
      rw same (map_pane-IsMapped tmux target id r st pane found).0

  resolve_and_map-IsMapped :
      (pid : ℕ) (r : Registry) (st : Panes) (input target pane : List ℕ)
      → (resolve_and_map tmux ps pid input id token r st).1 ≡ some (target, pane)
      → IsMapped (resolve_and_map tmux ps pid input id token r st).0 pane id
  unfolding resolve_and_map
  resolve_and_map-IsMapped pid r st input target pane h =
      if_rule
        (λ (q : Panes × Option (List ℕ × List ℕ)). q.1 ≡ some (target, pane) → IsMapped q.0 pane id)
        (same input (untmuxed tmux ps)) _ _
        (resolved_as-IsMapped r target pane (find_tmux_target_by_pid_or_tty tmux ps pid st))
        (resolved_as-IsMapped r target pane (st, some input)) h

register-rejected :
    (s existing : Session) (now : ℕ) (r : Registry)
    → lookup s.session_id r.sessions ≡ some existing
    → existing.pid ≢ s.pid
    → register s now r ≡ (r, false, err_duplicate)
unfolding register
register-rejected s existing now r e ne = rw (stamped_id now s, e) (ground arith)

-- A process registers the id of a session that another process has: the connection is not served,
-- the acknowledgement, where the socket takes it, tells of the duplicate, and the registry stays as
-- it was; but where the target of the process resolves, its pane is mapped to that session all the
-- same.
pub handle_register-rejected :
    (text : List ℕ → String) (tmux : Tmux) (ps : Processes) (decoder : Decoder) (now : ℕ)
    (line : List ℕ) (r : Registry) (st : Panes) (reg : RegisterFrame) (existing : Session)
    (target pane : List ℕ)
    → decoder.type_of line ≡ some "register"
    → decoder.register_of line ≡ some reg
    → lookup reg.session_id r.sessions ≡ some existing
    → existing.pid ≢ reg.pid
    → (resolve_and_map tmux ps reg.pid
        (bytes reg.tmux_target)
        reg.session_id
        (token_of reg.spawn_token)
        r
        st).1
      ≡ some (target, pane)
    → let q = handle_register decoder (some (tmux_resolver text tmux ps)) now true line r st in
      (q.1 ≡ r)
      × (q.2 ≡ none)
      × (q.3
          ≡ record { session_id = reg.session_id; accepted = false; reason = some err_duplicate }
            ∷ [])
      × IsMapped q.0 pane reg.session_id
unfolding handle_register
handle_register-rejected text tmux ps decoder now line r st reg existing target pane typed decoded e
      ne found =
    let s = session_of (resolve (some (tmux_resolver text tmux ps)) reg r st).1 reg in
    rw (typed, decoded, register-rejected s existing now r e ne)
      (
        refl,
        refl,
        refl,
        resolve_and_map-IsMapped tmux ps reg.session_id (token_of reg.spawn_token) reg.pid r st
            (bytes reg.tmux_target) target pane found,
      )
