-- ===== src/Daemon/Tmux/Requests.antt =====
-- What becomes of a spawn request.
use pi_remote.Prelude.{
  ◌≡◌, ℕ, refl, ◌∙◌, String, string_eq, eq_iff, Option, none, some, List, ◌++◌, lookup,
  lookup-delete, if_rule,
}
use pi_remote.Daemon.Tmux.Panes.{Tmux, Panes, map_pane, ask, fails, log, new_session}
use pi_remote.Daemon.Tmux.Lines.{bytes}
use pi_remote.Daemon.Tmux.Spawns.{
  Response, spawned, failed, Wait, registered, timed_out, cancelled, mapped_spawn, await, launched,
  expect, spawn,
}

abbrev pub request_of : Response → String
request_of (spawned request id target) = request
request_of (failed request why) = request

-- A response names the request; none is sent only if the context ends in the wait.
abbrev pub Answers : String → Wait → Option Response → Type 0
Answers request wait none = wait ≡ cancelled
Answers request wait (some response) = request_of response ≡ request

module _ (tmux : Tmux) (session_prefix cwd request : String) where
  await-Answers :
      (name : List ℕ) (wait : Wait) (st : Panes)
      → Answers request wait (await tmux session_prefix cwd request name wait st).1
  await-Answers name (registered id r) st =
      let target = name ++ bytes ":0.0" in mapped target (map_pane tmux target id r st)
    where
      mapped :
          (target : List ℕ) (q : Panes × Option (List ℕ))
          → Answers request
              (registered id r)
              (mapped_spawn tmux session_prefix cwd request id target q).1
      mapped target (st', none) = refl
      mapped target (st', some pane) = refl
  await-Answers name timed_out st = refl
  await-Answers name cancelled st = refl

  -- Every spawn request is answered once, with its own id, unless the context ends in the wait; and
  -- afterwards its token is not waited for any more.
  pub spawn-Answers :
      (uuid : Option String) (token : String) (ch : ℕ) (wait : Wait) (st : Panes)
      → lookup token st.pending_spawns ≡ none
      → let q = spawn tmux session_prefix cwd request uuid (some token) ch wait st in
        Answers request wait q.1 × (lookup token q.0.pending_spawns ≡ none)
  unfolding spawn
  spawn-Answers none token ch wait st fresh = (refl, fresh)
  spawn-Answers (some uuid) token ch wait st fresh =
      let name = bytes session_prefix ++ bytes uuid in
      let st' = expect token ch st in
      let launch = launched tmux session_prefix cwd request name token wait st' in
      (
        if_rule (λ (q : Panes × Option Response). Answers request wait q.1)
            (fails (ask tmux (new_session name cwd token) st')) _ _ refl
            (await-Answers name wait (log (new_session name cwd token) st')),
        lookup-delete token token launch.0.pending_spawns ∙ rw ((eq_iff token token).1 refl),
      )
