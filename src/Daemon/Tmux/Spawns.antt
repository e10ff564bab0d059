-- ===== src/Daemon/Tmux/Spawns.antt =====
-- Spawn: a new session at the request of an app. The random id and token, what tmux answers and
-- what ends the wait are arguments.
use pi_remote.Prelude.{
  ℕ, String, string_eq, Option, none, some, List, ◌++◌, insert, delete, if◌then◌else◌,
}
use pi_remote.Daemon.Registry.{Registry}
use pi_remote.Daemon.Tmux.Lines.{bytes}
use pi_remote.Daemon.Tmux.Panes.{new_session, kill_session, Tmux, Panes, log, ask, fails, map_pane}

-- Why a spawn fails; the text of the frame follows from it.
pub data Failure : Type 0 where
  no_uuid no_token tmux_failed no_pane not_registered : Failure

pub data Response : Type 0 where
  spawned : String → String → List ℕ → Response
  failed : String → Failure → Response

-- The extension registers with the token, ten seconds pass, or the context ends.
pub data Wait : Type 0 where
  registered : String → Registry → Wait
  timed_out cancelled : Wait

abbrev pub expect : String → ℕ → Panes → Panes
expect token ch st = record st { pending_spawns = insert token ch st.pending_spawns }

-- The deferred deletion.
abbrev pub forget_spawn : String → Panes → Panes
forget_spawn token st = record st { pending_spawns = delete token st.pending_spawns }

module _ (tmux : Tmux) (session_prefix cwd : String) (request_id : String) where
  abbrev pub mapped_spawn : String → List ℕ → Panes × Option (List ℕ) → Panes × Option Response
  mapped_spawn id target (st, none) = (st, some (failed request_id no_pane))
  mapped_spawn id target (st, some pane) = (st, some (spawned request_id id target))

  abbrev pub await : List ℕ → Wait → Panes → Panes × Option Response
  await name (registered id r) st =
      let target = name ++ bytes ":0.0" in mapped_spawn id target (map_pane tmux target id r st)
  await name timed_out st = (log (kill_session name) st, some (failed request_id not_registered))
  await name cancelled st = (st, none)

  abbrev pub launched : List ℕ → String → Wait → Panes → Panes × Option Response
  launched name token wait st =
      let cmd = new_session name cwd token in
      let st' = log cmd st in
      if fails (ask tmux cmd st)
      then (st', some (failed request_id tmux_failed))
      else await name wait st'

  abbrev pub with_token : List ℕ → ℕ → Wait → Panes → Option String → Panes × Option Response
  with_token name ch wait st none = (st, some (failed request_id no_token))
  with_token name ch wait st (some token) =
      let (st', response) = launched name token wait (expect token ch st) in
      (forget_spawn token st', response)

  -- The response that goes upstream, if one does.
  unfoldable pub spawn : Option String → Option String → ℕ → Wait → Panes → Panes × Option Response
  spawn none token ch wait st = (st, some (failed request_id no_uuid))
  spawn (some uuid) token ch wait st =
      with_token (bytes session_prefix ++ bytes uuid) ch wait st token
