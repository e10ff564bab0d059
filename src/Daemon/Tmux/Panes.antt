-- ===== src/Daemon/Tmux/Panes.antt =====
-- MapPane, ResolveAndMap, WritePty and ResizePty: which pane belongs to which session. What tmux
-- and `ps` answer is a parameter; a command is its format with the arguments. The goroutine that
-- captures the screen is recorded, as is a send to the channel of a spawn; the multiplex is set.

pub mod Live
use pi_remote.Prelude.{
  ℕ, zero, suc, ◌+◌, ◌*◌, ◌-◌, ◌^◌, String, str_eq, string_eq, Bool, true, false, not, ◌&&◌, ◌||◌,
  Option, none, some, List, [], ◌∷◌, ◌++◌, Map, lookup, insert, delete, ltb, leb, ◌==◌,
  if◌then◌else◌,
}
use pi_remote.Daemon.Registry as Registered
use pi_remote.Daemon.Registry.{Session, Registry}
use pi_remote.Daemon.Tmux.Lines.{bytes, same, line_eq}

pub data Command : Type 0 where
  capture_pane display_cursor display_pane display_window unlink_window kill_window link_window :
      List ℕ → Command
  list_windows list_panes : Command
  new_session : List ℕ → String → String → Command
  kill_session : List ℕ → Command
  send_keys : List ℕ → List ℕ → Command
  resize_window : List ℕ → ℕ → ℕ → Command

-- `none` is an error; an answer may depend on all the commands before.
abbrev pub Tmux : Type 0
Tmux = List Command → Command → Option (List (List ℕ))

pub record Panes : Type 0 where
  pub pane_to_session : Map (List ℕ) String
  pub pending_spawns : Map String ℕ
  pub issued : List Command
  pub captures : List (List ℕ × String)
  pub notified : List (ℕ × String)

abbrev pub is_space : ℕ → Bool
is_space c = c == 32 || (leb 9 c && leb c 13)

abbrev pub trim_left : List ℕ → List ℕ
trim_left [] = []
trim_left (c ∷ s) = let rest = trim_left s in if is_space c then rest else c ∷ s

abbrev pub unless_blank : ℕ → List ℕ → List ℕ
unless_blank c [] = if is_space c then [] else c ∷ []
unless_blank c (d ∷ s) = c ∷ d ∷ s

abbrev pub trim_right : List ℕ → List ℕ
trim_right [] = []
trim_right (c ∷ s) = unless_blank c (trim_right s)

-- strings.TrimSpace.
abbrev pub trim_space : List ℕ → List ℕ
trim_space s = trim_right (trim_left s)

abbrev pub unless_empty : List ℕ → Option (List ℕ)
unless_empty [] = none
unless_empty (c ∷ s) = some (c ∷ s)

-- The first line of an answer, trimmed; `none` for an error and for an empty line.
abbrev pub first_line : Option (List (List ℕ)) → Option (List ℕ)
first_line none = none
first_line (some []) = none
first_line (some (l ∷ ls)) = unless_empty (trim_space l)

abbrev pub has_line : List ℕ → List (List ℕ) → Bool
has_line w [] = false
has_line w (l ∷ ls) = let rest = has_line w ls in if same (trim_space l) w then true else rest

abbrev pub already_linked : List ℕ → Option (List (List ℕ)) → Bool
already_linked w none = false
already_linked w (some ls) = has_line w ls

abbrev pub fails : Option (List (List ℕ)) → Bool
fails none = true
fails (some out) = false

abbrev pub log : Command → Panes → Panes
log cmd st = record st { issued = st.issued ++ cmd ∷ [] }

abbrev pub is_stored : Option Session → Bool
is_stored none = false
is_stored (some s) = true

-- The panes whose session is not in the registry.
abbrev pub dead_panes : Registry → Map (List ℕ) String → List (List ℕ)
dead_panes r [] = []
dead_panes r ((pane, id) ∷ m) =
    let rest = dead_panes r m in if is_stored (Registered.get id r) then rest else pane ∷ rest

abbrev pub forget : List ℕ → Panes → Panes
forget pane st = record st { pane_to_session = delete pane st.pane_to_session }

abbrev pub set_pane : List ℕ → String → Panes → Panes
set_pane pane id st = record st { pane_to_session = insert pane id st.pane_to_session }

module _ (tmux : Tmux) where
  abbrev pub ask : Command → Panes → Option (List (List ℕ))
  ask cmd st = tmux st.issued cmd

  abbrev pub unlink : Option (List ℕ) → Panes → Panes
  unlink none st = st
  unlink (some window) st =
      let st' = log (unlink_window window) st in
      if fails (ask (unlink_window window) st) then log (kill_window window) st' else st'

  unfoldable pub clean_pane : List ℕ → Panes → Panes
  clean_pane pane st =
      forget pane
        (unlink (first_line (ask (display_window pane) st)) (log (display_window pane) st))

  unfoldable pub clean_panes : List (List ℕ) → Panes → Panes
  clean_panes [] st = st
  clean_panes (pane ∷ panes) st = clean_panes panes (clean_pane pane st)

  abbrev pub link_pane : List ℕ → String → Option (List ℕ) → Panes → Panes
  link_pane pane id none st = st
  link_pane pane id (some window) st =
      let st' = log list_windows st in
      let linked = already_linked window (ask list_windows st) in
      let st'' = if linked then st' else log (link_window pane) st' in
      record st'' { captures = st''.captures ++ (pane, id) ∷ [] }

  abbrev pub map_found : String → Option (List ℕ) → Panes → Panes × Option (List ℕ)
  map_found id none st = (st, none)
  map_found id (some pane) st =
      let st' = set_pane pane id st in
      (
        link_pane pane id (first_line (ask (display_window pane) st'))
            (log (display_window pane) st'),
        some pane,
      )

  -- The pane of a target; `none` is an error.
  unfoldable pub map_pane : List ℕ → String → Registry → Panes → Panes × Option (List ℕ)
  map_pane target id r st =
      let st' = clean_panes (dead_panes r st.pane_to_session) st in
      map_found id (first_line (ask (display_pane target) st')) (log (display_pane target) st')
