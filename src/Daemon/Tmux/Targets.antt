-- ===== src/Daemon/Tmux/Targets.antt =====
-- The pane of a process that registers, and the target of what is written to a session.
use pi_remote.Prelude.{
  ℕ, zero, suc, ◌+◌, ◌*◌, ◌-◌, ◌^◌, String, str_eq, string_eq, Bool, true, false, ◌&&◌, ◌||◌, not,
  Option, none, some, List, [], ◌∷◌, ◌++◌, Map, lookup, ltb, leb, ◌==◌, if◌then◌else◌,
}
use pi_remote.Daemon.Registry as Registered
use pi_remote.Daemon.Registry.{Session, Registry}
use pi_remote.Daemon.Tmux.Lines.{bytes, same, split_all}
use pi_remote.Daemon.Tmux.Panes.{
  Command, list_panes, send_keys, resize_window, Tmux, Panes, log, ask, fails, map_pane,
}

-- What `ps` tells of a process: its terminal, and its parent, with `none` for an error.
pub record Processes : Type 0 where
  pub tty_of : ℕ → List ℕ
  pub parent_of : ℕ → Option ℕ

abbrev pub starts_with : List ℕ → List ℕ → Bool
starts_with [] s = true
starts_with (p ∷ ps) [] = false
starts_with (p ∷ ps) (c ∷ s) = (p == c) && starts_with ps s

abbrev pub has_suffix : List ℕ → List ℕ → Bool
has_suffix [] w = same [] w
has_suffix (c ∷ s) w = same (c ∷ s) w || has_suffix s w

abbrev pub digits_from : ℕ → List ℕ → Option ℕ
digits_from n [] = if ltb n (2 ^ 63) then some n else none
digits_from n (c ∷ s) =
    let rest = digits_from (n * 10 + (c - 48)) s in if leb 48 c && leb c 57 then rest else none

-- strconv.Atoi for a text that writes no negative number; a process has none.
abbrev pub atoi : List ℕ → Option ℕ
atoi [] = none
atoi (c ∷ []) = digits_from 0 (c ∷ [])
atoi (c ∷ d ∷ s) = if c == b'+' then digits_from 0 (d ∷ s) else digits_from 0 (c ∷ d ∷ s)

-- A line of list-panes: pane, terminal, process and target, and perhaps more parts.
pub data PaneLine : Type 0 where
  short : PaneLine
  parts : List ℕ → List ℕ → List ℕ → PaneLine

abbrev pub pane_line : List (List ℕ) → PaneLine
pane_line [] = short
pane_line (a ∷ []) = short
pane_line (a ∷ b ∷ []) = short
pane_line (a ∷ b ∷ c ∷ []) = short
pane_line (a ∷ b ∷ c ∷ d ∷ rest) = parts b c d

abbrev pub tty_matches : List ℕ → PaneLine → Option (List ℕ)
tty_matches tty short = none
tty_matches tty (parts t p target) = if has_suffix t tty then some target else none

abbrev pub member : Option ℕ → List ℕ → Bool
member none pids = false
member (some p) [] = false
member (some p) (q ∷ pids) = p == q || member (some p) pids

abbrev pub pid_matches : List ℕ → PaneLine → Option (List ℕ)
pid_matches pids short = none
pid_matches pids (parts t p target) = if member (atoi p) pids then some target else none

abbrev pub or_else : Option (List ℕ) → Option (List ℕ) → Option (List ℕ)
or_else none other = other
or_else (some target) other = some target

-- The loop over the lines: the first target that fits.
abbrev pub find_line : (PaneLine → Option (List ℕ)) → List (List ℕ) → Option (List ℕ)
find_line f [] = none
find_line f (l ∷ ls) = or_else (f (pane_line (split_all l))) (find_line f ls)

abbrev pub is_tty : List ℕ → Bool
is_tty tty = not (same tty []) && (not (same tty (bytes "?")) && not (same tty (bytes "??")))

module _ (tmux : Tmux) (ps : Processes) where
  -- The process and its parents, at most ten.
  abbrev pub ancestors : ℕ → ℕ → List ℕ
  ancestors zero pid = []
  ancestors (suc n) pid = pid ∷ elim (ps.parent_of pid) [
    | none ↦ []
    | some zero ↦ []
    | some (suc parent) ↦ ancestors n (suc parent)
  ]

  abbrev pub find_among : ℕ → Option (List (List ℕ)) → Option (List ℕ)
  find_among pid none = none
  find_among pid (some out) =
      let tty = ps.tty_of pid in
      let by_pid = find_line (pid_matches (ancestors 10 pid)) out in
      if is_tty tty then or_else (find_line (tty_matches tty) out) by_pid else by_pid

  unfoldable pub find_tmux_target_by_pid_or_tty : ℕ → Panes → Panes × Option (List ℕ)
  find_tmux_target_by_pid_or_tty pid st =
      (log list_panes st, find_among pid (ask tmux list_panes st))

  abbrev pub untmuxed : List ℕ
  untmuxed = bytes "untmuxed:0.0"

  abbrev pub notify : Option ℕ → String → Panes → Panes
  notify none id st = st
  notify (some ch) id st = record st { notified = st.notified ++ (ch, id) ∷ [] }

  abbrev pub map_resolved :
      List ℕ → String → String → Panes × Option (List ℕ) → Panes × Option (List ℕ × List ℕ)
  map_resolved target id token (st, none) = (st, none)
  map_resolved target id token (st, some pane) =
      let st' = if str_eq token "" then st else notify (lookup token st.pending_spawns) id st in
      (st', some (target, pane))

  abbrev pub resolved_as :
      String → String → Registry → Panes × Option (List ℕ) → Panes × Option (List ℕ × List ℕ)
  resolved_as id token r (st, none) = (st, none)
  resolved_as id token r (st, some target) =
      map_resolved target id token (map_pane tmux target id r st)

  unfoldable pub resolve_and_map :
      ℕ → List ℕ → String → String → Registry → Panes → Panes × Option (List ℕ × List ℕ)
  resolve_and_map pid input id token r st =
      if same input untmuxed
      then resolved_as id token r (find_tmux_target_by_pid_or_tty pid st)
      else resolved_as id token r (st, some input)

-- The first pane that the loop over the map meets with this session.
abbrev pub pane_of : String → Map (List ℕ) String → List ℕ
pane_of id [] = []
pane_of id ((pane, s) ∷ m) = let rest = pane_of id m in if str_eq s id then pane else rest

abbrev pub target_in : Option Session → Option (List ℕ)
target_in none = none
target_in (some s) = some (bytes s.tmux_target)

-- The target of what is written to a session: its pane, or what it registered with.
unfoldable pub target_of : String → Registry → Panes → Option (List ℕ)
target_of id r st =
    let pane = pane_of id st.pane_to_session in
    if same pane [] then target_in (Registered.get id r) else some pane

module _ (tmux : Tmux) (started : Bool) where
  -- The second part tells whether the call returns no error.
  abbrev pub run : Command → Panes → Panes × Bool
  run cmd st = (log cmd st, not (fails (ask tmux cmd st)))

  abbrev pub write_to : Option (List ℕ) → List ℕ → Panes → Panes × Bool
  write_to none keys st = (st, false)
  write_to (some target) keys st = run (send_keys target keys) st

  unfoldable pub write_pty : String → List ℕ → Registry → Panes → Panes × Bool
  write_pty id [] r st = (st, true)
  write_pty id (b ∷ keys) r st =
      if started then write_to (target_of id r st) (b ∷ keys) st else (st, false)

  abbrev pub resize_to : Option (List ℕ) → ℕ → ℕ → Panes → Panes × Bool
  resize_to none cols rows st = (st, false)
  resize_to (some target) cols rows st = run (resize_window target cols rows) st

  unfoldable pub resize_pty : String → ℕ → ℕ → Registry → Panes → Panes × Bool
  resize_pty id cols rows r st =
      if ltb cols 1 || ltb rows 1
      then (st, false)
      else if started
      then resize_to (target_of id r st) cols rows st
      else (st, false)
