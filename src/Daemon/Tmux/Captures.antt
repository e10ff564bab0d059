-- ===== src/Daemon/Tmux/Captures.antt =====
-- The goroutine of MapPane that captures the screen of a pane as its first output. `number_of` is
-- fmt.Sscanf with %d, which leaves 0 where there is no number.
use pi_remote.Prelude.{
  ℕ, zero, suc, ◌+◌, ◌/◌, ◌%◌, ltb, String, Option, none, some, List, [], ◌∷◌, ◌++◌, if◌then◌else◌,
}
use pi_remote.Daemon.Multiplex.{Link, Multiplex, send_pty}
use pi_remote.Daemon.Tmux.Lines.{bytes}
use pi_remote.Daemon.Tmux.Panes.{capture_pane, display_cursor, Tmux, Panes, log, ask, is_space}

abbrev pub escape : ℕ
escape = 27

abbrev pub to_field : ℕ → List (List ℕ) → List (List ℕ)
to_field c [] = (c ∷ []) ∷ []
to_field c (w ∷ ws) = (c ∷ w) ∷ ws

abbrev pub begin_field : List (List ℕ) → List (List ℕ)
begin_field [] = []
begin_field ([] ∷ ws) = [] ∷ ws
begin_field ((c ∷ w) ∷ ws) = [] ∷ (c ∷ w) ∷ ws

abbrev pub drop_empty : List (List ℕ) → List (List ℕ)
drop_empty [] = []
drop_empty ([] ∷ ws) = ws
drop_empty ((c ∷ w) ∷ ws) = (c ∷ w) ∷ ws

abbrev pub fields_from : List ℕ → List (List ℕ)
fields_from [] = []
fields_from (c ∷ s) =
    let rest = fields_from s in if is_space c then begin_field rest else to_field c rest

-- strings.Fields.
abbrev pub fields : List ℕ → List (List ℕ)
fields s = drop_empty (fields_from s)

-- The decimal form of a number, in front of a text; the number bounds its digits.
unfoldable pub decimal_from : ℕ → ℕ → List ℕ → List ℕ
decimal_from zero n s = s
decimal_from (suc f) n s =
    let s' = (b'0' + n % 10) ∷ s in
    let rest = decimal_from f (n / 10) s' in if ltb n 10 then s' else rest

abbrev pub decimal : ℕ → List ℕ
decimal n = decimal_from (suc n) n []

abbrev pub Cursor : Type 0
Cursor = ℕ × ℕ

module _ (number_of : List ℕ → ℕ) where
  abbrev pub cursor_in : List (List ℕ) → Cursor
  cursor_in (x ∷ y ∷ []) = (number_of x, number_of y)
  cursor_in _ = (0, 0)

  abbrev pub cursor_of : Option (List (List ℕ)) → Cursor
  cursor_of none = (0, 0)
  cursor_of (some []) = (0, 0)
  cursor_of (some (l ∷ ls)) = cursor_in (fields l)

  abbrev pub join_rows : List (List ℕ) → List ℕ
  join_rows [] = []
  join_rows (l ∷ []) = l
  join_rows (l ∷ k ∷ ls) = l ++ 13 ∷ 10 ∷ join_rows (k ∷ ls)

  -- The screen is cleared and written, and the cursor is set, counted from 1.
  unfoldable pub screen : List (List ℕ) → Cursor → List ℕ
  screen rows (x, y) =
      escape ∷ bytes "[2J"
      ++ (escape ∷ bytes "[H"
          ++ (join_rows rows
              ++ (escape ∷ b'[' ∷ decimal (y + 1) ++ (b';' ∷ decimal (x + 1) ++ b'H' ∷ []))))

  module _ (tmux : Tmux) (now : ℕ) (link : Link) where
    abbrev pub captured :
        List ℕ → String → Panes × Multiplex → Option (List (List ℕ)) → Panes × Multiplex
    captured pane id (st, m) none = (st, m)
    captured pane id (st, m) (some rows) =
        let cursor = cursor_of (ask tmux (display_cursor pane) st) in
        (log (display_cursor pane) st, (send_pty id (screen rows cursor) now link m).0)

    unfoldable pub capture : List ℕ → String → Panes × Multiplex → Panes × Multiplex
    capture pane id (st, m) =
        captured pane id (log (capture_pane pane) st, m) (ask tmux (capture_pane pane) st)
