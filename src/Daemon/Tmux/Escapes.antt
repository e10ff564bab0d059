-- ===== src/Daemon/Tmux/Escapes.antt =====
-- DeescapeTmux: the bytes of a pane, as tmux writes them into a notification.
pub mod Codes
use pi_remote.Prelude.{
  ℕ, zero, suc, ◌+◌, ◌-◌, ◌*◌, ◌%◌, Bool, true, false, ◌&&◌, Option, none, some, List, [], ◌∷◌, leb,
  ◌==◌, length, if◌then◌else◌,
}

abbrev pub backslash : ℕ
backslash = 92

abbrev pub is_octal : ℕ → Bool
is_octal c = leb 48 c && leb c 55

-- Go's arithmetic on bytes wraps around.
abbrev pub octal_value : ℕ → ℕ → ℕ → ℕ
octal_value d e f = ((d - 48) * 64 + (e - 48) * 8 + (f - 48)) % 256

abbrev pub emit : ℕ → Option (List ℕ) → Option (List ℕ)
emit b none = none
emit b (some bs) = some (b ∷ bs)

abbrev pub octal_at : ℕ → List ℕ → Option (ℕ × List ℕ)
octal_at d [] = none
octal_at d (e ∷ []) = none
octal_at d (e ∷ f ∷ s) =
    if is_octal d && is_octal e && is_octal f then some (octal_value d e f, s) else none

-- What stands behind a backslash: the byte that is meant, and the rest.
abbrev pub escape_at : List ℕ → Option (ℕ × List ℕ)
escape_at [] = none
escape_at (d ∷ s) = if d == backslash then some (backslash, s) else octal_at d s

-- The loop over the index, whose rounds the length bounds.
unfoldable pub deescape_from : ℕ → List ℕ → Option (List ℕ)
deescape_from zero s = some []
deescape_from (suc n) [] = some []
deescape_from (suc n) (c ∷ s) = elim (c == backslash) [
  | true ↦ elim (escape_at s) [ none ↦ none | some (b, rest) ↦ emit b (deescape_from n rest) ]
  | false ↦ emit c (deescape_from n s)
]

-- `none` stands for the error.
unfoldable pub deescape_tmux : List ℕ → Option (List ℕ)
unfolding deescape_from
deescape_tmux s = deescape_from (length s) s
