-- ===== src/Daemon/Tmux/Reader/Issued.antt =====
-- Commands from their issue to their reply.
use pi_remote.Prelude.{ℕ, true, List, [], ◌∷◌}
use pi_remote.Daemon.Tmux.Reader.{Client}
use pi_remote.Daemon.Tmux.Reader.Commands.{issue}

-- Commands that are issued one after the other, while tmux takes them.
abbrev pub issue_all : List ℕ → Client → Client
issue_all [] c = c
issue_all (ch ∷ chs) c = issue_all chs (issue ch true true c).0
