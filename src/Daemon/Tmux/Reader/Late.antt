-- ===== src/Daemon/Tmux/Reader/Late.antt =====
-- A command that gives up before tmux replies.
use pi_remote.Prelude.{append-nil, ℕ, ◌≡◌, List, [], ◌∷◌, ◌++◌, All, length, arith}
use pi_remote.Daemon.Tmux.Reader.{Reader, scan}
use pi_remote.Daemon.Tmux.Reader.Commands.{remove_first, give_up}
use pi_remote.Daemon.Tmux.Reader.Replies.{Reply, IsReply, inputs_of, result, pair_up, scan-answers}

remove_first_head : (ch : ℕ) (chs : List ℕ) → remove_first ch (ch ∷ chs) ≡ chs
remove_first_head ch chs = ground arith

-- Where the oldest command gives up before tmux replies to it, its reply goes to the next one, and
-- every command behind it gets the reply of the one before.
pub give_up_shifts :
    (r : Reply) (rs : List Reply) (rd : Reader) (ch next : ℕ) (chs : List ℕ)
    → All IsReply (r ∷ rs)
    → length chs ≡ length rs
    → rd.client.pending_queue ≡ ch ∷ next ∷ chs
    → let c = (scan (inputs_of (r ∷ rs)) (record rd { client = give_up ch rd.client })).client in
      (c.answered ≡ rd.client.answered ++ (next, result r) ∷ pair_up chs rs)
      × (c.pending_queue ≡ [])
unfolding give_up
give_up_shifts r rs rd ch next chs w n e =
    scan-answers (r ∷ rs) (record rd { client = give_up ch rd.client }) (next ∷ chs) [] w
      (omega arith) (rw e (rw (remove_first_head ch (next ∷ chs)) (simp (append-nil))))
