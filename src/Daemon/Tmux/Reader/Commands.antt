-- ===== src/Daemon/Tmux/Reader/Commands.antt =====
-- RunCommand: what it does to the queue before tmux answers, and when it gives up.
use pi_remote.Prelude.{ℕ, Bool, true, false, List, [], ◌∷◌, ◌++◌, Map, ◌==◌, if◌then◌else◌}
use pi_remote.Daemon.Tmux.Reader.{Client}

abbrev pub remove_first : ℕ → List ℕ → List ℕ
remove_first ch [] = []
remove_first ch (q ∷ queue) =
    let rest = remove_first ch queue in if q == ch then queue else q ∷ rest

abbrev pub delete_value : ℕ → Map (List ℕ) ℕ → Map (List ℕ) ℕ
delete_value ch [] = []
delete_value ch ((id, q) ∷ m) =
    let rest = delete_value ch m in if q == ch then m else (id, q) ∷ rest

abbrev pub drop_queued : ℕ → Client → Client
drop_queued ch c = record c { pending_queue = remove_first ch c.pending_queue }

-- The first step, under the mutex: the new channel `ch` is queued, if the input of tmux is open.
abbrev pub queue_command : ℕ → Bool → Client → Client × Bool
queue_command ch started c =
    if started then (record c { pending_queue = c.pending_queue ++ ch ∷ [] }, true) else (c, false)

-- The second, without it: tmux takes the command, or the channel is dropped.
abbrev pub write_command : ℕ → Bool → Client → Client × Bool
write_command ch written c = if written then (c, true) else (drop_queued ch c, false)

-- The two steps of one call with no step of another between them: the flag tells whether the caller
-- waits for an answer. Calls that interleave may reach tmux in another order than the queue's.
unfoldable pub issue : ℕ → Bool → Bool → Client → Client × Bool
issue ch started written c =
    let (queued, waits) = queue_command ch started c in
    if waits then write_command ch written queued else (queued, false)

-- No answer came within ten seconds.
unfoldable pub give_up : ℕ → Client → Client
give_up ch c = record (drop_queued ch c) { pending_cmds = delete_value ch c.pending_cmds }
