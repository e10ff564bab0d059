-- ===== src/Daemon/Client.antt =====
-- pi-remote-daemon/internal/coordinator/client.go: the loop that connects to the coordinator again
-- and again. Each round is given by what its connection and its sleep come to; durations are in
-- nanoseconds.
pub mod Backoff
use pi_remote.Prelude.{ℕ, ◌*◌, ◌^◌, List, [], ◌∷◌, ltb, if◌then◌else◌}

abbrev pub second : ℕ
second = 1000000000

abbrev pub backoff_initial : ℕ
backoff_initial = second

abbrev pub backoff_max : ℕ
backoff_max = 60 * second

unfoldable pub next_backoff : ℕ → ℕ
next_backoff cur = let next = cur * 2 in if ltb backoff_max next then backoff_max else next

-- One round of the loop: the context is cancelled before or in the connection; the connection
-- ends, and the context is cancelled in the sleep; the connection ends, be it refused or after
-- any time of service, and the sleep too.
pub data Round : Type 0 where
  cancelled : Round
  cancelled_asleep : Round
  refused : Round
  served : ℕ → Round

-- The sleeps that `Run` begins, from a first backoff on.
unfoldable pub run : ℕ → List Round → List ℕ
run backoff [] = []
run backoff (cancelled ∷ rounds) = []
run backoff (cancelled_asleep ∷ rounds) = backoff ∷ []
run backoff (refused ∷ rounds) = backoff ∷ run (next_backoff backoff) rounds
run backoff (served time ∷ rounds) = backoff ∷ run (next_backoff backoff) rounds
