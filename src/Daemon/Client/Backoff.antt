-- ===== src/Daemon/Client/Backoff.antt =====
-- The lengths of the sleeps between two connections.
use pi_remote.Prelude.{
  ℕ, suc, ◌+◌, ◌*◌, ◌^◌, ◌≡◌, refl, ap, ◌∙◌, List, [], ◌∷◌, arith, ltb, if◌then◌else◌,
}
use native.Mathlib.Nat.{pow-succ'}
use pi_remote.Daemon.Client.{
  second, backoff_initial, backoff_max, next_backoff, Round, cancelled, cancelled_asleep, refused,
  served, run,
}

-- 2^k seconds, and at most a minute.
abbrev pub sleep_at : ℕ → ℕ
sleep_at k = if ltb backoff_max (second * 2 ^ k) then backoff_max else second * 2 ^ k

-- The sleeps number `k`, `k + 1`, ..., as many as the list is long.
abbrev pub schedule {ℓ} : {A : Type ℓ} → ℕ → List A → List ℕ
schedule k [] = []
schedule k (_ ∷ xs) = sleep_at k ∷ schedule (k + 1) xs

power_next : (k : ℕ) → 2 ^ (k + 1) ≡ 2 * 2 ^ k
power_next k = let step : k + 1 ≡ suc k = omega arith in ap (λ n. 2 ^ n) step ∙ pow-succ' 2 k

next_backoff-sleep_at : (k : ℕ) → next_backoff (sleep_at k) ≡ sleep_at (k + 1)
unfolding next_backoff
next_backoff-sleep_at k = ground (arith, power_next k)

run_from :
    (k : ℕ) (rounds : List Round) → run (sleep_at k) rounds ≡ schedule k (run (sleep_at k) rounds)
unfolding run
run_from k [] = refl
run_from k (cancelled ∷ rounds) = refl
run_from k (cancelled_asleep ∷ rounds) = refl
run_from k (refused ∷ rounds) =
    rw (next_backoff-sleep_at k) (ap (λ xs. sleep_at k ∷ xs) (run_from (k + 1) rounds))
run_from k (served time ∷ rounds) =
    rw (next_backoff-sleep_at k) (ap (λ xs. sleep_at k ∷ xs) (run_from (k + 1) rounds))

-- The sleep number `k`, counted from 0, takes 2^k seconds, and at most a minute, whatever the
-- connections before it did: one that served for any time does not shorten the sleeps behind it.
pub run-schedule :
    (rounds : List Round) → run backoff_initial rounds ≡ schedule 0 (run backoff_initial rounds)
run-schedule rounds = run_from 0 rounds
