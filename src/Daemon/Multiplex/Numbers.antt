-- ===== src/Daemon/Multiplex/Numbers.antt =====
-- The numbers of the frames of one session: how often each occurs.
use pi_remote.Prelude.{
  ℕ, ◌+◌, ◌≡◌, String, str_eq, ◌&&◌, List, [], ◌∷◌, ◌++◌, arith, ltb, leb, ◌==◌, if◌then◌else◌,
}
use pi_remote.Daemon.Multiplex.{
  Frame, session_started, session_event, session_ended, session_state_change, session_pty,
}

-- The numbers of a session's frames, in their order.
abbrev pub number_of : String → Frame → List ℕ
number_of id (session_started s machine_id hostname) = []
number_of id (session_event k n kind ts content) = if str_eq k id then n ∷ [] else []
number_of id (session_ended k n kind reason) = if str_eq k id then n ∷ [] else []
number_of id (session_state_change k n ts from to) = if str_eq k id then n ∷ [] else []
number_of id (session_pty k n b ts) = if str_eq k id then n ∷ [] else []

abbrev pub numbers : String → List Frame → List ℕ
numbers id [] = []
numbers id (f ∷ fs) = number_of id f ++ numbers id fs

abbrev pub count : ℕ → List ℕ → ℕ
count n [] = 0
count n (x ∷ xs) = (if x == n then 1 else 0) + count n xs

-- How many frames of the session carry the number.
abbrev pub carriers : String → ℕ → List Frame → ℕ
carriers id n fs = count n (numbers id fs)

-- One frame for each number from 1 to the last, none for any other.
abbrev pub allowed : ℕ → ℕ → ℕ
allowed last n = if ltb 0 n && leb n last then 1 else 0

count-append : (n : ℕ) (xs ys : List ℕ) → count n (xs ++ ys) ≡ count n xs + count n ys
count-append n [] ys = omega arith
count-append n (x ∷ xs) ys = omega (arith, count-append n xs ys)

pub carriers-cons :
    (id : String) (n : ℕ) (f : Frame) (fs : List Frame)
    → carriers id n (f ∷ fs) ≡ count n (number_of id f) + carriers id n fs
carriers-cons id n f fs = count-append n (number_of id f) (numbers id fs)

pub carriers-append :
    (id : String) (n : ℕ) (fs gs : List Frame)
    → carriers id n (fs ++ gs) ≡ carriers id n fs + carriers id n gs
carriers-append id n [] gs = omega arith
carriers-append id n (f ∷ fs) gs =
    omega
      (arith, carriers-cons id n f (fs ++ gs), carriers-cons id n f fs, carriers-append id n fs gs)

pub allowed_suc : (last n x : ℕ) → x ≡ last + 1 → allowed last n + count n (x ∷ []) ≡ allowed x n
allowed_suc last n x e = ground arith
