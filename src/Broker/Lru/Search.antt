-- ===== src/Broker/Lru/Search.antt =====
-- The search for the session to shrink finds the candidate that was touched longest ago.
use pi_remote.Prelude.{
  ℕ, zero, suc, ◌+◌, ◌≤◌, ◌≡◌, refl, sym, ◌⊎◌, inl, inr, Bool, true, false, ◌&&◌, List, [], ◌∷◌,
  Option, none, some, arith, Bool-cases, At,
}
use pi_remote.Broker.Lru.{LruItem, is_candidate, is_earlier, find_best}

abbrev pub NoCandidate : ℕ → List LruItem → Type 0
NoCandidate floor_cap [] = Unit {0}
NoCandidate floor_cap (x ∷ xs) = (is_candidate floor_cap x ≡ false) × NoCandidate floor_cap xs

-- No candidate of the list was touched before time `t`.
abbrev pub NoneEarlier : ℕ → ℕ → List LruItem → Type 0
NoneEarlier floor_cap t [] = Unit {0}
NoneEarlier floor_cap t (x ∷ xs) =
    (is_candidate floor_cap x ≡ true → t ≤ x.last_touched) × NoneEarlier floor_cap t xs

-- The result of the search from index `i` on, when it has found nothing yet.
abbrev pub Found : ℕ → List LruItem → ℕ → Option (ℕ × LruItem) → Type 0
Found floor_cap xs i none = NoCandidate floor_cap xs
Found floor_cap xs i (some (j, x)) =
    (k : ℕ) × (j ≡ i + k)
    × At xs k x
    × (is_candidate floor_cap x ≡ true)
    × NoneEarlier floor_cap x.last_touched xs

-- The same when `(j₀, b)` has been found before.
abbrev Improved : ℕ → List LruItem → ℕ → ℕ → LruItem → Option (ℕ × LruItem) → Type 0
Improved floor_cap xs i j₀ b none = ⊥
Improved floor_cap xs i j₀ b (some (j, x)) =
    (((j ≡ j₀) × (x ≡ b)) ⊎ ((k : ℕ) × (j ≡ i + k) × At xs k x × (is_candidate floor_cap x ≡ true)))
    × (x.last_touched ≤ b.last_touched)
    × NoneEarlier floor_cap x.last_touched xs

improve_skip :
    (floor_cap : ℕ) (x : LruItem) (xs : List LruItem) (i j₀ : ℕ) (b : LruItem)
    (out : Option (ℕ × LruItem))
    → (is_candidate floor_cap x && is_earlier x (some (j₀, b))) ≡ false
    → Improved floor_cap xs (suc i) j₀ b out
    → Improved floor_cap (x ∷ xs) i j₀ b out
unfolding is_earlier
improve_skip floor_cap x xs i j₀ b none e h = h
improve_skip floor_cap x xs i j₀ b (some (j, y)) e (inl (p, q), le, rest) =
    (inl (p, q), le, (ground arith, rest))
improve_skip floor_cap x xs i j₀ b (some (j, y)) e (inr (k, p, at, c), le, rest) =
    (inr (suc k, omega arith, at, c), le, (ground arith, rest))

and_left : (a b : Bool) → (a && b) ≡ true → a ≡ true
and_left a b e = ground arith

improve_take :
    (floor_cap : ℕ) (x : LruItem) (xs : List LruItem) (i j₀ : ℕ) (b : LruItem)
    (out : Option (ℕ × LruItem))
    → (is_candidate floor_cap x && is_earlier x (some (j₀, b))) ≡ true
    → Improved floor_cap xs (suc i) i x out
    → Improved floor_cap (x ∷ xs) i j₀ b out
unfolding is_earlier
improve_take floor_cap x xs i j₀ b none e h = h
improve_take floor_cap x xs i j₀ b (some (j, y)) e (inl (p, q), le, rest) =
    (inr (zero, omega arith, sym q, rw q (and_left _ _ e)), ground arith, (λ _. le, rest))
improve_take floor_cap x xs i j₀ b (some (j, y)) e (inr (k, p, at, c), le, rest) =
    (inr (suc k, omega arith, at, c), ground arith, (λ _. le, rest))

find_best-Improved :
    (floor_cap : ℕ) (xs : List LruItem) (i j₀ : ℕ) (b : LruItem)
    → Improved floor_cap xs i j₀ b (find_best floor_cap xs i (some (j₀, b)))
unfolding find_best
find_best-Improved floor_cap [] i j₀ b = (inl (refl, refl), omega arith, tt)
find_best-Improved floor_cap (x ∷ xs) i j₀ b =
    elim (Bool-cases (is_candidate floor_cap x && is_earlier x (some (j₀, b)))) [
      | inl e ↦
          rw e
            (improve_take floor_cap x xs i j₀ b _ e (find_best-Improved floor_cap xs (suc i) i x))
      | inr e ↦
          rw e
            (improve_skip floor_cap x xs i j₀ b _ e (find_best-Improved floor_cap xs (suc i) j₀ b))
    ]

first-Found :
    (floor_cap : ℕ) (x : LruItem) (xs : List LruItem) (i : ℕ) (out : Option (ℕ × LruItem))
    → is_candidate floor_cap x ≡ true
    → Improved floor_cap xs (suc i) i x out
    → Found floor_cap (x ∷ xs) i out
first-Found floor_cap x xs i none c h = absurd h
first-Found floor_cap x xs i (some (j, y)) c (inl (p, q), le, rest) =
    (zero, omega arith, sym q, rw q c, (λ _. le, rest))
first-Found floor_cap x xs i (some (j, y)) c (inr (k, p, at, d), le, rest) =
    (suc k, omega arith, at, d, (λ _. le, rest))

later-Found :
    (floor_cap : ℕ) (x : LruItem) (xs : List LruItem) (i : ℕ) (out : Option (ℕ × LruItem))
    → is_candidate floor_cap x ≡ false
    → Found floor_cap xs (suc i) out
    → Found floor_cap (x ∷ xs) i out
later-Found floor_cap x xs i none c h = (c, h)
later-Found floor_cap x xs i (some (j, y)) c (k, p, at, d, rest) =
    (suc k, omega arith, at, d, (λ e. cc, rest))

-- The search returns the first of the candidates that were touched longest ago: none, if there is
-- no candidate, and otherwise an item of the list, with its index, that is a candidate and is not
-- touched later than any other candidate.
pub find_best-Found :
    (floor_cap : ℕ) (xs : List LruItem) (i : ℕ)
    → Found floor_cap xs i (find_best floor_cap xs i none)
unfolding find_best is_earlier
find_best-Found floor_cap [] i = tt
find_best-Found floor_cap (x ∷ xs) i = elim (Bool-cases (is_candidate floor_cap x)) [
  | inl e ↦ rw e (first-Found floor_cap x xs i _ e (find_best-Improved floor_cap xs (suc i) i x))
  | inr e ↦ rw e (later-Found floor_cap x xs i _ e (find_best-Found floor_cap xs (suc i)))
]
