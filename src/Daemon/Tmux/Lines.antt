-- ===== src/Daemon/Tmux/Lines.antt =====
-- The standard library's string functions that the client uses, on lists of bytes.
use Prim.Native.Char.{code}
use Prim.Native.String as Text
use pi_remote.Prelude.{
  ℕ, zero, suc, ◌≡◌, refl, ◌↔◌, String, Bool, true, false, ◌&&◌, Eq, List, [], ◌∷◌, ◌++◌, ◌==◌,
  if◌then◌else◌, arith,
}

abbrev pub bytes : String → List ℕ
bytes Text.[] = []
bytes (Text.◌∷◌ c s) = code c ∷ bytes s

abbrev pub space : ℕ
space = 32

abbrev pub same : List ℕ → List ℕ → Bool
same [] [] = true
same [] (y ∷ ys) = false
same (x ∷ xs) [] = false
same (x ∷ xs) (y ∷ ys) = (x == y) && same xs ys

pub same_iff : (xs ys : List ℕ) → (same xs ys ≡ true) ↔ (xs ≡ ys)
same_iff [] [] = (λ e. refl, λ e. refl)
same_iff [] (y ∷ ys) = (λ e. cc, λ e. cc)
same_iff (x ∷ xs) [] = (λ e. cc, λ e. cc)
same_iff (x ∷ xs) (y ∷ ys) = ground (arith, same_iff xs ys)

instance abbrev pub line_eq : Eq (List ℕ)
line_eq = record { beq = same; beq_iff = same_iff }

abbrev pub to_first : ℕ → List (List ℕ) → List (List ℕ)
to_first c [] = (c ∷ []) ∷ []
to_first c (piece ∷ pieces) = (c ∷ piece) ∷ pieces

-- strings.SplitN at the space, with one piece more than cuts.
abbrev pub split_n : ℕ → List ℕ → List (List ℕ)
split_n zero s = s ∷ []
split_n (suc n) [] = [] ∷ []
split_n (suc n) (c ∷ s) =
    let after = split_n n s in
    let more = split_n (suc n) s in if c == space then [] ∷ after else to_first c more

-- strings.Split at the space.
abbrev pub split_all : List ℕ → List (List ℕ)
split_all [] = [] ∷ []
split_all (c ∷ s) = let more = split_all s in if c == space then [] ∷ more else to_first c more

-- strings.Join with a line feed.
abbrev pub join_lines : List (List ℕ) → List ℕ
join_lines [] = []
join_lines (l ∷ []) = l
join_lines (l ∷ k ∷ ls) = l ++ 10 ∷ join_lines (k ∷ ls)
