-- ===== src/Daemon/Tmux/Reader/Output.antt =====
-- What the output of a pane becomes upstream.
use pi_remote.Prelude.{
  ℕ, suc, ◌<◌, ◌≡◌, ◌≢◌, refl, String, Bool, Bool-cases, true, false, some, List, [], ◌∷◌, ◌++◌,
  All, lookup, ◌==◌, ==_ne, inl, inr, if◌then◌else◌, arith,
}
use pi_remote.Daemon.Multiplex.{Link}
use pi_remote.Daemon.Tmux.Lines.{bytes, space, split_n, line_eq}
use pi_remote.Daemon.Tmux.Escapes.{backslash}
use pi_remote.Daemon.Tmux.Escapes.Codes.{escape, deescape_tmux-escape}
use pi_remote.Daemon.Tmux.Reader.{
  Reader, notice_of, output, forward, handle_output_notification, step,
}

-- What stands before the first space.
abbrev pub word : List ℕ → List ℕ
word [] = []
word (c ∷ s) = let rest = word s in if c == space then [] else c ∷ rest

split_n-word : (n : ℕ) (s : List ℕ) → (rest : List (List ℕ)) × (split_n (suc n) s ≡ word s ∷ rest)
split_n-word n [] = ([], refl)
split_n-word n (c ∷ s) = elim (Bool-cases (c == space)) [
  | inl e ↦ (split_n n s, rw e)
  | inr e ↦ let (rest, f) = split_n-word n s in (rest, rw (e, f))
]

split_n-append :
    (n : ℕ) (p s : List ℕ)
    → All (λ c. c ≢ space) p
    → split_n (suc n) (p ++ space ∷ s) ≡ p ∷ split_n n s
split_n-append n [] s h = refl
split_n-append n (c ∷ p) s (ne, h) = rw (==_ne c space ne, split_n-append n p s h)

module _ (keep : ℕ → Bool) (spaces : keep space ≡ true) where
  word-escape : (bs : List ℕ) → word (escape keep bs) ≡ escape keep (word bs)
  word-escape [] = refl
  word-escape (b ∷ bs) = elim (Bool-cases (keep b)) [
    | inl e ↦ rw e (ground (arith, word-escape bs))
    | inr e ↦ ground (arith, word-escape bs)
  ]

All-word : (P : ℕ → Type 0) (bs : List ℕ) → All P bs → All P (word bs)
All-word P [] h = tt
All-word P (b ∷ bs) (p, h) = elim (Bool-cases (b == space)) [
  | inl e ↦ rw e tt
  | inr e ↦ rw e (p, All-word P bs h)
]

abbrev pub output_line : List ℕ → List ℕ → List ℕ
output_line pane escaped = bytes "%output" ++ space ∷ (pane ++ space ∷ escaped)

notice_of-output_line :
    (pane s : List ℕ)
    → All (λ c. c ≢ space) pane
    → notice_of (output_line pane s) ≡ output pane (word s)
unfolding notice_of
notice_of-output_line pane s h =
    let (rest, e) = split_n-word 0 s in rw (split_n-append 1 pane s h) (rw e)

-- Where tmux leaves the space as it is and writes the backslash in octal, what the pane of a session
-- writes is forwarded up to its first space; the rest is lost.
pub step-output :
    (keep : ℕ → Bool) (pane bs : List ℕ) (id : String) (now : ℕ) (link : Link) (rd : Reader)
    → keep space ≡ true
    → keep backslash ≡ false
    → All (λ c. c ≢ space) pane
    → All (λ b. b < 256) bs
    → lookup pane rd.client.pane_to_session ≡ some id
    → step (record { now = now; link = link; line = output_line pane (escape keep bs) }) rd
      ≡ record rd { client = forward id (word bs) now link rd.client }
unfolding step handle_output_notification
step-output keep pane bs id now link rd spaces slashes plain small found = rw (
  notice_of-output_line pane (escape keep bs) plain,
  found,
  word-escape keep spaces bs,
  deescape_tmux-escape keep (word bs) slashes (All-word (λ b. b < 256) bs small),
)
