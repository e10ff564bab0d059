-- ===== src/Daemon/Tmux/Escapes/Codes.antt =====
-- Which texts decode, and to what.
use pi_remote.Prelude.{
  ℕ, zero, suc, ◌+◌, ◌-◌, ◌*◌, ◌/◌, ◌%◌, ◌<◌, ◌≤◌, ◌≡◌, ◌≢◌, ◌↔◌, refl, sym, subst, ◌∙◌, Bool,
  Bool-cases, false, Option, Option-cases, none, some, List, [], ◌∷◌, ◌++◌, inl, inr, ◌&&◌, length,
  All, if◌then◌else◌, arith,
}
use native.Mathlib.Decide.{ℕ_discrete}
use pi_remote.Daemon.Tmux.Escapes.{
  backslash, is_octal, octal_value, emit, octal_at, escape_at, deescape_from, deescape_tmux,
}

abbrev pub Digit : ℕ → Type 0
Digit d = (48 ≤ d) × (d < 56)

-- A byte other than the backslash stands for itself; a backslash with another one behind it for a
-- backslash; and one with three octal digits for the byte that they write, modulo 256.
pub data Encodes : List ℕ → List ℕ → Type 0 where
  nothing : Encodes [] []
  plain : (c : ℕ) {s bs : List ℕ} → c ≢ backslash → Encodes s bs → Encodes (c ∷ s) (c ∷ bs)
  doubled :
      (c d : ℕ) {s bs : List ℕ}
      → c ≡ backslash
      → d ≡ backslash
      → Encodes s bs
      → Encodes (c ∷ d ∷ s) (d ∷ bs)
  octal :
      (c d e f b : ℕ) {s bs : List ℕ}
      → c ≡ backslash
      → Digit d × Digit e × Digit f
      → b ≡ (64 * (d - 48) + 8 * (e - 48) + (f - 48)) % 256
      → Encodes s bs
      → Encodes (c ∷ d ∷ e ∷ f ∷ s) (b ∷ bs)

escape_at_shorter :
    (s rest : List ℕ) (b : ℕ) → escape_at s ≡ some (b, rest) → length rest < length s
escape_at_shorter [] rest b e = cc
escape_at_shorter (d ∷ []) rest b e = ground arith
escape_at_shorter (d ∷ e ∷ []) rest b h = ground arith
escape_at_shorter (d ∷ e ∷ f ∷ s) rest b h = ground arith

pair_inv :
    (b b' : ℕ) (s s' : List ℕ)
    → ◌≡◌ {A = Option (ℕ × List ℕ)} (some (b, s)) (some (b', s'))
    → (b ≡ b') × (s ≡ s')
pair_inv b b' s s' e = (cc, cc)

octal-Encodes :
    (c d e f b : ℕ) (s rest bs : List ℕ)
    → c ≡ backslash
    → octal_at d (e ∷ f ∷ s) ≡ some (b, rest)
    → Encodes rest bs
    → Encodes (c ∷ d ∷ e ∷ f ∷ s) (b ∷ bs)
octal-Encodes c d e f b s rest bs eq h w =
    elim (Bool-cases (is_octal d && is_octal e && is_octal f)) [
      | inl digits ↦
          let (value, same) = pair_inv (octal_value d e f) b s rest (ground arith) in
          octal c d e f b eq (ground arith) (sym value ∙ omega arith)
            (subst (λ t. Encodes t bs) (sym same) w)
      | inr other ↦ absurd (ground arith)
    ]

escape_at-Encodes :
    (c b : ℕ) (s rest bs : List ℕ)
    → c ≡ backslash
    → escape_at s ≡ some (b, rest)
    → Encodes rest bs
    → Encodes (c ∷ s) (b ∷ bs)
escape_at-Encodes c b [] rest bs eq h w = cc
escape_at-Encodes c b (d ∷ s) rest bs eq h w = elim (ℕ_discrete d backslash) [
  | yes p ↦
      let (value, same) = pair_inv backslash b s rest (ground arith) in
      subst (λ x. Encodes (c ∷ d ∷ s) (x ∷ bs)) (p ∙ value)
        (doubled c d eq p (subst (λ t. Encodes t bs) (sym same) w))
  | no p ↦ behind s (ground arith)
]
  where
    behind : (s : List ℕ) → octal_at d s ≡ some (b, rest) → Encodes (c ∷ d ∷ s) (b ∷ bs)
    behind [] h = cc
    behind (e ∷ []) h = cc
    behind (e ∷ f ∷ s) h = octal-Encodes c d e f b s rest bs eq h w

emit_inv :
    (b : ℕ) (o : Option (List ℕ)) (bs : List ℕ)
    → emit b o ≡ some bs
    → (cs : List ℕ) × (o ≡ some cs) × (bs ≡ b ∷ cs)
emit_inv b none bs e = cc
emit_inv b (some cs) bs e = (cs, refl, cc)

deescape_from_plain :
    (n c : ℕ) (s : List ℕ)
    → c ≢ backslash
    → deescape_from (suc n) (c ∷ s) ≡ emit c (deescape_from n s)
unfolding deescape_from
deescape_from_plain n c s ne = ground arith

deescape_from_escaped :
    (n c b : ℕ) (s rest : List ℕ)
    → c ≡ backslash
    → escape_at s ≡ some (b, rest)
    → deescape_from (suc n) (c ∷ s) ≡ emit b (deescape_from n rest)
unfolding deescape_from
deescape_from_escaped n c b s rest e f = rw (e, deescape_from) (rw f)

deescape_from_invalid :
    (n c : ℕ) (s : List ℕ)
    → c ≡ backslash
    → escape_at s ≡ none
    → deescape_from (suc n) (c ∷ s) ≡ none
unfolding deescape_from
deescape_from_invalid n c s e f = rw (e, deescape_from) (rw f)

deescape_from-Encodes :
    (n : ℕ) (s bs : List ℕ) → length s ≤ n → deescape_from n s ≡ some bs → Encodes s bs
unfolding deescape_from
deescape_from-Encodes zero [] bs h e = subst (λ x. Encodes [] x) (cc) nothing
deescape_from-Encodes zero (c ∷ s) bs h e = absurd (omega arith)
deescape_from-Encodes (suc n) [] bs h e = subst (λ x. Encodes [] x) (cc) nothing
deescape_from-Encodes (suc n) (c ∷ s) bs h e = elim (ℕ_discrete c backslash) [
  | no ne ↦
      let (cs, f, g) = emit_inv c (deescape_from n s) bs (sym (deescape_from_plain n c s ne) ∙ e) in
      rw g (plain c ne (deescape_from-Encodes n s cs (omega arith) f))
  | yes eq ↦ elim (Option-cases (escape_at s)) [
    | inl f ↦ absurd (ground (arith, deescape_from_invalid n c s eq f))
    | inr ((b, rest), f) ↦
        let (cs, g, k) =
          emit_inv b (deescape_from n rest) bs
            (sym (deescape_from_escaped n c b s rest eq f) ∙ e) in
        rw k (
          escape_at-Encodes c b s rest cs eq f
            (deescape_from-Encodes n rest cs (omega (arith, escape_at_shorter s rest b f)) g))
  ]
]

Encodes-deescape_from :
    (n : ℕ) {s bs : List ℕ} → length s ≤ n → Encodes s bs → deescape_from n s ≡ some bs
unfolding deescape_from
Encodes-deescape_from zero h nothing = refl
Encodes-deescape_from zero h (plain c ne w) = absurd (omega arith)
Encodes-deescape_from zero h (doubled c d p q w) = absurd (omega arith)
Encodes-deescape_from zero h (octal c d e f b p q v w) = absurd (omega arith)
Encodes-deescape_from (suc n) h nothing = refl
Encodes-deescape_from (suc n) h (plain c {s} ne w) =
    rw (deescape_from_plain n c s ne, Encodes-deescape_from n (omega arith) w)
Encodes-deescape_from (suc n) h (doubled c d {s} p q w) = rw (
  deescape_from_escaped n c d (d ∷ s) s p (ground arith),
  Encodes-deescape_from n (omega arith) w,
)
Encodes-deescape_from (suc n) h (octal c d e f b {s} p q v w) = rw (
  deescape_from_escaped n c b (d ∷ e ∷ f ∷ s) s p (ground arith),
  Encodes-deescape_from n (omega arith) w,
)

-- `DeescapeTmux` succeeds with `bs` exactly if the text encodes `bs`.
pub deescape_tmux-Encodes : (s bs : List ℕ) → (deescape_tmux s ≡ some bs) ↔ Encodes s bs
unfolding deescape_tmux
deescape_tmux-Encodes s bs = (
  λ e. deescape_from-Encodes (length s) s bs (omega arith) e,
  λ w. Encodes-deescape_from (length s) (omega arith) w,
)

module _ (keep : ℕ → Bool) where
  -- tmux writes a byte as it is, or as a backslash with three octal digits.
  abbrev pub escape_byte : ℕ → List ℕ
  escape_byte b =
      if keep b then b ∷ [] else backslash ∷ (48 + b / 64) ∷ (48 + b / 8 % 8) ∷ (48 + b % 8) ∷ []

  abbrev pub escape : List ℕ → List ℕ
  escape [] = []
  escape (b ∷ bs) = escape_byte b ++ escape bs

  pub escape-Encodes :
      (bs : List ℕ) → keep backslash ≡ false → All (λ b. b < 256) bs → Encodes (escape bs) bs
  escape-Encodes [] k h = nothing
  escape-Encodes (b ∷ bs) k (lt, h) = elim (Bool-cases (keep b)) [
    | inl e ↦ rw e (plain b (λ eq. ground arith) (escape-Encodes bs k h))
    | inr e ↦ rw e (
        octal backslash (48 + b / 64) (48 + b / 8 % 8) (48 + b % 8) b refl (omega arith)
          (omega arith) (escape-Encodes bs k h))
  ]

  -- What tmux writes for some bytes decodes to these bytes, whichever bytes it leaves as they are and
  -- whichever it writes in octal, the backslash among them.
  pub deescape_tmux-escape :
      (bs : List ℕ)
      → keep backslash ≡ false
      → All (λ b. b < 256) bs
      → deescape_tmux (escape bs) ≡ some bs
  deescape_tmux-escape bs k h = (deescape_tmux-Encodes (escape bs) bs).1 (escape-Encodes bs k h)
