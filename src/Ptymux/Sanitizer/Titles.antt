-- ===== src/Ptymux/Sanitizer/Titles.antt =====
-- Which sequences the filter takes out.
use pi_remote.Prelude.{
  ℕ, ◌≡◌, ◌≢◌, refl, ap, ◌∙◌, true, false, List, [], ◌∷◌, ◌++◌, arith, ◌==◌, leb, ==_ne,
}
use pi_remote.Ptymux.Sanitizer.{
  Sanitizer, normal, drop_title, pass_osc, esc, bel, contains_esc, is_title_param, step_in, run,
  sanitize, new_sanitizer,
}
use pi_remote.Ptymux.Sanitizer.Chunks.{sanitize-full, run_plain}

-- No byte of the text ends a sequence.
abbrev pub IsText : List ℕ → Type 0
IsText [] = Unit {0}
IsText (c ∷ b) = (c ≢ bel) × (c ≢ esc) × IsText b

-- The sequence that sets a title: ESC ] parameter ; text BEL.
abbrev pub title_set : List ℕ → List ℕ → List ℕ
title_set param text = esc ∷ b']' ∷ param ++ b';' ∷ text ++ bel ∷ []

run_dropped :
    (text pending param : List ℕ)
    → IsText text
    → run (text ++ bel ∷ []) (record { state = drop_title; pending = pending; param = param })
      ≡ ([], record { state = normal; pending = pending; param = param })
unfolding run step_in
run_dropped [] pending param t = refl
run_dropped (c ∷ text) pending param (nb, ne, t) =
    rw (==_ne c bel nb, ==_ne c esc ne) (rw (run_dropped text pending param t))

run_passed :
    (text pending param : List ℕ)
    → IsText text
    → run (text ++ bel ∷ []) (record { state = pass_osc; pending = pending; param = param })
      ≡ (text ++ bel ∷ [], record { state = normal; pending = pending; param = param })
unfolding run step_in
run_passed [] pending param t = refl
run_passed (c ∷ text) pending param (nb, ne, t) =
    rw (==_ne c bel nb, ==_ne c esc ne) (rw (run_passed text pending param t))

title_digit : (d : ℕ) → is_title_param (d ∷ []) ≡ true → (leb b'0' d ≡ true) × (leb d b'9' ≡ true)
title_digit d e = (ground arith, ground arith)

-- A sequence with the parameter 0, 1 or 2 that comes to a new filter is taken out whole.
pub sanitize_title :
    (d : ℕ) (text : List ℕ)
    → is_title_param (d ∷ []) ≡ true
    → IsText text
    → (sanitize (title_set (d ∷ []) text) new_sanitizer).0 ≡ []
unfolding run step_in
sanitize_title d text e t =
    let (low, high) = title_digit d e in
    ap (λ (z : List ℕ × Sanitizer). z.0)
      (sanitize-full (title_set (d ∷ []) text) new_sanitizer (λ n. refl))
    ∙ rw (low, high, e, run_dropped text [] (d ∷ []) t)

-- The same number with a zero before it comes through the filter unchanged, as does the sequence
-- without a number: the filter tests the digits, not the number that they write.
pub sanitize_padded :
    (d : ℕ) (text : List ℕ)
    → is_title_param (d ∷ []) ≡ true
    → IsText text
    → ((sanitize (title_set (b'0' ∷ d ∷ []) text) new_sanitizer).0 ≡ title_set (b'0' ∷ d ∷ []) text)
      × ((sanitize (title_set [] text) new_sanitizer).0 ≡ title_set [] text)
unfolding run step_in
sanitize_padded d text e t =
    let (low, high) = title_digit d e in
    let whole = λ (b : List ℕ).
      ap (λ (z : List ℕ × Sanitizer). z.0) (sanitize-full b new_sanitizer (λ n. refl)) in
    (
      whole (title_set (b'0' ∷ d ∷ []) text)
          ∙ rw (low, high, run_passed text (esc ∷ b']' ∷ b'0' ∷ d ∷ []) (b'0' ∷ d ∷ []) t),
      whole (title_set [] text) ∙ rw (run_passed text (esc ∷ b']' ∷ []) [] t),
    )

plain_text : (text : List ℕ) → IsText text → contains_esc (text ++ bel ∷ []) ≡ false
plain_text [] t = refl
plain_text (c ∷ text) (nb, ne, t) = rw (==_ne c esc ne) (plain_text text t)

title_digit_plain : (d : ℕ) → is_title_param (d ∷ []) ≡ true → (d == esc) ≡ false
title_digit_plain d e = ground arith

-- A title-set sequence comes through the filter unchanged, if an unfinished sequence ESC ] 0 stands
-- right before it: its ESC ends the unfinished sequence, and its bracket is then plain text.
pub sanitize_nested :
    (d : ℕ) (text : List ℕ)
    → is_title_param (d ∷ []) ≡ true
    → IsText text
    → let b = esc ∷ b']' ∷ b'0' ∷ title_set (d ∷ []) text in (sanitize b new_sanitizer).0 ≡ b
unfolding run step_in
sanitize_nested d text e t =
    let b = esc ∷ b']' ∷ b'0' ∷ title_set (d ∷ []) text in
    ap (λ (z : List ℕ × Sanitizer). z.0) (sanitize-full b new_sanitizer (λ n. refl))
    ∙ rw (
      title_digit_plain d e,
      run_plain (text ++ bel ∷ []) (esc ∷ b']' ∷ b'0' ∷ []) (b'0' ∷ []) (plain_text text t),
    )
