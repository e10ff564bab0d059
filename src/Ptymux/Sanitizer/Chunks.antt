-- ===== src/Ptymux/Sanitizer/Chunks.antt =====
-- The filter does not depend on how its input is cut.
use pi_remote.Prelude.{
  ℕ, ◌≡◌, refl, sym, ap, ◌∙◌, inl, inr, Bool, true, false, not, ◌&&◌, List, [], ◌∷◌, ◌++◌, ◌==◌,
  Bool-cases, append_assoc,
}
use pi_remote.Ptymux.Sanitizer.{
  Sanitizer, SanState, normal, after_esc, osc_num, osc_num_esc, drop_title, drop_esc, pass_osc,
  pass_osc_esc, esc, contains_esc, step_in, run, is_normal, settle, sanitize,
}

-- Between two calls nothing is held back in the normal state.
abbrev pub IsSettled : Sanitizer → Type 0
IsSettled s = is_normal s.state ≡ true → s.pending ≡ []

-- The loop without the fast path.
abbrev pub full : List ℕ → Sanitizer → List ℕ × Sanitizer
full b s = ((run b s).0, settle (run b s).1)

-- Two calls in a row.
abbrev pub twice : List ℕ → List ℕ → Sanitizer → List ℕ × Sanitizer
twice xs ys s =
    let (out, s') = sanitize xs s in let (out', s'') = sanitize ys s' in (out ++ out', s'')

run-append :
    (xs ys : List ℕ) (s : Sanitizer)
    → run (xs ++ ys) s ≡ ((run xs s).0 ++ (run ys (run xs s).1).0, (run ys (run xs s).1).1)
unfolding run
run-append [] ys s = refl
run-append (c ∷ xs) ys s =
    let (out, s') = step_in s.state c s.pending s.param in
    rw (run-append xs ys s') (rw (append_assoc out (run xs s').0 (run ys (run xs s').1).0))

abbrev pub held : SanState → List ℕ → List ℕ → Sanitizer
held state pending param = record { state = state; pending = pending; param = param }

settle-IsSettled : (s : Sanitizer) → IsSettled (settle s)
settle-IsSettled s = elim (Bool-cases (is_normal s.state)) [
  | inl e ↦ rw e (λ t. refl)
  | inr e ↦ rw e (λ t. cc)
]

full_forgets :
    (b pending param : List ℕ) → full b (held normal [] param) ≡ full b (held normal pending param)
unfolding run step_in
full_forgets [] pending param = refl
full_forgets (c ∷ b) pending param = elim (Bool-cases (c == esc)) [
  | inl e ↦ rw e
  | inr f ↦ rw f (ap (λ (z : List ℕ × Sanitizer). (c ∷ z.0, z.1)) (full_forgets b pending param))
]

-- What is held back in the normal state is never read.
full-settle : (b : List ℕ) (s : Sanitizer) → full b (settle s) ≡ full b s
full-settle b s = go s.state s.pending s.param
  where
    go : (st : SanState) (p q : List ℕ) → full b (settle (held st p q)) ≡ full b (held st p q)
    go normal p q = full_forgets b p q
    go after_esc p q = refl
    go osc_num p q = refl
    go osc_num_esc p q = refl
    go drop_title p q = refl
    go drop_esc p q = refl
    go pass_osc p q = refl
    go pass_osc_esc p q = refl

pub run_plain :
    (b pending param : List ℕ)
    → contains_esc b ≡ false
    → run b (held normal pending param) ≡ (b, held normal pending param)
unfolding run step_in
run_plain [] pending param e = refl
run_plain (c ∷ b) pending param e = elim (Bool-cases (c == esc)) [
  | inl t ↦ absurd (cc (rw t at e))
  | inr f ↦
      rw f (ap (λ (z : List ℕ × Sanitizer). (c ∷ z.0, z.1)) (run_plain b pending param (rw f at e)))
]

both_true : (x y : Bool) → (x && not y) ≡ true → (x ≡ true) × (y ≡ false)
both_true true false e = (refl, refl)
both_true true true e = cc
both_true false y e = cc

fast_path :
    (b : List ℕ) (st : SanState) (p q : List ℕ)
    → is_normal st ≡ true
    → contains_esc b ≡ false
    → p ≡ []
    → (b, held st p q) ≡ full b (held st p q)
fast_path b normal p q n c e = rw (e, run_plain b [] q c)
fast_path b after_esc p q n c e = cc
fast_path b osc_num p q n c e = cc
fast_path b osc_num_esc p q n c e = cc
fast_path b drop_title p q n c e = cc
fast_path b drop_esc p q n c e = cc
fast_path b pass_osc p q n c e = cc
fast_path b pass_osc_esc p q n c e = cc

pub sanitize-full : (b : List ℕ) (s : Sanitizer) → IsSettled s → sanitize b s ≡ full b s
unfolding sanitize
sanitize-full b s t = elim (Bool-cases (is_normal s.state && not (contains_esc b))) [
  | inl e ↦
      let (n, c) = both_true (is_normal s.state) (contains_esc b) e in
      rw e (fast_path b s.state s.pending s.param n c (t n))
  | inr e ↦ rw e
]

-- A stream may be cut anywhere: filtering two pieces one after the other gives the bytes and the
-- state of filtering them at once, from a state that holds nothing back in its normal state.
pub sanitize-append :
    (xs ys : List ℕ) (s : Sanitizer) → IsSettled s → sanitize (xs ++ ys) s ≡ twice xs ys s
sanitize-append xs ys s t =
    let s' = (run xs s).1 in
    let second = sanitize-full ys (settle s') (settle-IsSettled s') ∙ full-settle ys s' in
    sanitize-full (xs ++ ys) s t
    ∙ ap (λ (z : List ℕ × Sanitizer). (z.0, settle z.1)) (run-append xs ys s)
    ∙ sym (rw (sanitize-full xs s t, second))
