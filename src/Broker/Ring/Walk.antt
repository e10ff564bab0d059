-- ===== src/Broker/Ring/Walk.antt =====
-- Walks along the circular slice: the entries from one index up to another, in order.
use pi_remote.Prelude.{
  ℕ, zero, suc, ◌+◌, ◌-◌, ◌%◌, ◌≤◌, ◌<◌, ◌≡◌, ◌≢◌, refl, sym, ap, ap₂, ◌∙◌, List, [], ◌∷◌, ◌++◌,
  arith, length, get_or, set, take, leb, ◌==◌, if◌then◌else◌, get_or-set_ne, get_or-set_self,
  take-get_or,
}

module _ {ℓ} {A : Type ℓ} (d : A) where
  -- `k` entries from index `t` on, around a slice of size `n`.
  abbrev pub walk : List A → ℕ → ℕ → ℕ → List A
  walk es n t zero = []
  walk es n t (suc k) = get_or es t d ∷ walk es n ((t + 1) % n) k

-- How many steps lead from index `t` to index `h`.
abbrev pub gap : ℕ → ℕ → ℕ → ℕ
gap n t h = if leb t h then h - t else h + n - t

pub next_lem : (n t : ℕ) → t < n → (t + 1) % n ≡ (if t + 1 == n then 0 else t + 1)
next_lem n t h = grind arith

pub gap-next : (n t h k : ℕ) → t < n → h < n → gap n t h ≡ suc k → gap n ((t + 1) % n) h ≡ k
gap-next n t h k p q e = ground (arith, next_lem n t)

pub next_lt : (n t : ℕ) → t < n → (t + 1) % n < n
next_lt n t h = ground (arith, next_lem n t)

pub gap_lt : (n t h : ℕ) → t < n → h < n → gap n t h < n
gap_lt n t h p q = ground arith

pub gap_from_zero : (n h : ℕ) → gap n 0 h ≡ h
gap_from_zero n h = ground arith

pub gap_next_head :
    (n t h : ℕ) → t < n → h < n → (h + 1) % n ≢ t → gap n t ((h + 1) % n) ≡ suc (gap n t h)
gap_next_head n t h p q ne = ground (arith, next_lem n h)

pub gap_self : (n h t : ℕ) → h ≡ t → ¬ (0 < gap n t h)
gap_self n h t e lt = ground arith

pub gap_eq : (n t h : ℕ) → t ≡ h → gap n t h ≡ 0
gap_eq n t h e = ground arith

pub gap_ne : (n t h : ℕ) → t < n → h < n → t ≢ h → gap n t h ≡ suc (gap n ((t + 1) % n) h)
gap_ne n t h p q ne = ground (arith, next_lem n t)

pub gap_zero : (n t h : ℕ) → t < n → h < n → gap n t h ≡ 0 → t ≡ h
gap_zero n t h p q e = ground arith

module _ {ℓ} {A : Type ℓ} (d : A) where
  -- A write at the end of a walk does not change it.
  pub walk-set :
      (es : List A) (n h : ℕ) (v : A) (k t : ℕ)
      → t < n
      → h < n
      → k ≤ gap n t h
      → walk d (set es h v) n t k ≡ walk d es n t k
  walk-set es n h v zero t p q le = refl
  walk-set es n h v (suc k) t p q le =
      ap₂ ◌∷◌ (get_or-set_ne es h t v d (λ e. gap_self n h t e (omega arith))) (
        walk-set es n h v k ((t + 1) % n) (next_lt n t p) q
          (omega (arith, gap-next n t h (gap n t h - 1) p q (omega arith))))

  pub walk-snoc :
      (es : List A) (n h k t : ℕ)
      → t < n
      → h < n
      → gap n t h ≡ k
      → walk d es n t (suc k) ≡ walk d es n t k ++ get_or es h d ∷ []
  walk-snoc es n h zero t p q e = rw (gap_zero n t h p q e)
  walk-snoc es n h (suc k) t p q e =
      ap (◌∷◌ (get_or es t d))
        (walk-snoc es n h k ((t + 1) % n) (next_lt n t p) q (gap-next n t h k p q e))

  pub walk-take : (es : List A) (n k : ℕ) → length es ≡ n → k ≤ n → walk d es n 0 k ≡ take k es
  walk-take es n zero e le = refl
  walk-take es n (suc k) e le =
      walk-snoc es n k k 0 (omega arith) le (ground arith)
      ∙ ap (λ xs. xs ++ get_or es k d ∷ []) (walk-take es n k e (omega arith))
      ∙ sym (take-get_or k es d (omega (arith, e)))

  pub walk_empty : (es : List A) (n t h : ℕ) → t ≡ h → walk d es n t (gap n t h) ≡ []
  walk_empty es n t h e = ap (walk d es n t) (gap_eq n t h e)

  pub walk_unfold :
      (es : List A) (n t h : ℕ)
      → t < n
      → h < n
      → t ≢ h
      → walk d es n t (gap n t h)
        ≡ get_or es t d ∷ walk d es n ((t + 1) % n) (gap n ((t + 1) % n) h)
  walk_unfold es n t h p q ne = ap (walk d es n t) (gap_ne n t h p q ne)

  -- A write at the end, and a step of the end, make the walk longer by the value.
  pub walk_push :
      (es : List A) (n t h : ℕ) (v : A)
      → length es ≡ n
      → t < n
      → h < n
      → (h + 1) % n ≢ t
      → walk d (set es h v) n t (gap n t ((h + 1) % n)) ≡ walk d es n t (gap n t h) ++ v ∷ []
  walk_push es n t h v len p q ne =
      ap (walk d (set es h v) n t) (gap_next_head n t h p q ne)
      ∙ walk-snoc (set es h v) n h (gap n t h) t p q refl
      ∙ ap₂ (λ xs x. xs ++ x ∷ []) (walk-set es n h v (gap n t h) t p q (omega arith))
          (get_or-set_self es h v d (omega (arith, len)))
