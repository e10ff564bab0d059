-- ===== src/Daemon/Config/Identity.antt =====
-- The identity of a machine over restarts.
use pi_remote.Prelude.{
  ℕ, ◌≡◌, refl, subst, Bool, true, false, Option, some, List, [], ◌∷◌, ◌++◌, All,
}
use pi_remote.Daemon.Tmux.Panes.{is_space, trim_right, unless_blank, trim_space}
use pi_remote.Daemon.Config.{
  StateFile, content, absent, unreadable, generate, read_or, ensure_in, ensure_machine_id,
}

abbrev pub Plain : List ℕ → Type 0
Plain = All (λ c. is_space c ≡ false)

trim_right-line : (s : List ℕ) → Plain s → trim_right (s ++ 10 ∷ []) ≡ s
trim_right-line [] h = refl
trim_right-line (c ∷ s) (p, h) = rw (trim_right-line s h) (blank s)
  where
    blank : (s : List ℕ) → unless_blank c s ≡ c ∷ s
    blank [] = rw p refl
    blank (d ∷ s) = refl

trim_space-line : (c : ℕ) (s : List ℕ) → Plain (c ∷ s) → trim_space ((c ∷ s) ++ 10 ∷ []) ≡ c ∷ s
trim_space-line c s (p, h) = rw p (trim_right-line (c ∷ s) (p, h))

abbrev Outcome : Type 0
Outcome = Option (List ℕ) × StateFile

module _ (c : ℕ) (s : List ℕ) (plain : Plain (c ∷ s)) (later : Option (List ℕ)) (again : Bool) where
  abbrev Stays : Outcome → Type 0
  Stays q = ensure_in later again q.1 ≡ q

  generate-Stays :
      (written : Bool) (file : StateFile) (id : List ℕ) (after : StateFile)
      → ◌≡◌ {A = Outcome} (generate (some (c ∷ s)) written file) (some id, after)
      → Stays (some id, after)
  generate-Stays true file id after e =
      let kept : Stays (some (c ∷ s), content ((c ∷ s) ++ 10 ∷ [])) =
        rw (trim_space-line c s plain) refl in
      subst (λ (q : Outcome). Stays q) e kept
  generate-Stays false file id after e = cc

  read_or-Stays :
      (written : Bool) (b t : List ℕ) (id : List ℕ) (after : StateFile)
      → trim_space b ≡ t
      → ◌≡◌ {A = Outcome}
          (read_or (generate (some (c ∷ s)) written (content b)) (content b) t)
          (some id, after)
      → Stays (some id, after)
  read_or-Stays written b [] id after f e = generate-Stays written (content b) id after e
  read_or-Stays written b (d ∷ t) id after f e =
      let kept : Stays (some (d ∷ t), content b) = rw f refl in
      subst (λ (q : Outcome). Stays q) e kept

  -- Where the path of the state file is known and the ids that are generated have no blanks: once a
  -- start has an id, whether it was in the file or was generated, the next one gets the same id,
  -- whatever new id it could make, and leaves the file as it is.
  pub ensure_machine_id-again :
      (written : Bool) (file after : StateFile) (id : List ℕ)
      → ensure_machine_id true (some (c ∷ s)) written file ≡ (some id, after)
      → ensure_machine_id true later again after ≡ (some id, after)
  unfolding ensure_machine_id
  ensure_machine_id-again written absent after id e = generate-Stays written absent id after e
  ensure_machine_id-again written unreadable after id e = cc
  ensure_machine_id-again written (content b) after id e =
      read_or-Stays written b (trim_space b) id after refl e
