-- ===== src/Daemon/Tmux/Panes/Live.antt =====
-- Which sessions the panes are mapped to.
use pi_remote.Prelude.{
  if_rule, if_cases, ◌≢◌, ℕ, ◌≡◌, ◌⊎◌, inl, inr, refl, sym, ap, subst, ◌∙◌, String, Bool-cases,
  true, false, Option, none, some, List, [], ◌∷◌, Map, lookup, insert, delete, lookup-insert_self,
  lookup-insert_ne, lookup-delete, string_eq, if◌then◌else◌, arith,
}
use pi_remote.Daemon.Registry as Registered
use pi_remote.Daemon.Registry.{Registry}
use pi_remote.Daemon.Tmux.Lines.{same, same_iff, line_eq}
use pi_remote.Daemon.Tmux.Panes.{
  display_pane, display_window, Tmux, Panes, log, is_stored, dead_panes, ask, first_line, unlink,
  clean_pane, clean_panes, set_pane, link_pane, map_found, map_pane,
}

abbrev pub IsMapped : Panes → List ℕ → String → Type 0
IsMapped st pane id = lookup pane st.pane_to_session ≡ some id

abbrev pub IsKnown : Registry → String → Type 0
IsKnown r id = is_stored (Registered.get id r) ≡ true

unlink_panes :
    (tmux : Tmux) (window : Option (List ℕ)) (st : Panes)
    → (unlink tmux window st).pane_to_session ≡ st.pane_to_session
unlink_panes tmux none st = refl
unlink_panes tmux (some window) st = ground arith

clean_pane_panes :
    (tmux : Tmux) (pane : List ℕ) (st : Panes)
    → (clean_pane tmux pane st).pane_to_session ≡ delete pane st.pane_to_session
unfolding clean_pane
clean_pane_panes tmux pane st = ap (delete pane) (
    unlink_panes tmux (first_line (ask tmux (display_window pane) st))
      (log (display_window pane) st))

abbrev Listed : List ℕ → List (List ℕ) → Type 0
Listed p [] = ⊥
Listed p (q ∷ qs) = (q ≡ p) ⊎ Listed p qs

clean_panes_lookup :
    (tmux : Tmux) (panes : List (List ℕ)) (st : Panes) (p : List ℕ) (id : String)
    → IsMapped (clean_panes tmux panes st) p id
    → IsMapped st p id × ¬ Listed p panes
unfolding clean_panes
clean_panes_lookup tmux [] st p id e = (e, λ h. absurd h)
clean_panes_lookup tmux (q ∷ qs) st p id e =
    let (f, out) = clean_panes_lookup tmux qs (clean_pane tmux q st) p id e in
    let g : lookup p (delete q st.pane_to_session) ≡ some id =
      subst (λ m. lookup p m ≡ some id) (clean_pane_panes tmux q st) f in
    let h : (if same q p then none else lookup p st.pane_to_session) ≡ some id =
      sym (lookup-delete q p st.pane_to_session) ∙ g in
    elim (Bool-cases (same q p)) [
      | inl eq ↦ absurd (ground arith)
      | inr ne ↦ (
        rw ne at h,
        λ l. elim l [ inl eq ↦ absurd (ground (arith, same_iff q p)) | inr l' ↦ out l' ],
      )
    ]

dead_panes-Listed :
    (r : Registry) (m : Map (List ℕ) String) (p : List ℕ) (id : String)
    → lookup p m ≡ some id
    → is_stored (Registered.get id r) ≡ false
    → Listed p (dead_panes r m)
dead_panes-Listed r [] p id e dead = cc
dead_panes-Listed r ((q, s) ∷ m) p id e dead = elim (Bool-cases (same q p)) [
  | inl eq ↦
      let own : s ≡ id = ground arith in
      let gone : is_stored (Registered.get s r) ≡ false = rw own dead in
      rw gone (inl ((same_iff q p).0 eq))
  | inr ne ↦
      let later : Listed p (dead_panes r m) = dead_panes-Listed r m p id (rw ne at e) dead in
      if_rule (λ (l : List (List ℕ)). Listed p l) (is_stored (Registered.get s r)) _ _ later
        (inr later)
]

-- Every entry of the pane names a session that is stored.
abbrev pub StoredAt : Registry → List ℕ → Map (List ℕ) String → Type 0
StoredAt r p [] = Unit {0}
StoredAt r p ((q, s) ∷ m) = (q ≡ p → IsKnown r s) × StoredAt r p m

StoredAt-not_Listed :
    (r : Registry) (p : List ℕ) (m : Map (List ℕ) String)
    → StoredAt r p m
    → ¬ Listed p (dead_panes r m)
StoredAt-not_Listed r p [] h = λ l. absurd l
StoredAt-not_Listed r p ((q, s) ∷ m) (h, hs) =
    let rest = StoredAt-not_Listed r p m hs in
    if_cases (λ (l : List (List ℕ)). ¬ Listed p l) (is_stored (Registered.get s r)) _ _ (λ e. rest)
      (λ e l. elim l [ inl eq ↦ absurd (cc (h eq)) | inr l' ↦ rest l' ])

clean_panes_kept :
    (tmux : Tmux) (panes : List (List ℕ)) (st : Panes) (p : List ℕ) (id : String)
    → ¬ Listed p panes
    → IsMapped st p id
    → IsMapped (clean_panes tmux panes st) p id
unfolding clean_panes
clean_panes_kept tmux [] st p id out e = e
clean_panes_kept tmux (q ∷ qs) st p id out e =
    let other : same q p ≡ false = elim (Bool-cases (same q p)) [
      | inl eq ↦ absurd (out (inl ((same_iff q p).0 eq)))
      | inr ne ↦ ne
    ] in
    let kept : lookup p (delete q st.pane_to_session) ≡ some id =
      lookup-delete q p st.pane_to_session ∙ rw other e in
    clean_panes_kept tmux qs (clean_pane tmux q st) p id (λ l. out (inr l))
      (subst (λ m. lookup p m ≡ some id) (sym (clean_pane_panes tmux q st)) kept)

link_pane_panes :
    (tmux : Tmux) (pane : List ℕ) (id : String) (window : Option (List ℕ)) (st : Panes)
    → (link_pane tmux pane id window st).pane_to_session ≡ st.pane_to_session
link_pane_panes tmux pane id none st = refl
link_pane_panes tmux pane id (some window) st = ground arith

map_found_panes :
    (tmux : Tmux) (id : String) (x : Option (List ℕ)) (st : Panes) (pane : List ℕ)
    → (map_found tmux id x st).1 ≡ some pane
    → (map_found tmux id x st).0.pane_to_session ≡ insert pane id st.pane_to_session
map_found_panes tmux id none st pane h = cc
map_found_panes tmux id (some q) st pane h =
    let st' = set_pane q id st in
    link_pane_panes tmux q id (first_line (ask tmux (display_window q) st'))
      (log (display_window q) st')
    ∙ ap (λ p. insert p id st.pane_to_session) (cc h)

-- A `MapPane` that succeeds maps the pane to the session. Every other pane that is mapped
-- afterwards was so before, to a session that is stored; and if all that the map has for a pane is
-- stored, the pane stays as it was.
pub map_pane-IsMapped :
    (tmux : Tmux) (target : List ℕ) (id : String) (r : Registry) (st : Panes) (pane : List ℕ)
    → (map_pane tmux target id r st).1 ≡ some pane
    → let st' = (map_pane tmux target id r st).0 in
      IsMapped st' pane id
      × ((p : List ℕ) (s : String) → p ≢ pane → IsMapped st' p s → IsMapped st p s × IsKnown r s)
      × ((p : List ℕ) (s : String)
          → p ≢ pane
          → StoredAt r p st.pane_to_session
          → IsMapped st p s
          → IsMapped st' p s)
unfolding map_pane
map_pane-IsMapped tmux target id r st pane h =
    let dead = dead_panes r st.pane_to_session in
    let c = clean_panes tmux dead st in
    let e =
      map_found_panes tmux id (first_line (ask tmux (display_pane target) c))
        (log (display_pane target) c) pane h in
    (
      rw e (lookup-insert_self pane id c.pane_to_session),
      λ p s ne m.
          let before = clean_panes_lookup tmux dead st p s (
            sym (lookup-insert_ne pane p id c.pane_to_session (λ q. ne (sym q)))
            ∙ subst (λ (t : Map (List ℕ) String). lookup p t ≡ some s) e m) in
          (before.0, known p s before),
      λ p s ne k m. rw e (
          lookup-insert_ne pane p id c.pane_to_session (λ q. ne (sym q))
          ∙ clean_panes_kept tmux dead st p s (StoredAt-not_Listed r p st.pane_to_session k) m),
    )
  where
    known :
        (p : List ℕ) (s : String)
        → IsMapped st p s × ¬ Listed p (dead_panes r st.pane_to_session)
        → IsKnown r s
    known p s (m, out) = elim (Bool-cases (is_stored (Registered.get s r))) [
      | inl stored ↦ stored
      | inr gone ↦ absurd (out (dead_panes-Listed r st.pane_to_session p s m gone))
    ]
