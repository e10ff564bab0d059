-- ===== src/Push/Focus.antt =====
-- The claims of focus and the connections that hold them.
use pi_remote.Prelude.{
  ◌≡◌, refl, ◌⊎◌, inl, inr, String, str_eq, true, false, Option, none, some, [], ◌∷◌, lookup,
  insert, delete, string_eq, All, lookup-insert_self, if_cases, if_rule,
}
use text.Mathlib.TextPositions.{eq_refl}
use pi_remote.Push.{ConnFocus, FocusTracker, claims_of, set_focus, drop_conn, has_claim, is_focused}

focused_at :
    (k client session : String) (cf : ConnFocus) (t : FocusTracker)
    → has_claim client session cf ≡ true
    → is_focused client session (insert k cf t) ≡ true
unfolding is_focused
focused_at k client session cf [] h = rw h
focused_at k client session cf ((j, x) ∷ t) h =
    if_rule (λ (z : FocusTracker). is_focused client session z ≡ true) (str_eq j k) _ _ (rw h)
      (if_rule (λ b. b ≡ true) (has_claim client session x) _ _ refl
        (focused_at k client session cf t h))

-- A connection whose claims are all for one client.
abbrev pub IsFor : String → Option ConnFocus → Type 0
IsFor client none = Unit {0}
IsFor client (some cf) = cf.client_id ≡ client

claims_id :
    (client : String) (o : Option ConnFocus)
    → IsFor client o
    → (claims_of client o).client_id ≡ client
claims_id client none h = refl
claims_id client (some cf) h = h

-- The other connections do not claim the session for the client.
abbrev pub OnlyOn : String → String → String → FocusTracker → Type 0
OnlyOn conn client session = All λ (entry : String × ConnFocus).
    (str_eq entry.0 conn ≡ true) ⊎ (has_claim client session entry.1 ≡ false)

drop_all :
    (conn client session : String) (t : FocusTracker)
    → OnlyOn conn client session t
    → is_focused client session (delete conn t) ≡ false
unfolding is_focused
drop_all conn client session [] h = refl
drop_all conn client session ((j, x) ∷ t) h =
    let rest = drop_all conn client session t h.1 in
    if_cases (λ (z : FocusTracker). is_focused client session z ≡ false) (str_eq j conn) _ _
      (λ e. rest)
      λ differ. elim h.0 [ inl same ↦ absurd (cc (same, differ)) | inr quiet ↦ rw quiet rest ]

-- Where a connection reports for one client, and no other connection claims the session for that
-- client: a claim of the connection makes the session focused, and its end leaves it unfocused.
pub set_focus-drop_conn :
    (conn client session : String) (t : FocusTracker)
    → IsFor client (lookup conn t)
    → OnlyOn conn client session t
    → (is_focused client session (set_focus conn client session true t) ≡ true)
      × (is_focused client session (drop_conn conn t) ≡ false)
unfolding set_focus drop_conn
set_focus-drop_conn conn client session t mine only =
    let cf = claims_of client (lookup conn t) in
    (
      focused_at conn client session _ t (
          rw (
            claims_id client (lookup conn t) mine,
            eq_refl client,
            lookup-insert_self session true cf.sessions,
          )),
      drop_all conn client session t only,
    )
