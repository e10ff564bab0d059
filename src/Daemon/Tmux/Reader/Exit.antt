-- ===== src/Daemon/Tmux/Reader/Exit.antt =====
-- What the end of the tmux server does to the sessions.
use pi_remote.Prelude.{
  ℕ, ◌≡◌, ◌⊎◌, inl, inr, refl, subst, sym, ◌∙◌, String, str_eq, eq_iff, string_eq, Bool, Bool-cases,
  true, false, Option, none, some, List, [], ◌∷◌, Map, lookup, lookup-delete, if_rule,
  if◌then◌else◌, arith,
}
use pi_remote.Daemon.Registry.{
  Session, Registry, is_ended, remove_found, remove_with_reason, live_of, snapshot,
}
use pi_remote.Daemon.Registry.Calls.{IsKeyed}
use pi_remote.Daemon.Tmux.Lines.{line_eq}
use pi_remote.Daemon.Tmux.Escapes.{deescape_tmux}
use pi_remote.Daemon.Tmux.Reader.{
  Reader, Notice, output, begin, error, end, exit, passed, text, forward, forward_decoded,
  output_to, handle_output_notification, begin_next, answer, result_of, finished, handle, is_exit,
  notice_of, step, started_reader, Input, Client, server_lost, remove_all, handle_exit_notification,
  on_stop, scan, read_loop,
}

lookup-remove_with_reason :
    (id j reason : String) (now : ℕ) (r : Registry)
    → lookup j (remove_with_reason id reason now r).sessions
      ≡ (if str_eq id j then none else lookup j r.sessions)
unfolding remove_with_reason
lookup-remove_with_reason id j reason now r = go (lookup id r.sessions) refl
  where
    go :
        (x : Option Session)
        → lookup id r.sessions ≡ x
        → lookup j (remove_found id reason now r x).sessions
          ≡ (if str_eq id j then none else lookup j r.sessions)
    go none e = ground (arith, eq_iff id j)
    go (some s) e = ground (arith, lookup-delete id j r.sessions)

abbrev Named : String → List Session → Type 0
Named id [] = ⊥
Named id (s ∷ ss) = (s.session_id ≡ id) ⊎ Named id ss

lookup-remove_all :
    (ss : List Session) (now : ℕ) (r : Registry) (id : String) (s : Session)
    → lookup id (remove_all ss now r).sessions ≡ some s
    → (lookup id r.sessions ≡ some s) × ¬ Named id ss
unfolding remove_all
lookup-remove_all [] now r id s e = (e, λ h. absurd h)
lookup-remove_all (x ∷ ss) now r id s e =
    let (f, out) =
      lookup-remove_all ss now (remove_with_reason x.session_id server_lost now r) id s e in
    let g = sym (lookup-remove_with_reason x.session_id id server_lost now r) ∙ f in
    elim (Bool-cases (str_eq x.session_id id)) [
      | inl eq ↦ absurd (ground arith)
      | inr ne ↦ (
        rw ne at g,
        λ h. elim h [ inl eq ↦ absurd (ground (arith, eq_iff x.session_id id)) | inr h' ↦ out h' ],
      )
    ]

live-Named :
    (m : Map String Session) (id : String) (s : Session)
    → IsKeyed m
    → lookup id m ≡ some s
    → is_ended s.state ≡ false
    → Named id (live_of m)
unfolding live_of
live-Named [] id s k e live = cc
live-Named ((j, x) ∷ m) id s (own, k) e live = elim (Bool-cases (str_eq j id)) [
  | inl eq ↦
      let first : x ≡ s = ground arith in
      let active : is_ended x.state ≡ false = rw first live in
      rw active (inl (own ∙ (eq_iff j id).0 eq))
  | inr ne ↦
      let later : Named id (live_of m) = live-Named m id s k (rw ne at e) live in
      if_rule (λ (l : List Session). Named id l) (is_ended x.state) _ _ later (inr later)
]

finished_registry :
    (failed : Bool) (id : List ℕ) (rd : Reader)
    → (finished failed id rd).client.registry ≡ rd.client.registry
finished_registry failed id rd = go (lookup id rd.client.pending_cmds)
  where
    go :
        (o : Option ℕ)
        → (answer o (result_of failed rd.active_cmd_output) rd.client).registry ≡ rd.client.registry
    go none = refl
    go (some ch) = refl

handle_registry :
    (i : Input) (rd : Reader) (n : Notice)
    → (handle i.now i.link i.line rd n).client.registry ≡ rd.client.registry
unfolding handle_output_notification
handle_registry i rd (output pane escaped) = found (lookup pane rd.client.pane_to_session)
  where
    sent :
        (id : String) (bs : List ℕ)
        → (forward id bs i.now i.link rd.client).registry ≡ rd.client.registry
    sent id [] = refl
    sent id (b ∷ bs) = refl

    decoded :
        (id : String) (o : Option (List ℕ))
        → (forward_decoded id o i.now i.link rd.client).registry ≡ rd.client.registry
    decoded id none = refl
    decoded id (some bs) = sent id bs

    found :
        (o : Option String)
        → (output_to o escaped i.now i.link rd.client).registry ≡ rd.client.registry
    found none = refl
    found (some id) = decoded id (deescape_tmux escaped)
handle_registry i rd exit = refl
handle_registry i rd passed = refl
handle_registry i rd text = ground arith
handle_registry i rd (begin id) = go rd.client.pending_queue
  where
    go : (q : List ℕ) → (begin_next id q rd.client).registry ≡ rd.client.registry
    go [] = refl
    go (ch ∷ q) = refl
handle_registry i rd (error id) = ground (arith, finished_registry true id rd)
handle_registry i rd (end id) = ground (arith, finished_registry rd.active_cmd_is_error id rd)

scan_registry :
    (inputs : List Input) (rd : Reader) → (scan inputs rd).client.registry ≡ rd.client.registry
unfolding scan step
scan_registry [] rd = refl
scan_registry (i ∷ inputs) rd =
    if_rule (λ (z : Reader). z.client.registry ≡ rd.client.registry) (is_exit (notice_of i.line)) _
      _ refl (scan_registry inputs (step i rd) ∙ handle_registry i rd (notice_of i.line))

-- Where each session stands under its own id: after the loop has stopped, whatever it read, a
-- session that is stored was stored before and has ended. All others are removed.
pub read_loop-ended :
    (inputs : List Input) (stopped : ℕ) (c : Client) (id : String) (s : Session)
    → IsKeyed c.registry.sessions
    → lookup id (read_loop inputs stopped c).registry.sessions ≡ some s
    → (lookup id c.registry.sessions ≡ some s) × (is_ended s.state ≡ true)
unfolding read_loop on_stop handle_exit_notification snapshot
read_loop-ended inputs stopped c id s k e =
    let same = scan_registry inputs (started_reader c) in
    let (f, out) = lookup-remove_all (live_of c.registry.sessions) stopped c.registry id s (
      subst
        (λ (r : Registry). lookup id (remove_all (live_of r.sessions) stopped r).sessions ≡ some s)
        same e) in
    (
      f,
      elim (Bool-cases (is_ended s.state)) [
        | inl over ↦ over
        | inr live ↦ absurd (out (live-Named c.registry.sessions id s k f live))
      ],
    )
