-- ===== src/Daemon/Tmux/Reader/Replies.antt =====
-- Which command gets which reply.
use pi_remote.Prelude.{
  ℕ, ◌≡◌, refl, sym, ap, subst, ◌∙◌, Bool, Bool-cases, true, false, String, Option, none, some,
  List, [], ◌∷◌, ◌++◌, append_assoc, append-nil, All, lookup, length, lookup-insert_self, insert,
  inl, inr, if◌then◌else◌, arith,
}
use pi_remote.Daemon.Multiplex.{Link}
use pi_remote.Daemon.Tmux.Lines.{same, same_iff, line_eq}
use pi_remote.Daemon.Tmux.Escapes.{deescape_tmux}
use pi_remote.Daemon.Tmux.Reader.{
  CmdResult, Client, Reader, Notice, output, begin, error, end, exit, passed, text, notice_of,
  forward, forward_decoded, output_to, handle_output_notification, result_of, handle, is_exit,
  Input, step, scan,
}

-- A line between the begin and the end of a reply.
abbrev pub Inner : Notice → Type 0
Inner (output pane escaped) = Unit {0}
Inner passed = Unit {0}
Inner text = Unit {0}
Inner _ = ⊥

abbrev pub if_text : Notice → List ℕ → List (List ℕ)
if_text text line = line ∷ []
if_text _ line = []

abbrev pub texts : List Input → List (List ℕ)
texts [] = []
texts (i ∷ inputs) = if_text (notice_of i.line) i.line ++ texts inputs

-- A reply of tmux: its begin, its lines, and its end or error.
pub record Reply : Type 0 where
  pub id : List ℕ
  pub failed : Bool
  pub first : Input
  pub body : List Input
  pub last : Input

pub record IsReply (r : Reply) : Type 0 where
  pub named : same r.id [] ≡ false
  pub begins : notice_of r.first.line ≡ begin r.id
  pub inner : All (λ i. Inner (notice_of i.line)) r.body
  pub ends : notice_of r.last.line ≡ (if r.failed then error r.id else end r.id)

abbrev pub inputs_of : List Reply → List Input
inputs_of [] = []
inputs_of (r ∷ rs) = r.first ∷ (r.body ++ r.last ∷ inputs_of rs)

abbrev pub result : Reply → CmdResult
result r = result_of r.failed (texts r.body)

abbrev pub pair_up : List ℕ → List Reply → List (ℕ × CmdResult)
pair_up [] rs = []
pair_up (ch ∷ chs) [] = []
pair_up (ch ∷ chs) (r ∷ rs) = (ch, result r) ∷ pair_up chs rs

record SameWaits (c c' : Client) : Type 0 where
  queue : c'.pending_queue ≡ c.pending_queue
  cmds : c'.pending_cmds ≡ c.pending_cmds
  answers : c'.answered ≡ c.answered

handle_output-SameWaits :
    (pane escaped : List ℕ) (now : ℕ) (link : Link) (c : Client)
    → SameWaits c (handle_output_notification pane escaped now link c)
unfolding handle_output_notification
handle_output-SameWaits pane escaped now link c = found (lookup pane c.pane_to_session)
  where
    sent : (id : String) (bs : List ℕ) → SameWaits c (forward id bs now link c)
    sent id [] = record { queue = refl; cmds = refl; answers = refl }
    sent id (b ∷ bs) = record { queue = refl; cmds = refl; answers = refl }

    decoded : (id : String) (o : Option (List ℕ)) → SameWaits c (forward_decoded id o now link c)
    decoded id none = record { queue = refl; cmds = refl; answers = refl }
    decoded id (some bs) = sent id bs

    found : (o : Option String) → SameWaits c (output_to o escaped now link c)
    found none = record { queue = refl; cmds = refl; answers = refl }
    found (some id) = decoded id (deescape_tmux escaped)

-- The reader while it gathers the lines of a reply.
record Gathers (rd rd' : Reader) (lines : List (List ℕ)) : Type 0 where
  waits : SameWaits rd.client rd'.client
  active : rd'.active_cmd_id ≡ rd.active_cmd_id
  gathered : rd'.active_cmd_output ≡ rd.active_cmd_output ++ lines
  clean : rd'.active_cmd_is_error ≡ rd.active_cmd_is_error

handle-Gathers :
    (i : Input) (rd : Reader) (n : Notice)
    → same rd.active_cmd_id [] ≡ false
    → Inner n
    → Gathers rd (handle i.now i.link i.line rd n) (if_text n i.line) × (is_exit n ≡ false)
handle-Gathers i rd (output pane escaped) e h = (
  record {
    waits = handle_output-SameWaits pane escaped i.now i.link rd.client;
    active = refl;
    gathered = sym (append-nil rd.active_cmd_output);
    clean = refl;
  },
  refl,
)
handle-Gathers i rd passed e h = (
  record {
    waits = record { queue = refl; cmds = refl; answers = refl };
    active = refl;
    gathered = sym (append-nil rd.active_cmd_output);
    clean = refl;
  },
  refl,
)
handle-Gathers i rd text e h = (
  rw e (record {
    waits = record { queue = refl; cmds = refl; answers = refl };
    active = refl;
    gathered = refl;
    clean = refl;
  }),
  refl,
)
handle-Gathers i rd (begin id) e h = absurd h
handle-Gathers i rd (error id) e h = absurd h
handle-Gathers i rd (end id) e h = absurd h
handle-Gathers i rd exit e h = absurd h

Gathers-trans :
    (rd rd' rd'' : Reader) (xs ys : List (List ℕ))
    → Gathers rd rd' xs
    → Gathers rd' rd'' ys
    → Gathers rd rd'' (xs ++ ys)
Gathers-trans rd rd' rd'' xs ys g h = record {
  waits = record {
    queue = h.waits.queue ∙ g.waits.queue;
    cmds = h.waits.cmds ∙ g.waits.cmds;
    answers = h.waits.answers ∙ g.waits.answers;
  };
  active = h.active ∙ g.active;
  gathered = h.gathered ∙ ap (λ t. t ++ ys) g.gathered ∙ append_assoc rd.active_cmd_output xs ys;
  clean = h.clean ∙ g.clean;
}

scan-Gathers :
    (body rest : List Input) (rd : Reader)
    → same rd.active_cmd_id [] ≡ false
    → All (λ i. Inner (notice_of i.line)) body
    → (rd' : Reader) × (scan (body ++ rest) rd ≡ scan rest rd') × Gathers rd rd' (texts body)
unfolding scan step
scan-Gathers [] rest rd e h = (
  rd,
  refl,
  record {
    waits = record { queue = refl; cmds = refl; answers = refl };
    active = refl;
    gathered = sym (append-nil rd.active_cmd_output);
    clean = refl;
  },
)
scan-Gathers (i ∷ body) rest rd e (h, hs) =
    let (g, goes) = handle-Gathers i rd (notice_of i.line) e h in
    let mid = step i rd in
    let (rd', f, g') = scan-Gathers body rest mid (ap (λ t. same t []) g.active ∙ e) hs in
    (rd', rw goes f, Gathers-trans rd mid rd' (if_text (notice_of i.line) i.line) (texts body) g g')

-- The reader after a whole reply.
record Answers (rd rd' : Reader) (answers : List (ℕ × CmdResult)) (queue : List ℕ) : Type 0 where
  recorded : rd'.client.answered ≡ rd.client.answered ++ answers
  queued : rd'.client.pending_queue ≡ queue

-- What the end of a reply does, whichever of the two it is.
last_step :
    (r : Reply) (rd : Reader) (ch : ℕ)
    → IsReply r
    → rd.active_cmd_id ≡ r.id
    → rd.active_cmd_is_error ≡ false
    → lookup r.id rd.client.pending_cmds ≡ some ch
    → ((step r.last rd).client ≡ record rd.client {
      answered = rd.client.answered ++ (ch, result_of r.failed rd.active_cmd_output) ∷ [];
    })
      × (is_exit (notice_of r.last.line) ≡ false)
unfolding step
last_step r rd ch w active clean found =
    let own : same r.id rd.active_cmd_id ≡ true = (same_iff r.id rd.active_cmd_id).1 (sym active) in
    elim (Bool-cases r.failed) [
      | inl e ↦ rw (w.ends, e) (rw (own, found) refl, refl)
      | inr e ↦ rw (w.ends, e) (rw (own, clean, found) refl, refl)
    ]

abbrev begun : Reply → ℕ → List ℕ → Reader → Reader
begun r ch queue rd = record {
  client = record rd.client {
    pending_queue = queue;
    pending_cmds = insert r.id ch rd.client.pending_cmds;
  };
  active_cmd_id = r.id;
  active_cmd_output = [];
  active_cmd_is_error = false;
}

first_step :
    (r : Reply) (rd : Reader) (ch : ℕ) (queue : List ℕ)
    → IsReply r
    → rd.client.pending_queue ≡ ch ∷ queue
    → (step r.first rd ≡ begun r ch queue rd) × (is_exit (notice_of r.first.line) ≡ false)
unfolding step
first_step r rd ch queue w e = rw w.begins (rw e refl, refl)

scan_cons :
    (i : Input) (rest : List Input) (rd : Reader)
    → is_exit (notice_of i.line) ≡ false
    → scan (i ∷ rest) rd ≡ scan rest (step i rd)
unfolding scan
scan_cons i rest rd e = rw e

scan_reply :
    (r : Reply) (rest : List Input) (rd : Reader) (ch : ℕ) (queue : List ℕ)
    → IsReply r
    → rd.client.pending_queue ≡ ch ∷ queue
    → (rd' : Reader) × (scan (r.first ∷ (r.body ++ r.last ∷ rest)) rd ≡ scan rest rd')
      × Answers rd rd' ((ch, result r) ∷ []) queue
scan_reply r rest rd ch queue w e =
    let (begins, goes) = first_step r rd ch queue w e in
    let rd1 = begun r ch queue rd in
    let (rd2, f, g) = scan-Gathers r.body (r.last ∷ rest) rd1 w.named w.inner in
    let found : lookup r.id rd2.client.pending_cmds ≡ some ch =
      rw g.waits.cmds (lookup-insert_self r.id ch rd.client.pending_cmds) in
    let (done, goes') = last_step r rd2 ch w g.active g.clean found in
    (
      step r.last rd2,
      scan_cons r.first (r.body ++ r.last ∷ rest) rd goes
          ∙ ap (scan (r.body ++ r.last ∷ rest)) begins
          ∙ f
          ∙ scan_cons r.last rest rd2 goes',
      record {
        recorded = rw (done, g.waits.answers, g.gathered) refl;
        queued = rw done g.waits.queue;
      },
    )

scan_replies :
    (rs : List Reply) (rest : List Input) (rd : Reader) (chs more : List ℕ)
    → All IsReply rs
    → length chs ≡ length rs
    → rd.client.pending_queue ≡ chs ++ more
    → (rd' : Reader) × (scan (inputs_of rs ++ rest) rd ≡ scan rest rd')
      × Answers rd rd' (pair_up chs rs) more
scan_replies [] rest rd [] more w n e =
    (rd, refl, record { recorded = sym (append-nil rd.client.answered); queued = e })
scan_replies [] rest rd (ch ∷ chs) more w n e = absurd (omega arith)
scan_replies (r ∷ rs) rest rd [] more w n e = absurd (omega arith)
scan_replies (r ∷ rs) rest rd (ch ∷ chs) more (w, ws) n e =
    let (rd1, f, g) = scan_reply r (inputs_of rs ++ rest) rd ch (chs ++ more) w e in
    let (rd2, f', g') = scan_replies rs rest rd1 chs more ws (omega arith) g.queued in
    (
      rd2,
      rw (append_assoc r.body (r.last ∷ inputs_of rs) rest) (f ∙ f'),
      record {
        recorded =
            g'.recorded
            ∙ ap (λ t. t ++ pair_up chs rs) g.recorded
            ∙ append_assoc rd.client.answered ((ch, result r) ∷ []) (pair_up chs rs);
        queued = g'.queued;
      },
    )

-- The replies of tmux go to the commands that wait, in the order in which they were issued: each
-- caller gets the lines of its own reply, an error if tmux reports one, whatever output of panes
-- stands between them.
pub scan-answers :
    (rs : List Reply) (rd : Reader) (chs more : List ℕ)
    → All IsReply rs
    → length chs ≡ length rs
    → rd.client.pending_queue ≡ chs ++ more
    → let c = (scan (inputs_of rs) rd).client in
      (c.answered ≡ rd.client.answered ++ pair_up chs rs) × (c.pending_queue ≡ more)
unfolding scan
scan-answers rs rd chs more w n e =
    let (rd', f, g) = scan_replies rs [] rd chs more w n e in
    let same_end : scan (inputs_of rs) rd ≡ rd' =
      subst (λ t. scan t rd ≡ rd') (append-nil (inputs_of rs)) f in
    rw same_end (g.recorded, g.queued)
