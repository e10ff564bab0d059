-- ===== src/Daemon/Multiplex/Interleaved.antt =====
-- The numbers of the frames when the calls of several goroutines interleave.
use pi_remote.Prelude.{
  ℕ, ◌+◌, ◌^◌, ◌≤◌, ◌<◌, ◌≡◌, refl, subst, ap, ◌∙◌, inl, inr, String, str_eq, eq_iff, not, Option,
  none, some, List, [], ◌∷◌, arith, length, insert, string_eq, lookup-insert, if_rule,
  if◌then◌else◌, Bool-cases,
}
use pi_remote.Daemon.Multiplex.{
  Frame, Link, Multiplex, ExtEvent, Built, new_multiplex, peek, next_seq, taken, event_frame,
  is_known_event_kind, register_built, event_built, ended_built, state_change_built, pty_built,
}
use pi_remote.Daemon.Multiplex.Numbers.{
  number_of, count, carriers, allowed, carriers-cons, allowed_suc,
}
use pi_remote.Daemon.Multiplex.Calls.{
  Handler, registered, evented, finished, changed, printed, Step, begins, completes, Calls, holding,
  at, completed, Spares, AllSpare, begin, step, run,
}
use pi_remote.Daemon.Multiplex.Flight.{
  Unended, AllUnended, at-without, without-AllUnended, at-Unended, deliver-carriers, complete-sent,
  complete-peek,
}

record Numbered (id : String) (n b : ℕ) (c : Calls) : Type 0 where
  once :
      carriers id n c.multiplex.sent + carriers id n c.flight + carriers id n c.dropped
      ≡ allowed (peek id c.multiplex) n
  bound : peek id c.multiplex ≤ b
  unended : AllUnended id c.flight

module _ (id : String) (n b : ℕ) where
  -- A step that sends no frame and takes no number of the session.
  quiet :
      (c c' : Calls)
      → Numbered id n b c
      → c'.multiplex.sent ≡ c.multiplex.sent
      → c'.flight ≡ c.flight
      → c'.dropped ≡ c.dropped
      → peek id c'.multiplex ≡ peek id c.multiplex
      → Numbered id n (b + 1) c'
  quiet c c' t sent flight dropped same = record {
    once = rw (sent, flight, dropped, same) t.once;
    bound = omega (arith, same, t.bound);
    unended = rw flight t.unended;
  }

  -- A call that begins takes the next number of its session.
  begun :
      (k : String) (f : Frame) (c : Calls) (m' : Multiplex)
      → number_of id f ≡ (if str_eq k id then next_seq k c.multiplex ∷ [] else [])
      → m'.sent ≡ c.multiplex.sent
      → m'.seqs ≡ insert k (next_seq k c.multiplex) c.multiplex.seqs
      → Unended id f
      → b + 1 < 2 ^ 64
      → Numbered id n b c
      → Numbered id n (b + 1) (record c { multiplex = m'; flight = f ∷ c.flight })
  begun k f c m' num sent seqs plain small t = elim (Bool-cases (str_eq k id)) [
    | inl same ↦
        let k≡id = (eq_iff k id).0 same in
        let x = next_seq id c.multiplex in
        let own : number_of id f ≡ x ∷ [] =
          num ∙ rw same (ap (λ j. next_seq j c.multiplex ∷ []) k≡id) in
        let now : peek id m' ≡ x =
          rw (seqs, lookup-insert k id (next_seq k c.multiplex) c.multiplex.seqs, same)
            (ap (λ j. next_seq j c.multiplex) k≡id) in
        let next : x ≡ peek id c.multiplex + 1 = omega (arith, small, t.bound) in
        record {
          once =
              rw (sent, now)
                (omega (
                  arith,
                  t.once,
                  carriers-cons id n f c.flight,
                  ap (count n) own,
                  allowed_suc (peek id c.multiplex) n x next,
                ));
          bound = omega (arith, now, next, t.bound);
          unended = (plain, t.unended);
        }
    | inr differ ↦
        let other : number_of id f ≡ [] = num ∙ rw differ in
        let still : peek id m' ≡ peek id c.multiplex =
          rw (seqs, lookup-insert k id (next_seq k c.multiplex) c.multiplex.seqs, differ) in
        record {
          once =
              rw (sent, still)
                (omega (arith, t.once, carriers-cons id n f c.flight, ap (count n) other));
          bound = omega (arith, still, t.bound);
          unended = (plain, t.unended);
        }
  ]

completed-Numbered :
    (id : String) (n b : ℕ) (link : Link) (i : ℕ) (c : Calls) (o : Option Frame)
    → at c.flight i ≡ o
    → Numbered id n b c
    → Numbered id n (b + 1) (completed link i c o)
completed-Numbered id n b link i c none e t = quiet id n b c c t refl refl refl refl
completed-Numbered id n b link i c (some f) e t =
    let same = complete-peek id link f c.multiplex (at-Unended id i c.flight f t.unended e) in
    record {
      once =
          rw (same, complete-sent link f c.multiplex)
            (omega (
              arith,
              t.once,
              at-without id n i c.flight f e,
              deliver-carriers id n link f c.multiplex,
            ));
      bound = omega (arith, same, t.bound);
      unended = without-AllUnended id i c.flight t.unended;
    }

module _ (parse : List ℕ → Option ExtEvent) (machine_id id : String) (n : ℕ) where
  alloc-peek :
      (k : String) (m : Multiplex)
      → peek id (record m { seqs = insert k (peek k m) m.seqs }) ≡ peek id m
  alloc-peek k m = elim (Bool-cases (str_eq k id)) [
    | inl same ↦
        rw (lookup-insert k id (peek k m) m.seqs, same) (ap (λ j. peek j m) ((eq_iff k id).0 same))
    | inr differ ↦ rw (lookup-insert k id (peek k m) m.seqs, differ)
  ]

  begin-Numbered :
      (b : ℕ) (call : Handler) (c : Calls)
      → Spares id (begins call)
      → b + 1 < 2 ^ 64
      → Numbered id n b c
      → Numbered id n (b + 1) (holding c (begin parse machine_id call c.multiplex))
  unfolding begin register_built event_built ended_built state_change_built pty_built
  begin-Numbered b (registered s) c sp small t = record {
    once = rw (alloc-peek s.session_id c.multiplex) t.once;
    bound = omega (arith, alloc-peek s.session_id c.multiplex, t.bound);
    unended = (tt, t.unended);
  }
  begin-Numbered b (evented k x now) c sp small t = go (parse x)
    where
      go :
          (o : Option ExtEvent)
          → Numbered id n (b + 1) (holding c (event_frame k now c.multiplex o))
      go none = quiet id n b c c t refl refl refl refl
      go (some raw) =
          if_rule (λ (z : Built). Numbered id n (b + 1) (holding c z)) (str_eq raw.kind "") _ _
            (quiet id n b c c t refl refl refl refl)
            (if_rule (λ (z : Built). Numbered id n (b + 1) (holding c z))
              (not (is_known_event_kind raw.kind)) _ _ (quiet id n b c c t refl refl refl refl)
              (begun id n b k _ c (taken k c.multiplex) refl refl refl tt small t))
  begin-Numbered b (finished s kind reason) c sp small t =
      begun id n b s.session_id _ c (taken s.session_id c.multiplex) refl refl refl sp small t
  begin-Numbered b (changed k from to now) c sp small t =
      begun id n b k _ c (taken k c.multiplex) refl refl refl tt small t
  begin-Numbered b (printed k x now) c sp small t = begun id n b k _ c _ refl refl refl tt small t

  step-Numbered :
      (b : ℕ) (st : Step) (c : Calls)
      → Spares id st
      → b + 1 < 2 ^ 64
      → Numbered id n b c
      → Numbered id n (b + 1) (step parse machine_id st c)
  unfolding step
  step-Numbered b (begins call) c sp small t = begin-Numbered b call c sp small t
  step-Numbered b (completes i link) c sp small t = completed-Numbered id n b link i c _ refl t

  run-Numbered :
      (steps : List Step) (b : ℕ) (c : Calls)
      → AllSpare id steps
      → b + length steps < 2 ^ 64
      → Numbered id n b c
      → Numbered id n (b + length steps) (run parse machine_id steps c)
  unfolding run
  run-Numbered [] b c sp small t = record {
    once = t.once;
    bound = omega (arith, t.bound);
    unended = t.unended;
  }
  run-Numbered (st ∷ steps) b c sp small t =
      subst (λ z. Numbered id n z (run parse machine_id steps (step parse machine_id st c)))
        (omega arith)
        (run-Numbered steps (b + 1) (step parse machine_id st c) sp.1 (omega arith)
          (step-Numbered b st c sp.0 (omega arith) t))

abbrev pub no_calls : Calls
no_calls = record { multiplex = new_multiplex; flight = []; dropped = [] }

-- In whatever order the calls of several goroutines take their numbers and send or drop their
-- frames, as long as no call ends the session and there are fewer steps than 2^64: of the session's
-- frames, those sent, those still to be sent and those dropped for want of a connection, exactly one
-- carries each number from 1 to the one that a reconnect would report as the last, and none carries
-- any other number.
pub run-once :
    (parse : List ℕ → Option ExtEvent) (machine_id id : String) (n : ℕ) (steps : List Step)
    → AllSpare id steps
    → length steps < 2 ^ 64
    → let c = run parse machine_id steps no_calls in
      carriers id n c.multiplex.sent + carriers id n c.flight + carriers id n c.dropped
      ≡ allowed (peek id c.multiplex) n
unfolding new_multiplex
run-once parse machine_id id n steps sp small =
    (run-Numbered parse machine_id id n steps 0 no_calls sp (omega arith)
      (record { once = ground arith; bound = omega arith; unended = tt })).once
