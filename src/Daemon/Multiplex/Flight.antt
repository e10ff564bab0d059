-- ===== src/Daemon/Multiplex/Flight.antt =====
-- A frame in flight that is sent or dropped: what it does to the numbers of a session.
use pi_remote.Prelude.{
  ℕ, zero, suc, ◌+◌, ◌≡◌, refl, subst, ◌∙◌, String, str_eq, false, some, List, [], ◌∷◌, arith,
  string_eq, lookup-delete,
}
use mathlib.Core.Option.{some-injective}
use pi_remote.Daemon.Multiplex.{
  Frame, session_started, session_event, session_ended, session_state_change, session_pty, Link, up,
  down, failing, Multiplex, peek, deliver, complete,
}
use pi_remote.Daemon.Multiplex.Numbers.{number_of, count, carriers, carriers-cons, carriers-append}
use pi_remote.Daemon.Multiplex.Calls.{without, at, lost}

-- The session's own frames are no ends.
abbrev pub Unended : String → Frame → Type 0
Unended id (session_ended k n kind reason) = str_eq k id ≡ false
Unended id _ = Unit {0}

abbrev pub AllUnended : String → List Frame → Type 0
AllUnended id [] = Unit {0}
AllUnended id (f ∷ fs) = Unended id f × AllUnended id fs

-- The frame that completes leaves the flight.
pub at-without :
    (id : String) (n i : ℕ) (fs : List Frame) (f : Frame)
    → at fs i ≡ some f
    → carriers id n fs ≡ count n (number_of id f) + carriers id n (without fs i)
at-without id n i [] f e = cc
at-without id n zero (g ∷ fs) f e = carriers-cons id n g fs ∙ cc
at-without id n (suc i) (g ∷ fs) f e =
    omega (
      arith,
      at-without id n i fs f e,
      carriers-cons id n g fs,
      carriers-cons id n g (without fs i),
    )

pub without-AllUnended :
    (id : String) (i : ℕ) (fs : List Frame) → AllUnended id fs → AllUnended id (without fs i)
without-AllUnended id i [] u = tt
without-AllUnended id zero (g ∷ fs) u = u.1
without-AllUnended id (suc i) (g ∷ fs) u = (u.0, without-AllUnended id i fs u.1)

pub at-Unended :
    (id : String) (i : ℕ) (fs : List Frame) (f : Frame)
    → AllUnended id fs
    → at fs i ≡ some f
    → Unended id f
at-Unended id i [] f u e = cc
at-Unended id zero (g ∷ fs) f u e = subst (Unended id) (some-injective g f e) u.0
at-Unended id (suc i) (g ∷ fs) f u e = at-Unended id i fs f u.1 e

-- A frame is sent or dropped.
pub deliver-carriers :
    (id : String) (n : ℕ) (link : Link) (f : Frame) (m : Multiplex) (fs : List Frame)
    → carriers id n (deliver link f m).sent + carriers id n (lost link f fs)
      ≡ carriers id n m.sent + carriers id n fs + count n (number_of id f)
deliver-carriers id n up f m fs =
    omega (arith, carriers-append id n m.sent (f ∷ []), carriers-cons id n f [])
deliver-carriers id n down f m fs = omega (arith, carriers-cons id n f fs)
deliver-carriers id n failing f m fs = omega (arith, carriers-cons id n f fs)

deliver-seqs : (link : Link) (f : Frame) (m : Multiplex) → (deliver link f m).seqs ≡ m.seqs
deliver-seqs up f m = refl
deliver-seqs down f m = refl
deliver-seqs failing f m = refl

pub complete-sent :
    (link : Link) (f : Frame) (m : Multiplex) → (complete link f m).sent ≡ (deliver link f m).sent
unfolding complete
complete-sent link (session_started s machine_id hostname) m = refl
complete-sent link (session_event k x kind ts content) m = refl
complete-sent link (session_ended k x kind reason) m = refl
complete-sent link (session_state_change k x ts from to) m = refl
complete-sent link (session_pty k x bytes ts) m = refl

pub complete-peek :
    (id : String) (link : Link) (f : Frame) (m : Multiplex)
    → Unended id f
    → peek id (complete link f m) ≡ peek id m
unfolding complete
complete-peek id link (session_ended k x kind reason) m differ =
    rw (deliver-seqs link (session_ended k x kind reason) m)
      (rw (lookup-delete k id m.seqs, differ))
complete-peek id link (session_started s machine_id hostname) m u =
    rw (deliver-seqs link (session_started s machine_id hostname) m)
complete-peek id link (session_event k x kind ts content) m u =
    rw (deliver-seqs link (session_event k x kind ts content) m)
complete-peek id link (session_state_change k x ts from to) m u =
    rw (deliver-seqs link (session_state_change k x ts from to) m)
complete-peek id link (session_pty k x bytes ts) m u =
    rw (deliver-seqs link (session_pty k x bytes ts) m)
