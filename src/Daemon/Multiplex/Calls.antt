-- ===== src/Daemon/Multiplex/Calls.antt =====
-- The calls of the multiplexer from several goroutines: between the step that takes a number and the
-- step that sends the frame, other calls may make theirs.
use pi_remote.Prelude.{ℕ, zero, suc, ◌≡◌, String, str_eq, false, Option, none, some, List, [], ◌∷◌}
use pi_remote.Daemon.Registry.{SessionState, Session, EndedKind}
use pi_remote.Daemon.Multiplex.{
  Frame, Link, up, down, failing, Multiplex, ExtEvent, Built, complete, register_built, event_built,
  ended_built, state_change_built, pty_built,
}

pub data Handler : Type 0 where
  registered : Session → Handler
  evented : String → List ℕ → ℕ → Handler
  finished : Session → EndedKind → String → Handler
  changed : String → SessionState → SessionState → ℕ → Handler
  printed : String → List ℕ → ℕ → Handler

-- A call begins, or the call whose frame stands at a place among those in flight completes.
pub data Step : Type 0 where
  begins : Handler → Step
  completes : ℕ → Link → Step

-- `flight` holds the frames that are built and not sent yet, `dropped` those whose call found no
-- connection or failed to send.
pub record Calls : Type 0 where
  pub multiplex : Multiplex
  pub flight : List Frame
  pub dropped : List Frame

abbrev pub holding : Calls → Built → Calls
holding c (m, none) = record c { multiplex = m }
holding c (m, some f) = record c { multiplex = m; flight = f ∷ c.flight }

abbrev pub without : List Frame → ℕ → List Frame
without [] i = []
without (f ∷ fs) zero = fs
without (f ∷ fs) (suc i) = f ∷ without fs i

abbrev pub at : List Frame → ℕ → Option Frame
at [] i = none
at (f ∷ fs) zero = some f
at (f ∷ fs) (suc i) = at fs i

abbrev pub lost : Link → Frame → List Frame → List Frame
lost up f fs = fs
lost down f fs = f ∷ fs
lost failing f fs = f ∷ fs

abbrev pub completed : Link → ℕ → Calls → Option Frame → Calls
completed link i c none = c
completed link i c (some f) = record {
  multiplex = complete link f c.multiplex;
  flight = without c.flight i;
  dropped = lost link f c.dropped;
}

-- No call ends the session `id`.
abbrev pub Spares : String → Step → Type 0
Spares id (begins (finished s kind reason)) = str_eq s.session_id id ≡ false
Spares id _ = Unit {0}

abbrev pub AllSpare : String → List Step → Type 0
AllSpare id [] = Unit {0}
AllSpare id (st ∷ steps) = Spares id st × AllSpare id steps

module _ (parse : List ℕ → Option ExtEvent) (machine_id : String) where
  unfoldable pub begin : Handler → Multiplex → Built
  begin (registered s) m = register_built machine_id s m
  begin (evented id b now) m = event_built parse id b now m
  begin (finished s kind reason) m = ended_built s kind reason m
  begin (changed id from to now) m = state_change_built id from to now m
  begin (printed id b now) m = let (m', f) = pty_built id b now m in (m', some f)

  unfoldable pub step : Step → Calls → Calls
  step (begins call) c = holding c (begin call c.multiplex)
  step (completes i link) c = completed link i c (at c.flight i)

  unfoldable pub run : List Step → Calls → Calls
  run [] c = c
  run (st ∷ steps) c = run steps (step st c)
