-- ===== src/Daemon/Coordinator/Handshakes.antt =====
-- What goes over a new connection, and in which order.
use pi_remote.Prelude.{
  ℕ, suc, ◌+◌, ◌<◌, ◌≤◌, ◌≡◌, Bool-cases, inl, inr, refl, ap, ◌∙◌, Bool, true, false, some, List,
  [], ◌∷◌, ◌++◌, append-nil, append_assoc, length, length-append, if◌then◌else◌, arith,
}
use pi_remote.Daemon.Multiplex.{Frame, LiveSession}
use pi_remote.Daemon.Coordinator.{
  MachineRegisterInput, new_machine_register, Wire, machine_register, session_resume,
  machine_resumed, payload, Client, set_conn, write, send, resume_all, resumed_after, handshake,
}

abbrev pub resumes : ℕ → List LiveSession → List (ℕ × Wire)
resumes k [] = []
resumes k (s ∷ ss) = (k, session_resume s) ∷ resumes k ss

abbrev pub opening : ℕ → MachineRegisterInput → List LiveSession → List (ℕ × Wire)
opening k input live = (k, machine_register (new_machine_register input)) ∷ resumes k live

length-resumes : (k : ℕ) (live : List LiveSession) → length (resumes k live) ≡ length live
length-resumes k [] = refl
length-resumes k (s ∷ ss) = ap suc (length-resumes k ss)

-- The connection takes every frame as long as fewer than `n` were written.
abbrev pub TakesBelow : (List (ℕ × Wire) → Bool) → ℕ → Type 0
TakesBelow takes n = (w : List (ℕ × Wire)) → length w < n → takes w ≡ true

module _ (takes : List (ℕ × Wire) → Bool) (n k : ℕ) (open_to : TakesBelow takes n) where
  write-taken :
      (frame : Wire) (c : Client)
      → c.conn ≡ some k
      → length c.wire < n
      → write takes frame c ≡ (record c { wire = c.wire ++ (k, frame) ∷ [] }, true)
  unfolding write
  write-taken frame c e lt = rw (e, open_to c.wire lt) refl

  resume_all-taken :
      (live : List LiveSession) (c : Client)
      → c.conn ≡ some k
      → length c.wire + length live ≤ n
      → resume_all takes live c ≡ (record c { wire = c.wire ++ resumes k live }, true)
  unfolding resume_all
  resume_all-taken [] c e le = rw (append-nil c.wire) refl
  resume_all-taken (s ∷ ss) c e le =
      let w = c.wire ++ (k, session_resume s) ∷ [] in
      rw (write-taken (session_resume s) c e (omega arith)) (
        rw
          (resume_all-taken ss (record c { wire = w }) e
            (omega (arith, length-append c.wire ((k, session_resume s) ∷ []))))
          (rw (append_assoc c.wire ((k, session_resume s) ∷ []) (resumes k ss)) refl))

  opening-taken :
      (input : MachineRegisterInput) (live : List LiveSession) (c : Client)
      → c.conn ≡ some k
      → length c.wire + 1 + length live ≤ n
      → handshake takes input live c
        ≡ resumed_after takes (record c { wire = c.wire ++ opening k input live }, true)
  unfolding handshake
  opening-taken input live c e le =
      let frame = machine_register (new_machine_register input) in
      let w = c.wire ++ (k, frame) ∷ [] in
      rw (write-taken frame c e (omega arith)) (
        rw
          (resume_all-taken live (record c { wire = w }) e
            (omega (arith, length-append c.wire ((k, frame) ∷ []))))
          (rw (append_assoc c.wire ((k, frame) ∷ []) (resumes k live)) refl))

abbrev pub Always : (List (ℕ × Wire) → Bool) → Type 0
Always takes = (w : List (ℕ × Wire)) → takes w ≡ true

abbrev pub resumed_if : ℕ → Bool → List (ℕ × Wire)
resumed_if k pending = if pending then (k, machine_resumed) ∷ [] else []

-- On a connection that takes every frame a handshake writes machine_register, then session_resume
-- for each live session, in order, and then, if the machine was suspended, machine_resumed; that
-- is forgotten then.
handshake-opening :
    (takes : List (ℕ × Wire) → Bool) (k : ℕ) (input : MachineRegisterInput)
    (live : List LiveSession) (c : Client)
    → Always takes
    → c.conn ≡ some k
    → handshake takes input live c ≡ (
      record c {
        wire = c.wire ++ opening k input live ++ resumed_if k c.resume_pending;
        resume_pending = false;
      },
      true,
    )
unfolding write
handshake-opening takes k input live c all e =
    let n = length c.wire + 1 + length live in
    opening-taken takes n k (λ w lt. all w) input live c e (omega arith)
    ∙ elim (Bool-cases c.resume_pending) [
      | inl p ↦ rw (p, e, all (c.wire ++ opening k input live)) refl
      | inr p ↦ rw p (rw (append-nil (c.wire ++ opening k input live)) refl)
    ]

-- On a connection that takes every frame, a frame that another goroutine sends between the setting
-- of the connection and the handshake goes before machine_register, and all of the handshake
-- follows it.
pub handshake-send :
    (takes : List (ℕ × Wire) → Bool) (k : ℕ) (input : MachineRegisterInput)
    (live : List LiveSession) (frame : Frame) (c : Client)
    → Always takes
    → let c' = (handshake takes input live (send takes frame (set_conn k c)).0).0 in
      c'.wire
      ≡ c.wire ++ (k, payload frame) ∷ (opening k input live ++ resumed_if k c.resume_pending)
unfolding write
handshake-send takes k input live frame c all =
    let c' = record c { conn = some k; wire = c.wire ++ (k, payload frame) ∷ [] } in
    rw (all c.wire) (rw (handshake-opening takes k input live c' all refl) (simp append_assoc))

handshake-fails :
    (takes : List (ℕ × Wire) → Bool) (k : ℕ) (input : MachineRegisterInput)
    (live : List LiveSession) (c : Client)
    → TakesBelow takes (length c.wire + 1 + length live)
    → takes (c.wire ++ opening k input live) ≡ false
    → c.conn ≡ some k
    → c.resume_pending ≡ true
    → handshake takes input live c
      ≡ (record c { wire = c.wire ++ opening k input live; resume_pending = false }, false)
unfolding write
handshake-fails takes k input live c below fails e pending =
    let n = length c.wire + 1 + length live in
    opening-taken takes n k below input live c e (omega arith) ∙ rw (pending, e, fails) refl

-- Where a connection takes the frames of the handshake up to machine_resumed and fails at that one,
-- the handshake fails, and the next one, on a connection that takes every frame, writes
-- machine_register and the session_resume frames and no machine_resumed: the flag was cleared
-- before the write.
pub handshake-resumed_lost :
    (takes : List (ℕ × Wire) → Bool) (k next : ℕ) (input : MachineRegisterInput)
    (live later : List LiveSession) (c : Client)
    → TakesBelow takes (length c.wire + 1 + length live)
    → takes (c.wire ++ opening k input live) ≡ false
    → c.conn ≡ some k
    → c.resume_pending ≡ true
    → let failed = handshake takes input live c in
      (failed.1 ≡ false)
      × ((always : List (ℕ × Wire) → Bool)
          → Always always
          → (handshake always input later (set_conn next failed.0)).0.wire
            ≡ c.wire ++ opening k input live ++ opening next input later)
handshake-resumed_lost takes k next input live later c below fails e pending =
    rw (handshake-fails takes k input live c below fails e pending) (
      refl,
      λ always all.
          let w = c.wire ++ opening k input live in
          let c' = record c { conn = some next; wire = w; resume_pending = false } in
          rw (handshake-opening always next input later c' all refl)
            (append-nil (w ++ opening next input later)),
    )
