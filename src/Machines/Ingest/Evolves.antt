-- ===== src/Machines/Ingest/Evolves.antt =====
-- How the histories of the sessions change with a frame, and what does not touch the sessions.
use pi_remote.Prelude.{
  ℕ, ◌≡◌, refl, sym, subst, ◌⊎◌, inl, inr, String, str_eq, eq_iff, Option, none, some, List, [],
  ◌∷◌, ◌++◌, arith, string_eq, nat_eq, Bool-cases,
}
use pi_remote.Broker.Ring.{Entry}
use pi_remote.Broker.Lru.{Floats}
use pi_remote.Sessions.Channels.{Bytes}
use pi_remote.Sessions.Session.{State, Session}
use pi_remote.Sessions.Registry
use pi_remote.Sessions.Registry.{Encoder, advances, raise_seq, modify, put_in}
use pi_remote.Sessions.Registry.Histories.{AllTracked, set_history}
use pi_remote.Machines.Frames.{Decoder, EventKind}
use pi_remote.Machines.Ingest.{Ingestor, notify_change, notify_push}
use pi_remote.Machines.Ingest.Handle.{broadcast_known, notify_reason, notify_state}

-- A history stays, begins anew, or gets one entry, with the bytes `raw`.
abbrev pub Grows : Bytes → List Entry → List Entry → Type 0
Grows raw h h' = (h' ≡ h) ⊎ ((h' ≡ []) ⊎ ((e : Entry) × (e.payload ≡ raw) × (h' ≡ h ++ e ∷ [])))

-- The rings track histories that grow out of `hist`.
abbrev pub Evolves : Bytes → (String → List Entry) → Registry.Registry → Type 0
Evolves raw hist r =
    (hist' : String → List Entry) × AllTracked hist' r.sessions
    × ((id : String) → Grows raw (hist id) (hist' id))

pub stay :
    {raw : Bytes} (hist : String → List Entry) (r : Registry.Registry)
    → AllTracked hist r.sessions
    → Evolves raw hist r
stay {raw} hist r all = (hist, all, λ id. inl refl)

pub set_history-Grows :
    {raw : Bytes} (k id : String) (h : List Entry) (hist : String → List Entry)
    → Grows raw (hist k) h
    → Grows raw (hist id) (set_history k h hist id)
set_history-Grows {raw} k id h hist g = elim (Bool-cases (str_eq k id)) [
  | inl t ↦ rw t (subst (λ j. Grows raw (hist j) h) ((eq_iff k id).0 t) g)
  | inr f ↦ rw f (inl refl)
]

-- The hooks and the frames to the clients do not touch the sessions.
pub notify_change-sessions : (i : Ingestor) → (notify_change i).sessions ≡ i.sessions
unfolding notify_change
notify_change-sessions i = ground arith

pub notify_push-sessions :
    (id reason summary : String) (i : Ingestor)
    → (notify_push id reason summary i).sessions ≡ i.sessions
unfolding notify_push
notify_push-sessions id reason summary i = ground arith

pub notify_state-sessions :
    (id : String) (s : State) (i : Ingestor) → (notify_state id s i).sessions ≡ i.sessions
unfolding notify_state
notify_state-sessions id State.idle i = notify_push-sessions id _ _ i
notify_state-sessions id State.unresponsive i = notify_push-sessions id _ _ i
notify_state-sessions id _ i = refl

pub broadcast_known-sessions :
    (raw : Bytes) (i : Ingestor) (s : Option Session)
    → (broadcast_known raw i s).sessions ≡ i.sessions
broadcast_known-sessions raw i none = refl
broadcast_known-sessions raw i (some s) = refl

-- A state with the same sessions tracks the same histories.
pub same_sessions :
    {raw : Bytes} (hist : String → List Entry) (r r' : Registry.Registry)
    → r' ≡ r
    → Evolves raw hist r
    → Evolves raw hist r'
same_sessions {raw} hist r r' e (hist', all, grows) =
    (hist', subst (λ (z : Registry.Registry). AllTracked hist' z.sessions) (sym e) all, grows)

module _ (dec : Decoder) (enc : Encoder) (fl : Floats) (now : ℕ) where
  pub notify_reason-sessions :
      (id : String) (kind : EventKind) (b : Bytes) (i : Ingestor) (o : Option String)
      → (notify_reason dec enc fl now id kind b i o).sessions ≡ i.sessions
  notify_reason-sessions id kind b i none = refl
  notify_reason-sessions id kind b i (some reason) = notify_push-sessions id reason _ i
