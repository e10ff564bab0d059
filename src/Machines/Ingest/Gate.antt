-- ===== src/Machines/Ingest/Gate.antt =====
-- The gate of `Ingestor.Handle`: a connection opens with machine_register.
use pi_remote.Prelude.{
  ℕ, ◌≡◌, ◌≢◌, refl, ◌∙◌, inl, inr, String, str_eq, eq_iff, Bool, true, false, Option, none, some,
  ap, arith, string_eq, nat_eq, Bool-cases, if_cases, if_rule,
}
use pi_remote.Broker.Lru.{Floats}
use pi_remote.Sessions.Channels.{Bytes}
use pi_remote.Sessions.Registry.{Encoder}
use pi_remote.Machines.Registry.{Conn}
use pi_remote.Machines.Frames.{Decoder, frame_type, looks_like_json_object}
use pi_remote.Machines.Ingest.{IngestError, ConnState, Ingestor, state_of, state_for}
use pi_remote.Machines.Ingest.Handle.{Outcome, is_register, gated, handle_head, handle}
use pi_remote.Machines.Ingest.Connections.{
  state_of-state_for, passes, IsRegistered, dispatch_keeps, dispatch_admits,
}

is_error : (x : IngestError) → some x ≢ none
is_error x e = cc

not_both : (b : Bool) → b ≡ true → b ≢ false
not_both b e f = cc

other_type : (t : String) → str_eq t "machine_register" ≡ false → is_register (frame_type t) ≡ false
unfolding frame_type
other_type t f = rw f (ground arith)

head_type : (t : String) → is_register (frame_type t) ≡ true → t ≡ "machine_register"
head_type t e = elim (Bool-cases (str_eq t "machine_register")) [
  | inl same ↦ (eq_iff t "machine_register").0 same
  | inr f ↦ absurd (not_both (is_register (frame_type t)) e (other_type t f))
]

abbrev Admits : Conn → Outcome → Type 0
Admits conn o = o.1 ≡ none → (state_of conn o.0).registered ≡ true

abbrev Keeps : Conn → Outcome → Type 0
Keeps c o = (state_of c o.0).registered ≡ true

abbrev Refuses : Ingestor → Outcome → Type 0
Refuses i o =
    (o.1 ≢ none)
    × ((c : Conn) → state_of c o.0 ≡ state_of c i)
    × (o.0 ≡ record i { conn_state = o.0.conn_state })

module _ (dec : Decoder) (enc : Encoder) (fl : Floats) (now : ℕ) where
  -- A connection whose frame is accepted is registered afterwards.
  pub handle_admits :
      (conn : Conn) (b : Bytes) (i : Ingestor)
      → (handle dec enc fl now conn b i).1 ≡ none
      → (state_of conn (handle dec enc fl now conn b i).0).registered ≡ true
  unfolding handle gated IsRegistered
  handle_admits conn b i = go (dec.head b)
    where
      go : (o : Option String) → Admits conn (handle_head dec enc fl now conn b i o)
      go none = λ e. cc
      go (some t) =
          if_rule (Admits conn) (looks_like_json_object b) _ _
            (if_cases (Admits conn) _ _ _ (λ refused e. cc)
              (λ passed.
                dispatch_admits dec enc fl now (frame_type t) conn _ b (state_for conn i)
                  (passes _ _ passed)))
            (λ e. cc)

  -- A registered connection stays registered, whatever frames come on it or on other ones.
  pub handle_keeps :
      (conn c : Conn) (b : Bytes) (i : Ingestor)
      → (state_of c i).registered ≡ true
      → (state_of c (handle dec enc fl now conn b i).0).registered ≡ true
  unfolding handle gated IsRegistered
  handle_keeps conn c b i known = go (dec.head b)
    where
      still : (state_of c (state_for conn i)).registered ≡ true
      still = rw (state_of-state_for c conn i) known

      go : (o : Option String) → Keeps c (handle_head dec enc fl now conn b i o)
      go none = known
      go (some t) =
          if_rule (Keeps c) (looks_like_json_object b) _ _
            (if_rule (Keeps c) _ _ _ still
              (dispatch_keeps dec enc fl now (frame_type t) conn c _ b (state_for conn i) still))
            known

  -- Before its connection is registered, a frame other than machine_register is an error and
  -- changes neither the machines, nor the sessions, nor what the clients and the hooks get, nor
  -- which connections are registered.
  pub handle_refuses :
      (conn : Conn) (b : Bytes) (i : Ingestor)
      → (state_of conn i).registered ≡ false
      → dec.head b ≢ some "machine_register"
      → let o = handle dec enc fl now conn b i in
        (o.1 ≢ none)
        × ((c : Conn) → state_of c o.0 ≡ state_of c i)
        × (o.0 ≡ record i { conn_state = o.0.conn_state })
  unfolding handle gated state_for
  handle_refuses conn b i fresh other = go (dec.head b) other
    where
      go :
          (o : Option String)
          → o ≢ some "machine_register"
          → Refuses i (handle_head dec enc fl now conn b i o)
      go none ne = (is_error _, (λ c. refl), refl)
      go (some t) ne =
          if_rule (Refuses i) (looks_like_json_object b) _ _
            (if_cases (Refuses i) _ _ _
              (λ refused. (is_error _, (λ c. state_of-state_for c conn i), refl))
              (λ passed.
                elim (passes (state_of conn (state_for conn i)).registered
                  (is_register (frame_type t)) passed) [
                    | inl r ↦ absurd (
                        not_both _ r (
                          ap (λ (z : ConnState). z.registered) (state_of-state_for conn conn i)
                          ∙ fresh))
                    | inr q ↦ absurd (ne (ap some (head_type t q)))
                  ]))
            (is_error _, (λ c. refl), refl)
