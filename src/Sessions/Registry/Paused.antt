-- ===== src/Sessions/Registry/Paused.antt =====
-- `PauseAllForMachine` keeps the histories.
use pi_remote.Prelude.{
  ℕ, ◌≡◌, refl, sym, ap, subst, ◌∙◌, inl, inr, String, str_eq, some, List, [], ◌∷◌, arith, Map,
  lookup, string_eq, Bool-cases, if_rule,
}
use mathlib.Core.Option.{some-injective}
use pi_remote.Broker.Ring.{Entry}
use pi_remote.Broker.Ring.History.{Tracks}
use pi_remote.Sessions.Channels.{Channels}
use pi_remote.Sessions.Session.{Session}
use pi_remote.Sessions.Registry.{
  Registry, Encoder, pause_all, pause, keeps_state, pause_all_for_machine,
}
use pi_remote.Sessions.Registry.Histories.{AllTracked}

module _ (enc : Encoder) where
  pause_all-lookup :
      (machine_id : String) (now : ℕ) (m : Map String Session) (ch : Channels) (id : String)
      (s' : Session)
      → lookup id (pause_all enc machine_id now m ch).0 ≡ some s'
      → (s : Session) × (lookup id m ≡ some s) × (s'.ring ≡ s.ring) × (s'.last_seq ≡ s.last_seq)
  unfolding pause_all
  pause_all-lookup machine_id now [] ch id s' e = cc
  pause_all-lookup machine_id now ((j, s) ∷ m) ch id s' e = elim (Bool-cases (str_eq j id)) [
    | inl t ↦
        let same = some-injective _ _ (rw t at e) in
        (
          s,
          rw t,
          sym (ap (λ (z : Session). z.ring) same)
              ∙ if_rule (λ (z : Session). z.ring ≡ s.ring) (keeps_state machine_id s) s
                  (pause now s) refl refl,
          sym (ap (λ (z : Session). z.last_seq) same)
              ∙ if_rule (λ (z : Session). z.last_seq ≡ s.last_seq) (keeps_state machine_id s) s
                  (pause now s) refl refl,
        )
    | inr f ↦
        let (s₀, l, ring, seq) = pause_all-lookup machine_id now m _ id s' (rw f at e) in
        (s₀, rw f l, ring, seq)
  ]

  pub pause_all_for_machine-AllTracked :
      (machine_id : String) (now : ℕ) (r : Registry) (ch : Channels) (hist : String → List Entry)
      → AllTracked hist r.sessions
      → AllTracked hist (pause_all_for_machine enc machine_id now (r, ch)).0.sessions
  unfolding pause_all_for_machine
  pause_all_for_machine-AllTracked machine_id now r ch hist all id s' e =
      let (s, l, ring, seq) = pause_all-lookup machine_id now r.sessions ch id s' e in
      let t = all id s l in
      record {
        tracks = subst (λ z. Tracks z (hist id)) (sym ring) t.tracks;
        seen = omega (arith, t.seen, seq);
      }
