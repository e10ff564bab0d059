-- ===== src/Daemon/Registry/Calls.antt =====
-- What the methods of the daemon's registry are called with, and the calls of OnEnded they make.
use pi_remote.Prelude.{
  ℕ, ◌+◌, ◌≤◌, ◌≡◌, refl, sym, ap, ◌∙◌, inl, inr, String, str_eq, eq_iff, Bool, true, false, some,
  List, [], ◌∷◌, ◌++◌, arith, Map, lookup, insert, delete, string_eq, if◌then◌else◌, Bool-cases,
  if_rule,
}
use mathlib.Core.Option.{some-injective}
use pi_remote.Daemon.Registry.{
  Session, Call, on_ended, Registry, invoke, register, update_heartbeat, event, already_ended,
  remove_with_reason, is_silent, sweep, sweep_heartbeats, is_stale, reap, reap_ended, mark_ended,
}

-- The calls of the methods that change the registry.
pub data Op : Type 0 where
  registering : Session → ℕ → Op
  beating : String → ℕ → Op
  sending : String → List ℕ → Op
  removing : String → String → ℕ → Op
  marking : String → ℕ → Op
  sweeping : ℕ → ℕ → Op
  reaping : ℕ → ℕ → Op

unfoldable pub step : Op → Registry → Registry
step (registering s now) r = (register s now r).0
step (beating id ts) r = (update_heartbeat id ts r).0
step (sending id b) r = event id b r
step (removing id reason now) r = remove_with_reason id reason now r
step (marking id now) r = mark_ended id now r
step (sweeping now timeout) r = (sweep_heartbeats now timeout r).0
step (reaping now ttl) r = (reap_ended now ttl r).0

unfoldable pub run : List Op → Registry → Registry
run [] r = r
run (op ∷ ops) r = run ops (step op r)

-- 1 for a call of OnEnded with a session of this id, 0 for any other call.
abbrev pub weight : String → Call → ℕ
weight id (on_ended s kind reason) = if str_eq s.session_id id then 1 else 0
weight id _ = 0

abbrev pub ended_calls : String → List Call → ℕ
ended_calls id [] = 0
ended_calls id (c ∷ cs) = weight id c + ended_calls id cs

pub ended_calls-append :
    (id : String) (xs ys : List Call)
    → ended_calls id (xs ++ ys) ≡ ended_calls id xs + ended_calls id ys
ended_calls-append id [] ys = omega arith
ended_calls-append id (c ∷ xs) ys = omega (arith, ended_calls-append id xs ys)

-- Each session stands under its own id.
abbrev pub IsKeyed : Map String Session → Type 0
IsKeyed [] = Unit {0}
IsKeyed ((k, s) ∷ m) = (s.session_id ≡ k) × IsKeyed m

pub IsKeyed-insert :
    (k : String) (s : Session) (m : Map String Session)
    → s.session_id ≡ k
    → IsKeyed m
    → IsKeyed (insert k s m)
IsKeyed-insert k s [] e t = (e, tt)
IsKeyed-insert k s ((j, x) ∷ m) e t =
    if_rule IsKeyed (str_eq j k) _ _ (e, t.1) (t.0, IsKeyed-insert k s m e t.1)

pub IsKeyed-delete : (k : String) (m : Map String Session) → IsKeyed m → IsKeyed (delete k m)
IsKeyed-delete k [] t = tt
IsKeyed-delete k ((j, x) ∷ m) t =
    if_rule IsKeyed (str_eq j k) _ _ (IsKeyed-delete k m t.1) (t.0, IsKeyed-delete k m t.1)

pub IsKeyed-lookup :
    (k : String) (m : Map String Session) (s : Session)
    → IsKeyed m
    → lookup k m ≡ some s
    → s.session_id ≡ k
IsKeyed-lookup k [] s t e = cc
IsKeyed-lookup k ((j, x) ∷ m) s t e = elim (Bool-cases (str_eq j k)) [
  | inl same ↦
      ap (λ (z : Session). z.session_id) (sym (some-injective _ _ (rw same at e)))
      ∙ t.0
      ∙ (eq_iff j k).0 same
  | inr f ↦ IsKeyed-lookup k m s t.1 (rw f at e)
]

pub IsKeyed-sweep :
    (now timeout : ℕ) (m : Map String Session) → IsKeyed m → IsKeyed (sweep now timeout m).0
unfolding sweep
IsKeyed-sweep now timeout [] t = tt
IsKeyed-sweep now timeout ((id, s) ∷ m) t =
    let rest = IsKeyed-sweep now timeout m t.1 in
    if_rule (λ (z : Map String Session × List String × List Call). IsKeyed z.0)
      (is_silent now timeout s) _ _ (t.0, rest) (t.0, rest)

pub sweep_calls :
    (id : String) (now timeout : ℕ) (m : Map String Session)
    → ended_calls id (sweep now timeout m).2 ≡ 0
unfolding sweep
sweep_calls id now timeout [] = refl
sweep_calls id now timeout ((j, s) ∷ m) =
    let rest = sweep_calls id now timeout m in
    if_rule (λ (z : Map String Session × List String × List Call). ended_calls id z.2 ≡ 0)
      (is_silent now timeout s) _ _ (omega (arith, rest)) rest

pub IsKeyed-reap : (now ttl : ℕ) (m : Map String Session) → IsKeyed m → IsKeyed (reap now ttl m).0
unfolding reap
IsKeyed-reap now ttl [] t = tt
IsKeyed-reap now ttl ((id, s) ∷ m) t =
    let rest = IsKeyed-reap now ttl m t.1 in
    if_rule (λ (z : Map String Session × ℕ). IsKeyed z.0) (is_stale now ttl s) _ _ rest (t.0, rest)

-- OnEnded was called once for a session that is marked as ended, and else never.
pub record Once (id : String) (r : Registry) : Type 0 where
  pub keyed : IsKeyed r.sessions
  pub once : ended_calls id r.calls ≤ (if already_ended id r then 1 else 0)

-- A call that is not OnEnded for this id keeps the invariant.
pub invoke-Once :
    (id : String) (installed : Bool) (call : Call) (r : Registry)
    → weight id call ≡ 0
    → Once id r
    → Once id (invoke installed call r)
invoke-Once id true call r w o = record {
  keyed = o.keyed;
  once = omega (arith, o.once, w, ended_calls-append id r.calls (call ∷ []));
}
invoke-Once id false call r w o = o

-- A change of the sessions alone keeps it.
pub sessions-Once :
    (id : String) (m : Map String Session) (r : Registry)
    → IsKeyed m
    → Once id r
    → Once id (record r { sessions = m })
sessions-Once id m r t o = record { keyed = t; once = o.once }
