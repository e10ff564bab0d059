-- ===== src/Config/Limits.antt =====
-- What a configuration that loads gives the cache of the sessions.
use pi_remote.Prelude.{
  suc, zero, ℤ, pos, negsuc, ◌≤◌, ◌<◌, ◌≡◌, refl, sym, subst, String, Bool, true, false, not, ◌&&◌,
  Option, none, some, List, [], ◌∷◌, ◌++◌, arith,
}
use pi_remote.Config.{
  Config, File, Problem, is_positive, exceeds, unless, validate, if_valid, validated, with_env,
  from_file, load,
}
use pi_remote.Sessions.Registry.{Registry, new_registry_with_limits, initial_ring_max_bytes}

unless_nil :
    (b : Bool) (p : Problem) (rest : List Problem)
    → (unless b p ++ rest) ≡ []
    → (b ≡ true) × (rest ≡ [])
unless_nil true p rest e = (refl, e)
unless_nil false p rest e = cc

if_valid_inv :
    (cfg' cfg : Config) (problems : List Problem)
    → if_valid cfg' problems ≡ some cfg
    → (problems ≡ []) × (cfg' ≡ cfg)
if_valid_inv cfg' cfg [] e = (refl, cc e)
if_valid_inv cfg' cfg (p ∷ problems) e = cc

validated_inv : (o : Option Config) (cfg : Config) → validated o ≡ some cfg → validate cfg ≡ []
validated_inv none cfg e = cc
validated_inv (some cfg') cfg e =
    let (fine, same) = if_valid_inv cfg' cfg (validate cfg') e in
    subst (λ (c : Config). validate c ≡ []) same fine

-- The limits that the registry takes over.
pub record IsBounded (cfg : Config) (r : Registry) : Type 0 where
  pub total : pos r.total_cache_bytes ≡ cfg.total_cache_bytes
  pub floor : pos r.session_cache_floor_bytes ≡ cfg.session_cache_floor_bytes
  pub some_room : 0 < r.session_cache_floor_bytes
  pub ordered : r.session_cache_floor_bytes ≤ r.total_cache_bytes
  pub above : r.session_cache_floor_bytes ≤ initial_ring_max_bytes r
  pub below : initial_ring_max_bytes r ≤ r.total_cache_bytes

bounded :
    (cfg : Config) (t f : ℤ)
    → cfg.total_cache_bytes ≡ t
    → cfg.session_cache_floor_bytes ≡ f
    → is_positive t ≡ true
    → is_positive f ≡ true
    → exceeds f t ≡ false
    → IsBounded cfg (new_registry_with_limits t f)
unfolding new_registry_with_limits initial_ring_max_bytes
bounded cfg (pos (suc t)) (pos (suc f)) p q h k e = record {
  total = sym p;
  floor = sym q;
  some_room = omega arith;
  ordered = ground arith;
  above = ground arith;
  below = ground arith;
}
bounded cfg (pos zero) f p q h k e = cc
bounded cfg (negsuc t) f p q h k e = cc
bounded cfg (pos (suc t)) (pos zero) p q h k e = cc
bounded cfg (pos (suc t)) (negsuc f) p q h k e = cc

no_excess :
    (a b e : Bool) (problem : Problem)
    → a ≡ true
    → b ≡ true
    → unless (not (b && a && e)) problem ≡ []
    → e ≡ false
no_excess a b false problem p q h = refl
no_excess true true true problem p q h = cc
no_excess true false true problem p q h = cc
no_excess false b true problem p q h = cc

-- Whatever the file and the environment say: if the configuration loads, the registry of the
-- sessions takes its limits as they are, 0 < floor ≤ total, and a new ring gets a limit between
-- the two.
pub load-IsBounded :
    (explicit : Bool) (file : File) (getenv : String → String) (cfg : Config)
    → load explicit file getenv ≡ some cfg
    → IsBounded cfg (new_registry_with_limits cfg.total_cache_bytes cfg.session_cache_floor_bytes)
unfolding load validate
load-IsBounded explicit file getenv cfg e =
    let fine = validated_inv (with_env getenv (from_file explicit file)) cfg e in
    let (listens, e1) = unless_nil _ _ _ fine in
    let (p, e2) = unless_nil _ _ _ e1 in
    let (q, e3) = unless_nil _ _ _ e2 in
    bounded cfg cfg.total_cache_bytes cfg.session_cache_floor_bytes refl refl p q
      (no_excess _ _ _ _ p q e3)
