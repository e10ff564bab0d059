-- ===== src/Broker/Lru/Balance.antt =====
-- The balance ends, and ends balanced.
use pi_remote.Prelude.{
  ℕ, zero, suc, ◌+◌, ◌≤◌, ◌<◌, ◌≡◌, subst, ◌⊎◌, inl, inr, true, false, List, [], ◌∷◌, Option, none,
  some, arith, if◌then◌else◌, ltb, leb, leb→le, Bool-cases, if_rule, At, All, All-set, All-At, set,
  String, str_eq,
}
use pi_remote.Broker.Ring.{RingBuffer, evict_locked}
use pi_remote.Broker.Ring.Contents.{IsShaped}
use pi_remote.Broker.Lru.{
  Floats, LruItem, total_bytes, is_candidate, find_best, grow_active, shrink, shrink_loop,
  shrink_found, cost, total_cost, balance_global_lru,
}
use pi_remote.Broker.Lru.Evicted.{
  evict_locked-IsShaped, evict_locked-max, evict_locked_bytes, limit-IsShaped,
}
use pi_remote.Broker.Lru.Search.{NoCandidate, Found, find_best-Found}

abbrev pub HasShape : LruItem → Type 0
HasShape x = IsShaped x.ring

-- The global cap is kept, or no live session holds more than the floor.
abbrev pub Settled : ℕ → ℕ → List LruItem → Type 0
Settled total_cap floor_cap items = (total_bytes items ≤ total_cap) ⊎ NoCandidate floor_cap items

total_cost-set :
    (floor_cap : ℕ) (xs : List LruItem) (i : ℕ) (x y : LruItem)
    → At xs i x
    → total_cost floor_cap (set xs i y) + cost floor_cap x
      ≡ total_cost floor_cap xs + cost floor_cap y
total_cost-set floor_cap [] i x y at = absurd at
total_cost-set floor_cap (z ∷ xs) zero x y at = rw at (omega arith)
total_cost-set floor_cap (z ∷ xs) (suc i) x y at =
    omega (arith, total_cost-set floor_cap xs i x y at)

pub candidate_lt :
    (floor_cap : ℕ) (x : LruItem)
    → is_candidate floor_cap x ≡ true
    → (x.ended ≡ false) × (floor_cap < x.ring.bytes)
unfolding is_candidate
candidate_lt floor_cap x e = ground arith

limit_evicted :
    (r : RingBuffer) (m : ℕ)
    → IsShaped r
    → let q = evict_locked (record r { max_bytes = m }) in
      (q.max_bytes ≡ m) × (q.bytes ≤ q.max_bytes) × (q.bytes ≤ r.bytes)
limit_evicted r m s =
    let limited = limit-IsShaped r m s in
    let same = evict_locked-max (record r { max_bytes = m }) in
    let (fits, less) = evict_locked_bytes (record r { max_bytes = m }) limited in
    (same, omega (arith, same, fits), less)

At-index : (items : List LruItem) (i k : ℕ) (x : LruItem) → i ≡ 0 + k → At items k x → At items i x
At-index items i k x e at = subst (λ j. At items j x) (omega arith) at

shrink_found-Settled :
    (total_cap floor_cap : ℕ) (items : List LruItem) (out : Option (ℕ × LruItem))
    (next : ℕ → LruItem → List LruItem)
    → Found floor_cap items 0 out
    → ((i : ℕ) (x : LruItem)
        → At items i x
        → is_candidate floor_cap x ≡ true
        → Settled total_cap floor_cap (next i x))
    → Settled total_cap floor_cap (shrink_found items out next)
shrink_found-Settled total_cap floor_cap items none next f h = inr f
shrink_found-Settled total_cap floor_cap items (some (i, x)) next (k, e, at, c, _) h =
    h i x (At-index items i k x e at) c

module _ (fl : Floats) where
  pub shrink-HasShape :
      (floor_cap : ℕ) (x : LruItem) → HasShape x → HasShape (shrink fl floor_cap x)
  unfolding shrink
  shrink-HasShape floor_cap x s = evict_locked-IsShaped _ (limit-IsShaped x.ring _ s)

  -- The limit that a shrinking sets, and what the eviction under it leaves.
  pub shrink_limit :
      (floor_cap : ℕ) (x : LruItem)
      → HasShape x
      → let m = (shrink fl floor_cap x).ring.max_bytes in
        (m ≡ (
          if ltb (fl.shrunk x.ring.max_bytes) floor_cap
          then floor_cap
          else fl.shrunk x.ring.max_bytes))
        × ((shrink fl floor_cap x).ring.bytes ≤ m)
        × ((shrink fl floor_cap x).ring.bytes ≤ x.ring.bytes)
  unfolding shrink
  shrink_limit floor_cap x s = limit_evicted x.ring _ s

  -- A round costs at least one of the bound.
  shrink-cost :
      (floor_cap : ℕ) (x : LruItem)
      → HasShape x
      → is_candidate floor_cap x ≡ true
      → cost floor_cap (shrink fl floor_cap x) < cost floor_cap x
  shrink-cost floor_cap x s c = ground (
    arith,
    shrink_limit floor_cap x s,
    candidate_lt floor_cap x c,
    fl.shrunk_le x.ring.max_bytes,
    fl.shrunk_lt x.ring.max_bytes,
  )

  round_cost :
      (floor_cap : ℕ) (xs : List LruItem) (i : ℕ) (x : LruItem)
      → All HasShape xs
      → At xs i x
      → is_candidate floor_cap x ≡ true
      → total_cost floor_cap (set xs i (shrink fl floor_cap x)) < total_cost floor_cap xs
  round_cost floor_cap xs i x s at c = omega (
    arith,
    total_cost-set floor_cap xs i x (shrink fl floor_cap x) at,
    shrink-cost floor_cap x (All-At HasShape xs i x at s) c,
  )

  -- What every round keeps, the loop keeps.
  pub shrink_loop_rule :
      (P : List LruItem → Type 0) (total_cap floor_cap : ℕ)
      → ((xs : List LruItem) (i : ℕ) (x : LruItem)
          → P xs
          → At xs i x
          → is_candidate floor_cap x ≡ true
          → P (set xs i (shrink fl floor_cap x)))
      → (fuel : ℕ) (items : List LruItem) → P items
      → P (shrink_loop fl fuel total_cap floor_cap items)
  unfolding shrink_loop
  shrink_loop_rule P total_cap floor_cap keep zero items p = p
  shrink_loop_rule P total_cap floor_cap keep (suc fuel) items p =
      elim (Bool-cases (leb (total_bytes items) total_cap)) [
        | inl e ↦ rw (e, shrink_loop) p
        | inr e ↦
            rw (e, shrink_loop)
              (found (find_best floor_cap items 0 none) (find_best-Found floor_cap items 0)
                (λ i x at c.
                  shrink_loop_rule P total_cap floor_cap keep fuel
                    (set items i (shrink fl floor_cap x)) (keep items i x p at c)))
      ]
    where
      found :
          (out : Option (ℕ × LruItem))
          → Found floor_cap items 0 out
          → ((i : ℕ) (x : LruItem)
              → At items i x
              → is_candidate floor_cap x ≡ true
              → P (shrink_loop fl fuel total_cap floor_cap (set items i (shrink fl floor_cap x))))
          → P (
              shrink_found items out λ i x.
                shrink_loop fl fuel total_cap floor_cap (set items i (shrink fl floor_cap x)))
      found none f h = p
      found (some (i, x)) (k, e, at, c, _) h = h i x (At-index items i k x e at) c

  -- With more fuel than the bound the loop ends by one of its two tests.
  pub shrink_loop-Settled :
      (fuel total_cap floor_cap : ℕ) (items : List LruItem)
      → All HasShape items
      → total_cost floor_cap items < fuel
      → Settled total_cap floor_cap (shrink_loop fl fuel total_cap floor_cap items)
  unfolding shrink_loop
  shrink_loop-Settled zero total_cap floor_cap items s lt = absurd (omega arith)
  shrink_loop-Settled (suc fuel) total_cap floor_cap items s lt =
      elim (Bool-cases (leb (total_bytes items) total_cap)) [
        | inl e ↦ rw (e, shrink_loop) (inl (leb→le _ _ e))
        | inr e ↦
            rw (e, shrink_loop)
              (shrink_found-Settled total_cap floor_cap items (find_best floor_cap items 0 none) _
                (find_best-Found floor_cap items 0)
                (λ i x at c.
                  shrink_loop-Settled fuel total_cap floor_cap (set items i (shrink fl floor_cap x))
                    (All-set HasShape items i _ s
                      (shrink-HasShape floor_cap x (All-At HasShape items i x at s)))
                    (omega (arith, round_cost floor_cap items i x s at c))))
      ]

  grow_active-HasShape :
      (items : List LruItem) (active : String) (total_cap : ℕ)
      → All HasShape items
      → All HasShape (grow_active fl items active total_cap)
  unfolding grow_active
  grow_active-HasShape [] active total_cap s = tt
  grow_active-HasShape (x ∷ xs) active total_cap s =
      elim (Bool-cases (str_eq x.session_id active)) [
        | inl e ↦ rw e (limit-IsShaped x.ring _ s.0, s.1)
        | inr e ↦ rw e (s.0, grow_active-HasShape xs active total_cap s.1)
      ]

  -- Over rings in shape, `BalanceGlobalLRU` ends, and then the rings together keep the total cap
  -- or no ring of a live session holds more than the floor.
  pub balance_global_lru-Settled :
      (items : List LruItem) (active : String) (total_cap floor_cap : ℕ)
      → All HasShape items
      → Settled total_cap floor_cap (balance_global_lru fl items active total_cap floor_cap)
  unfolding balance_global_lru
  balance_global_lru-Settled items active total_cap floor_cap s =
      shrink_loop-Settled _ total_cap floor_cap _
        (if_rule (All HasShape) (ltb (total_bytes items) (fl.eighty_percent total_cap)) _ _
          (grow_active-HasShape items active total_cap s) s)
        (omega arith)
