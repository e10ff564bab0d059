-- ===== src/Broker/Lru/Budget.antt =====
-- The limits of the rings through a balance.
use pi_remote.Prelude.{
  ℕ, ◌≤◌, inl, inr, List, [], ◌∷◌, arith, ltb, Bool-cases, if_rule, All, All-set, All-At, String,
  str_eq,
}
use pi_remote.Broker.Ring.Contents.{IsShaped}
use pi_remote.Broker.Lru.{Floats, LruItem, total_bytes, grow_active, shrink, balance_global_lru}
use pi_remote.Broker.Lru.Evicted.{limit-IsShaped}
use pi_remote.Broker.Lru.Balance.{shrink_loop_rule, shrink_limit, shrink-HasShape}

-- The ring is in shape, and its limit lies between the floor and the total cap.
pub record InBudget (total_cap floor_cap : ℕ) (x : LruItem) : Type 0 where
  pub shaped : IsShaped x.ring
  pub above : floor_cap ≤ x.ring.max_bytes
  pub below : x.ring.max_bytes ≤ total_cap

module _ (fl : Floats) (total_cap floor_cap : ℕ) (ordered : floor_cap ≤ total_cap) where
  grow_active-InBudget :
      (items : List LruItem) (active : String)
      → All (InBudget total_cap floor_cap) items
      → All (InBudget total_cap floor_cap) (grow_active fl items active total_cap)
  unfolding grow_active
  grow_active-InBudget [] active b = tt
  grow_active-InBudget (x ∷ xs) active b = elim (Bool-cases (str_eq x.session_id active)) [
    | inl e ↦ rw e (
      record {
        shaped = limit-IsShaped x.ring _ b.0.shaped;
        above = ground (arith, fl.grown_ge x.ring.max_bytes, b.0.above);
        below = ground arith;
      },
      b.1,
    )
    | inr e ↦ rw e (b.0, grow_active-InBudget xs active b.1)
  ]

  shrink-InBudget :
      (x : LruItem)
      → InBudget total_cap floor_cap x
      → InBudget total_cap floor_cap (shrink fl floor_cap x)
  shrink-InBudget x b = record {
    shaped = shrink-HasShape fl floor_cap x b.shaped;
    above = ground (arith, shrink_limit fl floor_cap x b.shaped);
    below =
        ground
          (arith, shrink_limit fl floor_cap x b.shaped, fl.shrunk_le x.ring.max_bytes, b.below);
  }

  -- Where the floor is at most the total cap, `BalanceGlobalLRU` keeps every limit between them,
  -- and every ring in shape.
  pub balance_global_lru-InBudget :
      (items : List LruItem) (active : String)
      → All (InBudget total_cap floor_cap) items
      → All (InBudget total_cap floor_cap) (balance_global_lru fl items active total_cap floor_cap)
  unfolding balance_global_lru
  balance_global_lru-InBudget items active b =
      shrink_loop_rule fl (All (InBudget total_cap floor_cap)) total_cap floor_cap
        (λ xs i x p at c.
          All-set (InBudget total_cap floor_cap) xs i _ p
            (shrink-InBudget x (All-At (InBudget total_cap floor_cap) xs i x at p)))
        _ _
        (if_rule (All (InBudget total_cap floor_cap))
          (ltb (total_bytes items) (fl.eighty_percent total_cap)) _ _
          (grow_active-InBudget items active b) b)
