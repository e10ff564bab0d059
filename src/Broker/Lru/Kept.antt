-- ===== src/Broker/Lru/Kept.antt =====
-- What the balance leaves alone.
use pi_remote.Prelude.{
  ℕ, zero, suc, ◌≡◌, refl, ◌∙◌, inl, inr, Bool, true, false, List, [], ◌∷◌, ltb, Bool-cases,
  if_rule, At, set, String, str_eq,
}
use pi_remote.Broker.Ring.{Entry}
use pi_remote.Broker.Ring.Contents.{view}
use pi_remote.Broker.Ring.History.{Tracks}
use pi_remote.Broker.Ring.Evicted.{evict_locked-Tracks}
use pi_remote.Broker.Lru.{
  Floats, LruItem, total_bytes, is_candidate, grow_active, shrink, balance_global_lru,
}
use pi_remote.Broker.Lru.Evicted.{limit-Tracks}
use pi_remote.Broker.Lru.Balance.{shrink_loop_rule, candidate_lt}

-- The item is the same session, its ring still tracks the history that it tracked, and the ring of
-- a session that has ended holds what it held.
pub record Kept (x y : LruItem) : Type 0 where
  pub same_id : y.session_id ≡ x.session_id
  pub same_end : y.ended ≡ x.ended
  pub same_touch : y.last_touched ≡ x.last_touched
  pub history : (h : List Entry) → Tracks x.ring h → Tracks y.ring h
  pub shelter : x.ended ≡ true → view y.ring ≡ view x.ring

abbrev pub KeptAll : List LruItem → List LruItem → Type 0
KeptAll [] [] = Unit {0}
KeptAll (x ∷ xs) (y ∷ ys) = Kept x y × KeptAll xs ys
KeptAll _ _ = ⊥

Kept-refl : (x : LruItem) → Kept x x
Kept-refl x = record {
  same_id = refl;
  same_end = refl;
  same_touch = refl;
  history = λ h t. t;
  shelter = λ e. refl;
}

Kept-trans : {x y z : LruItem} → Kept x y → Kept y z → Kept x z
Kept-trans p q = record {
  same_id = q.same_id ∙ p.same_id;
  same_end = q.same_end ∙ p.same_end;
  same_touch = q.same_touch ∙ p.same_touch;
  history = λ h t. q.history h (p.history h t);
  shelter = λ e. q.shelter (p.same_end ∙ e) ∙ p.shelter e;
}

KeptAll-refl : (xs : List LruItem) → KeptAll xs xs
KeptAll-refl [] = tt
KeptAll-refl (x ∷ xs) = (Kept-refl x, KeptAll-refl xs)

KeptAll-set :
    (xs ys : List LruItem) (i : ℕ) (y z : LruItem)
    → KeptAll xs ys
    → At ys i y
    → Kept y z
    → KeptAll xs (set ys i z)
KeptAll-set [] [] i y z k at h = absurd at
KeptAll-set [] (w ∷ ys) i y z k at h = absurd k
KeptAll-set (x ∷ xs) [] i y z k at h = absurd k
KeptAll-set (x ∷ xs) (w ∷ ys) zero y z k at h = (Kept-trans (rw (← at) k.0) h, k.1)
KeptAll-set (x ∷ xs) (w ∷ ys) (suc i) y z k at h = (k.0, KeptAll-set xs ys i y z k.1 at h)

module _ (fl : Floats) where
  shrink-Kept :
      (floor_cap : ℕ) (x : LruItem)
      → is_candidate floor_cap x ≡ true
      → Kept x (shrink fl floor_cap x)
  unfolding shrink
  shrink-Kept floor_cap x c = record {
    same_id = refl;
    same_end = refl;
    same_touch = refl;
    history = λ h t. evict_locked-Tracks _ h (limit-Tracks x.ring _ h t);
    shelter = λ e. absurd (live_ended x.ended (candidate_lt floor_cap x c).0 e);
  }
    where
      live_ended : (b : Bool) → b ≡ false → b ≡ true → ⊥
      live_ended b p q = cc

  grow_active-KeptAll :
      (items : List LruItem) (active : String) (total_cap : ℕ)
      → KeptAll items (grow_active fl items active total_cap)
  unfolding grow_active
  grow_active-KeptAll [] active total_cap = tt
  grow_active-KeptAll (x ∷ xs) active total_cap = elim (Bool-cases (str_eq x.session_id active)) [
    | inl e ↦ rw e (
      record {
        same_id = refl;
        same_end = refl;
        same_touch = refl;
        history = λ h t. limit-Tracks x.ring _ h t;
        shelter = λ e. refl;
      },
      KeptAll-refl xs,
    )
    | inr e ↦ rw e (Kept-refl x, grow_active-KeptAll xs active total_cap)
  ]

  -- `BalanceGlobalLRU` returns the same sessions in the same order. Every ring still tracks the
  -- history that it tracked, and the ring of a session that has ended loses no entry.
  pub balance_global_lru-KeptAll :
      (items : List LruItem) (active : String) (total_cap floor_cap : ℕ)
      → KeptAll items (balance_global_lru fl items active total_cap floor_cap)
  unfolding balance_global_lru
  balance_global_lru-KeptAll items active total_cap floor_cap =
      shrink_loop_rule fl (KeptAll items) total_cap floor_cap
        (λ ys i y k at c. KeptAll-set items ys i y _ k at (shrink-Kept floor_cap y c)) _ _
        (if_rule (KeptAll items) (ltb (total_bytes items) (fl.eighty_percent total_cap)) _ _
          (grow_active-KeptAll items active total_cap) (KeptAll-refl items))
