-- ===== src/Broker/Lru.antt =====
-- `BalanceGlobalLRU` of pi-remote-coordinator/internal/broker/broker.go. The rings are shared with
-- the sessions in the source; here the function returns the items with their rings changed.
pub mod Evicted
pub mod Search
pub mod Balance
pub mod Kept
pub mod Budget
use pi_remote.Prelude.{
  ℕ, zero, suc, ◌+◌, ◌-◌, ◌<◌, ◌≤◌, String, str_eq, Bool, true, false, not, ◌&&◌, Option, none,
  some, List, [], ◌∷◌, set, ltb, leb, if◌then◌else◌,
}
use pi_remote.Broker.Ring.{RingBuffer, evict_locked}

-- The three products with a float64 constant, converted back to int64.
pub record Floats : Type 0 where
  pub eighty_percent : ℕ → ℕ  -- int64(float64(x) * 0.8)
  pub grown : ℕ → ℕ  -- int64(float64(x) * 1.1)
  pub shrunk : ℕ → ℕ  -- int64(float64(x) * 0.9)
  pub grown_ge : (x : ℕ) → x ≤ grown x
  pub shrunk_le : (x : ℕ) → shrunk x ≤ x
  pub shrunk_lt : (x : ℕ) → 0 < x → shrunk x < x

pub record LruItem : Type 0 where
  pub session_id : String
  pub ended : Bool
  pub last_touched : ℕ
  pub ring : RingBuffer

abbrev pub total_bytes : List LruItem → ℕ
total_bytes [] = 0
total_bytes (x ∷ xs) = x.ring.bytes + total_bytes xs

-- The search for the session to shrink: `best` is the index and the item found so far.
unfoldable pub is_candidate : ℕ → LruItem → Bool
is_candidate floor_cap x = not x.ended && ltb floor_cap x.ring.bytes

unfoldable pub is_earlier : LruItem → Option (ℕ × LruItem) → Bool
is_earlier x none = true
is_earlier x (some (_, b)) = ltb x.last_touched b.last_touched

unfoldable pub find_best : ℕ → List LruItem → ℕ → Option (ℕ × LruItem) → Option (ℕ × LruItem)
find_best floor_cap [] i best = best
find_best floor_cap (x ∷ xs) i best =
    find_best floor_cap xs (suc i)
      (if is_candidate floor_cap x && is_earlier x best then some (i, x) else best)

-- A bound for the rounds of the loop: what each limit lies above the floor, and one round more
-- for each ring that holds more than the floor.
abbrev pub cost : ℕ → LruItem → ℕ
cost floor_cap x = (x.ring.max_bytes - floor_cap) + (if ltb floor_cap x.ring.bytes then 1 else 0)

abbrev pub total_cost : ℕ → List LruItem → ℕ
total_cost floor_cap [] = 0
total_cost floor_cap (x ∷ xs) = cost floor_cap x + total_cost floor_cap xs

-- `if bestItem == nil { break }`.
abbrev pub shrink_found :
    List LruItem → Option (ℕ × LruItem) → (ℕ → LruItem → List LruItem) → List LruItem
shrink_found items none next = items
shrink_found items (some (i, x)) next = next i x

module _ (fl : Floats) where
  -- The first item of the active session gets a limit that is 10% larger, at most the total cap.
  unfoldable pub grow_active : List LruItem → String → ℕ → List LruItem
  grow_active [] active total_cap = []
  grow_active (x ∷ xs) active total_cap =
      let rest = grow_active xs active total_cap in
      let up = fl.grown x.ring.max_bytes in
      let limit = if ltb total_cap up then total_cap else up in
      if str_eq x.session_id active
      then record x { ring = record x.ring { max_bytes = limit } } ∷ xs
      else x ∷ rest

  -- A limit that is 10% smaller, at least the floor, and an eviction under it.
  unfoldable pub shrink : ℕ → LruItem → LruItem
  shrink floor_cap x =
      let down = fl.shrunk x.ring.max_bytes in
      let limit = if ltb down floor_cap then floor_cap else down in
      record x { ring = evict_locked (record x.ring { max_bytes = limit }) }

  -- The shrinking loop, on fuel.
  unfoldable pub shrink_loop : ℕ → ℕ → ℕ → List LruItem → List LruItem
  shrink_loop zero total_cap floor_cap items = items
  shrink_loop (suc fuel) total_cap floor_cap items = elim (leb (total_bytes items) total_cap) [
    | true ↦ items
    | false ↦
        shrink_found items (find_best floor_cap items 0 none)
          λ i x. shrink_loop fuel total_cap floor_cap (set items i (shrink floor_cap x))
  ]

  unfoldable pub balance_global_lru : List LruItem → String → ℕ → ℕ → List LruItem
  balance_global_lru items active total_cap floor_cap =
      let items' =
        if ltb (total_bytes items) (fl.eighty_percent total_cap)
        then grow_active items active total_cap
        else items in
      shrink_loop (suc (total_cost floor_cap items')) total_cap floor_cap items'
