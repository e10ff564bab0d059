-- ===== src/Broker/Lru/Evicted.antt =====
-- What an eviction leaves in a ring.
use pi_remote.Prelude.{ℕ, ◌≤◌, ◌≡◌, ap, ◌∙◌, List, [], ◌∷◌, arith, length}
use pi_remote.Broker.Ring.{Entry, RingBuffer, evict_locked}
use pi_remote.Broker.Ring.Walk.{gap_lt}
use pi_remote.Broker.Ring.Contents.{
  view, total, IsShaped, evict_until_fits, evict_while-IsShaped, view-evict_while,
}
use pi_remote.Broker.Ring.History.{Tracks, Window}
use pi_remote.Broker.Ring.Evicted.{
  view-close_window, close_window-IsShaped, evicted-max, close_window-max,
}

pub total-evict_until_fits :
    (m : ℕ) (es : List Entry)
    → (total (evict_until_fits m 0 es) ≤ m) × (total (evict_until_fits m 0 es) ≤ total es)
total-evict_until_fits m [] = (omega arith, omega arith)
total-evict_until_fits m (e ∷ es) = ground (arith, total-evict_until_fits m es)

pub evict_locked-IsShaped : (r : RingBuffer) → IsShaped r → IsShaped (evict_locked r)
unfolding evict_locked
evict_locked-IsShaped r s = close_window-IsShaped _ (evict_while-IsShaped (length r.entries) 0 r s)

pub view-evict_locked :
    (r : RingBuffer) → IsShaped r → view (evict_locked r) ≡ evict_until_fits r.max_bytes 0 (view r)
unfolding evict_locked
view-evict_locked r s =
    view-close_window _
    ∙ view-evict_while (length r.entries) 0 r s (omega (arith, gap_lt _ _ _ s.tail_in s.head_in))

pub evict_locked-max : (r : RingBuffer) → (evict_locked r).max_bytes ≡ r.max_bytes
unfolding evict_locked
evict_locked-max r = close_window-max _ ∙ evicted-max (length r.entries) 0 r

-- An eviction brings a ring in shape under its limit, and adds nothing to it.
pub evict_locked_bytes :
    (r : RingBuffer)
    → IsShaped r
    → ((evict_locked r).bytes ≤ r.max_bytes) × ((evict_locked r).bytes ≤ r.bytes)
evict_locked_bytes r s =
    let size = (evict_locked-IsShaped r s).counted ∙ ap total (view-evict_locked r s) in
    let (fits, less) = total-evict_until_fits r.max_bytes (view r) in
    (omega (arith, size, fits), omega (arith, size, less, s.counted))

-- A new limit alone changes nothing of what the ring holds.
pub limit-IsShaped : (r : RingBuffer) (m : ℕ) → IsShaped r → IsShaped (record r { max_bytes = m })
limit-IsShaped r m s = record {
  wide = s.wide;
  head_in = s.head_in;
  tail_in = s.tail_in;
  counted = s.counted;
}

Window-limit :
    (r : RingBuffer) (m : ℕ) (v : List Entry) → Window r v → Window (record r { max_bytes = m }) v
Window-limit r m [] w = w
Window-limit r m (e ∷ v) w = w

pub limit-Tracks :
    (r : RingBuffer) (m : ℕ) (h : List Entry) → Tracks r h → Tracks (record r { max_bytes = m }) h
limit-Tracks r m h t = record {
  shaped = limit-IsShaped r m t.shaped;
  increasing = t.increasing;
  dropped = t.dropped;
  split = t.split;
  latest = t.latest;
  in_range = t.in_range;
  window = Window-limit r m (view r) t.window;
}
