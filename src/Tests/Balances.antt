-- ===== src/Tests/Balances.antt =====
-- Runs of the balance over all rings.
use pi_remote.Prelude.{◌≡◌, refl}
use pi_remote.Broker.Ring.{
  append, evict_while, evict_oldest, must_evict, make_room, grow, grow_copy, write_entry,
  new_ring_buffer,
}
use pi_remote.Broker.Lru.{balance_global_lru}
use pi_remote.Broker.Lru.Balance.{Settled, balance_global_lru-Settled}
use pi_remote.Broker.Lru.Kept.{KeptAll, balance_global_lru-KeptAll}
use pi_remote.Tests.Values.{
  floats, two_items, ring_two, ring_four, ring_two-Tracks, ring_four-Tracks,
}

limit_two : ring_two.max_bytes ≡ 5
unfolding append evict_while must_evict evict_oldest make_room grow grow_copy write_entry
    new_ring_buffer
limit_two = refl

limit_four : ring_four.max_bytes ≡ 5
unfolding append evict_while must_evict evict_oldest make_room grow grow_copy write_entry
    new_ring_buffer
limit_four = refl

balance_global_lru-Settled_example : Settled 6 2 (balance_global_lru floats two_items "t" 6 2)
balance_global_lru-Settled_example =
    balance_global_lru-Settled floats two_items "t" 6 2
      (ring_two-Tracks.shaped, (ring_four-Tracks.shaped, tt))

balance_global_lru-KeptAll_example : KeptAll two_items (balance_global_lru floats two_items "t" 6 2)
balance_global_lru-KeptAll_example = balance_global_lru-KeptAll floats two_items "t" 6 2
