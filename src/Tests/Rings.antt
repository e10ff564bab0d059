-- ===== src/Tests/Rings.antt =====
-- Runs of the ring.
use pi_remote.Prelude.{◌≡◌, refl, [], ◌∷◌, ◌++◌, true, length, arith, select, if◌then◌else◌}
use pi_remote.Broker.Ring.{
  append, replay, all_entries, evict_while, evict_oldest, must_evict, make_room, grow, grow_copy,
  write_entry, collect, new_ring_buffer,
}
use pi_remote.Broker.Ring.Contents.{view, evict_until_fits}
use pi_remote.Broker.Ring.Append.{view-append}
use pi_remote.Broker.Ring.Replay.{newer, replay_complete, in_reach, replay_unlost}
use pi_remote.Tests.Values.{
  entry, ring_two, ring_three, history_three, ring_five, ring_two-Tracks, ring_three-Tracks,
  ring_five-Tracks,
}

granted : (replay 1 ring_three).ok ≡ true
unfolding replay all_entries collect append evict_while must_evict evict_oldest make_room grow
    grow_copy write_entry new_ring_buffer
granted = refl

only_five : view ring_five ≡ entry 5 ∷ []
unfolding replay all_entries collect append evict_while must_evict evict_oldest make_room grow
    grow_copy write_entry new_ring_buffer
only_five = refl

view-append_example :
    view ring_three
    ≡ evict_until_fits ring_two.max_bytes (length (entry 3).payload) (view ring_two) ++ entry 3 ∷ []
view-append_example = view-append (entry 3) 3 ring_two ring_two-Tracks.shaped

replay_complete_example : (replay 1 ring_three).entries ≡ select (newer 1) history_three
replay_complete_example =
    replay_complete 1 ring_three history_three ring_three-Tracks (omega arith) (omega arith) granted

replay_unlost_example :
    ((replay 2 ring_five).ok ≡ in_reach 2 (entry 5))
    × ((replay 2 ring_five).entries
        ≡ (if in_reach 2 (entry 5) then select (newer 2) (entry 5 ∷ []) else []))
replay_unlost_example =
    replay_unlost 2 ring_five (entry 5) [] ring_five-Tracks only_five (omega arith)
