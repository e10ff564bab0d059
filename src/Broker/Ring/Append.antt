-- ===== src/Broker/Ring/Append.antt =====
-- `Append` against a queue of entries that is cut at its old end.
use pi_remote.Prelude.{
  ℕ, ◌+◌, ◌%◌, ◌≡◌, refl, ap, ◌∙◌, List, [], ◌∷◌, ◌++◌, arith, length, set, length-set,
}
use pi_remote.Broker.Ring.{Entry, RingBuffer, zero_entry, write_entry, append}
use pi_remote.Broker.Ring.Walk.{walk, gap, next_lt, gap_lt, walk_push}
use pi_remote.Broker.Ring.Contents.{
  view, total, IsShaped, evict_until_fits, evict_while-IsShaped, view-evict_while,
}
use pi_remote.Broker.Ring.Grow.{HasRoom, make_room_lem}

-- The write adds the entry at the end.
view-write_entry :
    (e : Entry) (now : ℕ) (r : RingBuffer)
    → IsShaped r
    → HasRoom r
    → view (write_entry e now r) ≡ view r ++ e ∷ []
unfolding write_entry
view-write_entry e now r s room =
    ap
      (λ n.
        walk zero_entry (set r.entries r.head e) n r.tail
          (gap n r.tail ((r.head + 1) % length r.entries)))
      (length-set r.entries r.head e)
    ∙ walk_push zero_entry r.entries (length r.entries) r.tail r.head e refl s.tail_in s.head_in
        room

total-append : (xs ys : List Entry) → total (xs ++ ys) ≡ total xs + total ys
total-append [] ys = omega arith
total-append (x ∷ xs) ys = omega (arith, total-append xs ys)

write_entry-IsShaped :
    (e : Entry) (now : ℕ) (r : RingBuffer) → IsShaped r → HasRoom r → IsShaped (write_entry e now r)
unfolding write_entry
write_entry-IsShaped e now r s room =
    let len = length-set r.entries r.head e in
    record {
      wide = omega (arith, len, s.wide);
      head_in = omega (arith, len, next_lt (length r.entries) r.head s.head_in);
      tail_in = omega (arith, len, s.tail_in);
      counted = omega (
        arith,
        s.counted,
        ap total (view-write_entry e now r s room),
        total-append (view r) (e ∷ []),
      );
    }

-- `Append` keeps the shape of the ring.
pub append-IsShaped :
    (e : Entry) (now : ℕ) (r : RingBuffer) → IsShaped r → IsShaped (append e now r)
unfolding append
append-IsShaped e now r s =
    let made = make_room_lem _ (evict_while-IsShaped (length r.entries) (length e.payload) r s) in
    write_entry-IsShaped e now _ made.0 made.1

-- On a ring in shape, `Append` drops the oldest entries until the new one fits within `MaxBytes`,
-- or none is left, and adds the new one at the end.
pub view-append :
    (e : Entry) (now : ℕ) (r : RingBuffer)
    → IsShaped r
    → view (append e now r) ≡ evict_until_fits r.max_bytes (length e.payload) (view r) ++ e ∷ []
unfolding append
view-append e now r s =
    let evicted = evict_while-IsShaped (length r.entries) (length e.payload) r s in
    let made = make_room_lem _ evicted in
    view-write_entry e now _ made.0 made.1
    ∙ ap (λ xs. xs ++ e ∷ [])
        (made.2
          ∙ view-evict_while (length r.entries) (length e.payload) r s
              (omega (arith, gap_lt _ _ _ s.tail_in s.head_in)))
