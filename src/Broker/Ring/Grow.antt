-- ===== src/Broker/Ring/Grow.antt =====
-- Growth and the write: `Append` behind its eviction loop.
use pi_remote.Prelude.{
  ℕ, zero, suc, ◌+◌, ◌*◌, ◌%◌, ◌≤◌, ◌<◌, ◌≡◌, ◌≢◌, refl, sym, ap, ◌∙◌, inl, inr, false, List, [],
  ◌∷◌, ◌++◌, arith, length, get_or, set, take, ◌==◌, Bool-cases, ==_iff, take-set_next, ==_false,
  length-set, append_assoc, append-nil, length-replicate, replicate,
}
use pi_remote.Broker.Ring.{Entry, RingBuffer, zero_entry, grow_copy, grow, make_room}
use pi_remote.Broker.Ring.Walk.{
  walk, gap, next_lt, next_lem, gap_eq, gap_ne, gap_lt, gap_from_zero, walk_empty, walk_unfold,
  walk-take,
}
use pi_remote.Broker.Ring.Contents.{view, total, IsShaped}

-- What the copying loop has done when it ends: `m` is the number of entries copied so far.
record Copied (old new : List Entry) (n t head : ℕ) (out : List Entry × ℕ) : Type 0 where
  count : out.1 ≡ n + gap (length old) t head
  same_length : length out.0 ≡ length new
  copied :
      take out.1 out.0 ≡ take n new ++ walk zero_entry old (length old) t (gap (length old) t head)

-- One step of the loop moves an entry from the walk to the copy.
copy_step :
    (old new : List Entry) (n t head : ℕ)
    → t < length old
    → head < length old
    → t ≢ head
    → n < length new
    → let t' = (t + 1) % length old in
      take n new ++ walk zero_entry old (length old) t (gap (length old) t head)
      ≡ take (n + 1) (set new n (get_or old t zero_entry))
        ++ walk zero_entry old (length old) t' (gap (length old) t' head)
copy_step old new n t head p q ne room =
    ap (◌++◌ (take n new)) (walk_unfold zero_entry old (length old) t head p q ne)
    ∙ rw (take-set_next n new (get_or old t zero_entry) room)
        (sym (append_assoc (take n new) (get_or old t zero_entry ∷ []) _))

copy_last :
    (old new : List Entry) (n t head : ℕ)
    → t < length old
    → head < length old
    → t ≢ head
    → n < length new
    → (t + 1) % length old ≡ head
    → Copied old new n t head (set new n (get_or old t zero_entry), n + 1)
copy_last old new n t head p q ne room e =
    let one = gap_ne (length old) t head p q ne in
    let stop = gap_eq (length old) ((t + 1) % length old) head e in
    record {
      count = omega (arith, one, stop);
      same_length = length-set new n (get_or old t zero_entry);
      copied =
          sym (append-nil _)
          ∙ ap (◌++◌ (take (n + 1) (set new n (get_or old t zero_entry))))
              (sym (walk_empty zero_entry old (length old) ((t + 1) % length old) head e))
          ∙ sym (copy_step old new n t head p q ne room);
    }

copy_more :
    (old new : List Entry) (n t head : ℕ) (out : List Entry × ℕ)
    → t < length old
    → head < length old
    → t ≢ head
    → n < length new
    → Copied old (set new n (get_or old t zero_entry)) (n + 1) ((t + 1) % length old) head out
    → Copied old new n t head out
copy_more old new n t head out p q ne room c =
    let one = gap_ne (length old) t head p q ne in
    record {
      count = omega (arith, one, c.count);
      same_length = c.same_length ∙ length-set new n (get_or old t zero_entry);
      copied = c.copied ∙ sym (copy_step old new n t head p q ne room);
    }

grow_copy-Copied :
    (fuel : ℕ) (old : List Entry) (head : ℕ) (new : List Entry) (n t : ℕ)
    → t < length old
    → head < length old
    → t ≢ head
    → gap (length old) t head ≤ fuel
    → n + gap (length old) t head ≤ length new
    → Copied old new n t head (grow_copy fuel old head new n t)
unfolding grow_copy
grow_copy-Copied zero old head new n t p q ne le room =
    absurd (omega (arith, gap_ne (length old) t head p q ne))
grow_copy-Copied (suc fuel) old head new n t p q ne le room =
    let one = gap_ne (length old) t head p q ne in
    let fits : n < length new = omega arith in
    elim (Bool-cases ((t + 1) % length old == head)) [
      | inl e ↦ rw e (copy_last old new n t head p q ne fits ((==_iff _ head).0 e))
      | inr e ↦ rw e (
          copy_more old new n t head _ p q ne fits (
            grow_copy-Copied fuel old head (set new n (get_or old t zero_entry)) (n + 1)
              ((t + 1) % length old) (next_lt _ t p) q (λ h. ==_false _ head e h) (omega arith)
              (omega (arith, length-set new n (get_or old t zero_entry)))))
    ]

not_full : (n m h : ℕ) → m ≡ n * 2 → h < n → (h + 1) % m ≡ 0 → ⊥
not_full n m h e lt full = ground (arith, next_lem m h)

not_empty : (n : ℕ) → 2 ≤ n → (n == 0) ≡ false
not_empty n h = ground arith

full_ne : (n t h : ℕ) → 2 ≤ n → h < n → (h + 1) % n ≡ t → t ≢ h
full_ne n t h w lt full e = ground (arith, next_lem n h)

-- There is room for an entry behind `head`.
abbrev pub HasRoom : RingBuffer → Type 0
HasRoom r = (r.head + 1) % length r.entries ≢ r.tail

-- A ring over the copied slice holds what the old one held, in a slice that is not full.
regrown :
    (r : RingBuffer) (out : List Entry × ℕ)
    → IsShaped r
    → Copied r.entries (replicate (length r.entries * 2) zero_entry) 0 r.tail r.head out
    → let q = record r { entries = out.0; tail = 0; head = out.1 } in
      IsShaped q × HasRoom q × (view q ≡ view r)
regrown r out s c =
    let size = c.same_length ∙ length-replicate (length r.entries * 2) zero_entry in
    let small = gap_lt (length r.entries) r.tail r.head s.tail_in s.head_in in
    let head_in : out.1 < length out.0 = omega (arith, size, small, c.count, s.wide) in
    let same : view (record r { entries = out.0; tail = 0; head = out.1 }) ≡ view r =
      ap (walk zero_entry out.0 (length out.0) 0) (gap_from_zero (length out.0) out.1)
      ∙ walk-take zero_entry out.0 (length out.0) out.1 refl (omega (arith, head_in))
      ∙ c.copied in
    (
      record {
        wide = omega (arith, size, s.wide);
        head_in = head_in;
        tail_in = omega (arith, head_in);
        counted = s.counted ∙ ap total (sym same);
      },
      (λ e.
          not_full (length r.entries) (length out.0) out.1 size (omega (arith, small, c.count)) e),
      same,
    )

grow_lem :
    (r : RingBuffer)
    → IsShaped r
    → (r.head + 1) % length r.entries ≡ r.tail
    → IsShaped (grow r) × HasRoom (grow r) × (view (grow r) ≡ view r)
unfolding grow
grow_lem r s full = regrown r _ s (
    grow_copy-Copied (length r.entries) r.entries r.head _ 0 r.tail s.tail_in s.head_in
      (full_ne (length r.entries) r.tail r.head s.wide s.head_in full) (omega (arith, small))
      (omega (arith, small, length-replicate (length r.entries * 2) zero_entry)))
  where
    small : gap (length r.entries) r.tail r.head < length r.entries
    small = gap_lt (length r.entries) r.tail r.head s.tail_in s.head_in

-- Behind `make_room` there is room, and the contents are the same.
pub make_room_lem :
    (r : RingBuffer)
    → IsShaped r
    → IsShaped (make_room r) × HasRoom (make_room r) × (view (make_room r) ≡ view r)
unfolding make_room
make_room_lem r s = elim (Bool-cases ((r.head + 1) % length r.entries == r.tail)) [
  | inl e ↦ rw (not_empty (length r.entries) s.wide, e) (grow_lem r s ((==_iff _ r.tail).0 e))
  | inr e ↦ rw (not_empty (length r.entries) s.wide, e) (s, ==_false _ r.tail e, refl)
]

pub make_room_frame :
    (r : RingBuffer)
    → let q = make_room r in q ≡ record r { entries = q.entries; head = q.head; tail = q.tail }
unfolding make_room grow
make_room_frame r = ground arith
