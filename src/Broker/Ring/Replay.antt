-- ===== src/Broker/Ring/Replay.antt =====
-- `AllEntries` and `Replay` against the history of a ring.
use pi_remote.Prelude.{
  ℕ, zero, suc, ◌+◌, ◌-◌, ◌%◌, ◌^◌, ◌≤◌, ◌<◌, ◌≡◌, ◌≢◌, refl, sym, ap, subst, ◌∙◌, ◌⊎◌, inl, inr,
  Bool, true, false, List, [], ◌∷◌, ◌++◌, arith, length, get_or, select, ltb, ◌==◌, Bool-cases,
  ==_iff, ==_false, lt→ltb, leb, ◌||◌, if◌then◌else◌, select-append,
}
use pi_remote.Broker.Ring.{Entry, RingBuffer, zero_entry, collect, all_entries, replay}
use pi_remote.Broker.Ring.Walk.{
  walk, gap, gap_lt, gap_ne, gap_zero, walk_unfold, walk_empty, next_lt,
}
use pi_remote.Broker.Ring.Contents.{view, IsShaped, view_empty}
use pi_remote.Broker.Ring.History.{Above, last_seq, last_seq-le, Window, Tracks}

collect-walk :
    (fuel : ℕ) (es : List Entry) (head t : ℕ)
    → t < length es
    → head < length es
    → t ≢ head
    → gap (length es) t head ≤ fuel
    → collect fuel es head t ≡ walk zero_entry es (length es) t (gap (length es) t head)
unfolding collect
collect-walk zero es head t p q ne le = absurd (ne (gap_zero (length es) t head p q (omega arith)))
collect-walk (suc fuel) es head t p q ne le =
    let one = gap_ne (length es) t head p q ne in
    elim (Bool-cases ((t + 1) % length es == head)) [
      | inl e ↦ rw e (
          ap (◌∷◌ (get_or es t zero_entry))
            (sym (walk_empty zero_entry es (length es) _ head ((==_iff _ head).0 e)))
          ∙ sym (walk_unfold zero_entry es (length es) t head p q ne))
      | inr e ↦ rw e (
          ap (◌∷◌ (get_or es t zero_entry)) (
            collect-walk fuel es head ((t + 1) % length es) (next_lt _ t p) q (==_false _ head e)
              (omega arith))
          ∙ sym (walk_unfold zero_entry es (length es) t head p q ne))
    ]

-- `AllEntries` returns the live entries, oldest first.
pub all_entries-view : (r : RingBuffer) → IsShaped r → all_entries r ≡ view r
unfolding all_entries
all_entries-view r s = elim (Bool-cases (r.head == r.tail)) [
  | inl e ↦ rw e (sym (view_empty r (sym ((==_iff r.head r.tail).0 e))))
  | inr e ↦
      rw (e, not_empty (length r.entries) s.wide)
        (collect-walk (length r.entries) r.entries r.head r.tail s.tail_in s.head_in
          (λ h. ==_false r.head r.tail e (sym h)) (omega (arith, gap_lt _ _ _ s.tail_in s.head_in)))
]
  where
    not_empty : (n : ℕ) → 2 ≤ n → (n == 0) ≡ false
    not_empty n h = ground arith

abbrev pub newer : ℕ → Entry → Bool
newer last e = ltb last e.seq

-- No entry up to the newest one of a rising list with that number or more is newer.
select_none :
    (last n : ℕ) (es : List Entry) → Above n es → last_seq n es ≤ last → select (newer last) es ≡ []
select_none last n [] a le = refl
select_none last n (e ∷ es) a le =
    ground (arith, select_none last e.seq es a.1, last_seq-le e.seq es a.1)

Above-left : (n : ℕ) (xs ys : List Entry) → Above n (xs ++ ys) → Above n xs
Above-left n [] ys a = tt
Above-left n (x ∷ xs) ys a = (a.0, Above-left x.seq xs ys a.1)

Above-right : (n : ℕ) (xs ys : List Entry) → Above n (xs ++ ys) → Above (last_seq n xs) ys
Above-right n [] ys a = a
Above-right n (x ∷ xs) ys a = Above-right x.seq xs ys a.1

last_seq-append : (n : ℕ) (xs ys : List Entry) → last_seq n (xs ++ ys) ≡ last_seq (last_seq n xs) ys
last_seq-append n [] ys = refl
last_seq-append n (x ∷ xs) ys = last_seq-append x.seq xs ys

-- All that left the ring is older than its window.
dropped_old :
    (r : RingBuffer) (v : List Entry) (n : ℕ)
    → Above n v
    → r.latest_seq ≡ last_seq n v
    → Window r v
    → n ≤ r.earliest_seq - 1
dropped_old r [] n a l w = ground arith
dropped_old r (e ∷ v) n a l w = omega (arith, a.0)

dropped_before :
    (r : RingBuffer) (h : List Entry) (t : Tracks r h) → last_seq 0 t.dropped ≤ r.earliest_seq - 1
dropped_before r h t =
    let rising = subst (Above 0) t.split t.increasing in
    dropped_old r (view r) (last_seq 0 t.dropped) (Above-right 0 t.dropped (view r) rising)
      (t.latest ∙ ap (last_seq 0) t.split ∙ last_seq-append 0 t.dropped (view r)) t.window

replay_cases :
    (last : ℕ) (r : RingBuffer)
    → 0 < last
    → last + 1 < 2 ^ 64
    → (((replay last r).ok ≡ true)
        × (r.earliest_seq ≤ last + 1)
        × ((replay last r).entries ≡ select (newer last) (all_entries r)))
      ⊎ (((replay last r).ok ≡ false)
          × (last + 1 < r.earliest_seq)
          × ((replay last r).entries ≡ []))
unfolding replay
replay_cases last r pos small = ground arith

-- A client that has seen the entries up to number `last`, not 0, and whose replay is granted, is
-- sent exactly the newer entries of the whole history, in order, whatever the ring has dropped.
pub replay_complete :
    (last : ℕ) (r : RingBuffer) (h : List Entry)
    → Tracks r h
    → 0 < last
    → last + 1 < 2 ^ 64
    → (replay last r).ok ≡ true
    → (replay last r).entries ≡ select (newer last) h
replay_complete last r h t pos small granted = elim (replay_cases last r pos small) [
  | inl (_, le, e) ↦ e ∙ ap (select (newer last)) (all_entries-view r t.shaped) ∙ sym (whole le)
  | inr (refused, _, _) ↦ cc
]
  where
    rising : Above 0 t.dropped
    rising = Above-left 0 t.dropped (view r) (subst (Above 0) t.split t.increasing)

    whole : r.earliest_seq ≤ last + 1 → select (newer last) h ≡ select (newer last) (view r)
    whole le =
        ap (select (newer last)) t.split
        ∙ select-append (newer last) t.dropped (view r)
        ∙ ap (λ xs. xs ++ select (newer last) (view r))
            (select_none last 0 t.dropped rising (omega (arith, dropped_before r h t)))

-- A client that attaches with number 0 is sent all that the ring still holds.
pub replay_fresh :
    (r : RingBuffer) → IsShaped r → ((replay 0 r).ok ≡ true) × ((replay 0 r).entries ≡ view r)
unfolding replay
replay_fresh r s = (refl, all_entries-view r s)

-- The numbers of a history follow one another.
abbrev pub Dense : ℕ → List Entry → Type 0
Dense n [] = Unit {0}
Dense n (e ∷ es) = (e.seq ≡ n + 1) × Dense e.seq es

select_all : (last n : ℕ) (es : List Entry) → Above n es → last ≤ n → select (newer last) es ≡ es
select_all last n [] a le = refl
select_all last n (e ∷ es) a le =
    rw (lt→ltb last e.seq (omega (arith, a.0)), select_all last e.seq es a.1 (omega (arith, a.0)))

-- From where on a client has not missed an entry of a history that begins with `e`, as the ring
-- counts: also numbers below the first entry's, which no entry has, count as missed.
abbrev pub in_reach : ℕ → Entry → Bool
in_reach last e = last == 0 || leb e.seq (last + 1)

-- A ring that still holds its whole history, with a first entry `e`: a client with number 0, or with
-- one that is at most one below that of `e`, is granted the newer entries; any other is refused and
-- gets none, although the ring has dropped nothing.
pub replay_unlost :
    (last : ℕ) (r : RingBuffer) (e : Entry) (rest : List Entry)
    → Tracks r (e ∷ rest)
    → view r ≡ e ∷ rest
    → last + 1 < 2 ^ 64
    → ((replay last r).ok ≡ in_reach last e)
      × ((replay last r).entries ≡ (if in_reach last e then select (newer last) (e ∷ rest) else []))
replay_unlost zero r e rest t whole small =
    let (ok, all) = replay_fresh r t.shaped in
    (ok, all ∙ whole ∙ sym (select_all 0 0 (e ∷ rest) t.increasing (omega arith)))
replay_unlost (suc k) r e rest t whole small =
    let first = subst (Window r) whole t.window in
    elim (replay_cases (suc k) r (omega arith) small) [
      | inl (ok, le, es) ↦
          let reach : in_reach (suc k) e ≡ true = ground (arith, first) in
          rw reach (ok, es ∙ ap (select (newer (suc k))) (all_entries-view r t.shaped ∙ whole))
      | inr (refused, lt, nothing) ↦
          let short : in_reach (suc k) e ≡ false = ground (arith, first) in
          rw short (refused, nothing)
    ]
