-- ===== src/Broker/Ring/Evicted.antt =====
-- `evictLocked` under a lowered limit, against the history of the ring.
use pi_remote.Prelude.{
  ℕ, ◌+◌, ◌^◌, ◌<◌, ◌≡◌, ◌≢◌, refl, sym, ap, ap₂, subst, ◌∙◌, inl, inr, List, [], ◌∷◌, ◌++◌, arith,
  length, get_or, ◌==◌, if◌then◌else◌, Bool-cases, ==_iff, ==_false,
}
use pi_remote.Broker.Ring.{Entry, RingBuffer, zero_entry, evict_while, evict_locked, close_window}
use pi_remote.Broker.Ring.Walk.{gap_lt}
use pi_remote.Broker.Ring.Contents.{
  view, total, IsShaped, evict_while-IsShaped, view-evict_while, evict_while_frame, view_empty,
}
use pi_remote.Broker.Ring.History.{
  Above, last_seq, Window, Tracks, evict_until_fits_suffix, last_seq-le, split_cut,
  Window-of_oldest, Window-of_empty,
}

evicted-earliest :
    (fuel size : ℕ) (r : RingBuffer) → (evict_while fuel size r).earliest_seq ≡ r.earliest_seq
evicted-earliest fuel size r =
    ap (λ (q : RingBuffer). q.earliest_seq) (evict_while_frame fuel size r)

evicted-latest :
    (fuel size : ℕ) (r : RingBuffer) → (evict_while fuel size r).latest_seq ≡ r.latest_seq
evicted-latest fuel size r = ap (λ (q : RingBuffer). q.latest_seq) (evict_while_frame fuel size r)

pub evicted-max :
    (fuel size : ℕ) (r : RingBuffer) → (evict_while fuel size r).max_bytes ≡ r.max_bytes
evicted-max fuel size r = ap (λ (q : RingBuffer). q.max_bytes) (evict_while_frame fuel size r)

pub close_window-max : (r : RingBuffer) → (close_window r).max_bytes ≡ r.max_bytes
unfolding close_window
close_window-max r = ground arith

-- Behind its loop `evictLocked` moves no entry.
pub view-close_window : (r : RingBuffer) → view (close_window r) ≡ view r
unfolding close_window
view-close_window r = ground arith

close_window-latest : (r : RingBuffer) → (close_window r).latest_seq ≡ r.latest_seq
unfolding close_window
close_window-latest r = ground arith

pub close_window-IsShaped : (r : RingBuffer) → IsShaped r → IsShaped (close_window r)
unfolding close_window
close_window-IsShaped r s = elim (Bool-cases (r.tail == r.head)) [
  | inl e ↦ rw e (record {
    wide = s.wide;
    head_in = s.head_in;
    tail_in = s.tail_in;
    counted = ap total (sym (view_empty r ((==_iff r.tail r.head).0 e)));
  })
  | inr e ↦
      rw e (record { wide = s.wide; head_in = s.head_in; tail_in = s.tail_in; counted = s.counted })
]

close_window_ends :
    (r : RingBuffer)
    → ((close_window r).tail ≡ r.tail)
      × ((close_window r).head ≡ r.head)
      × ((close_window r).entries ≡ r.entries)
unfolding close_window
close_window_ends r = ground arith

close_window_empty :
    (r : RingBuffer)
    → r.tail ≡ r.head
    → r.latest_seq + 1 < 2 ^ 64
    → (r.latest_seq ≡ 0 → r.earliest_seq ≡ 0)
    → (close_window r).earliest_seq
      ≡ (if (close_window r).latest_seq == 0 then 0 else (close_window r).latest_seq + 1)
unfolding close_window
close_window_empty r same small zero_case = ground (arith, zero_case)

close_window_full :
    (r : RingBuffer)
    → r.tail ≢ r.head
    → (close_window r).earliest_seq ≡ (get_or r.entries r.tail zero_entry).seq
unfolding close_window
close_window_full r ne = ground arith

close_window-Window :
    (r : RingBuffer)
    → IsShaped r
    → r.latest_seq + 1 < 2 ^ 64
    → (r.latest_seq ≡ 0 → r.earliest_seq ≡ 0)
    → Window (close_window r) (view (close_window r))
close_window-Window r s small zero_case =
    let (tails, heads, slices) = close_window_ends r in
    elim (Bool-cases (r.tail == r.head)) [
      | inl e ↦
          let same = (==_iff r.tail r.head).0 e in
          Window-of_empty (close_window r) (tails ∙ same ∙ sym heads)
            (close_window_empty r same small zero_case)
      | inr e ↦
          let ne = ==_false r.tail r.head e in
          Window-of_oldest (close_window r) (close_window-IsShaped r s)
            (λ h. ne (sym tails ∙ h ∙ heads))
            (close_window_full r ne
              ∙ ap₂ (λ es t. (get_or es t zero_entry).seq) (sym slices) (sym tails))
    ]

last_seq_zero : (h : List Entry) → Above 0 h → last_seq 0 h ≡ 0 → h ≡ []
last_seq_zero [] a e = refl
last_seq_zero (x ∷ h) a e = absurd (omega (arith, last_seq-le x.seq h a.1))

append_nil_right {ℓ} : {A : Type ℓ} (xs ys : List A) → xs ++ ys ≡ [] → ys ≡ []
append_nil_right [] ys e = e
append_nil_right (x ∷ xs) ys e = cc

-- A ring that has seen no entry has 0 for its oldest number.
earliest_zero :
    (r : RingBuffer) (h : List Entry) → Tracks r h → r.latest_seq ≡ 0 → r.earliest_seq ≡ 0
earliest_zero r h t e =
    let none_seen = last_seq_zero h t.increasing (sym t.latest ∙ e) in
    let nothing = append_nil_right t.dropped (view r) (sym t.split ∙ none_seen) in
    subst (Window r) nothing t.window ∙ rw e

-- Eviction under a lower limit keeps the history tracked.
pub evict_locked-Tracks : (r : RingBuffer) (h : List Entry) → Tracks r h → Tracks (evict_locked r) h
unfolding evict_locked
evict_locked-Tracks r h t =
    let fuel = length r.entries in
    let (gone, rest) = evict_until_fits_suffix r.max_bytes 0 (view r) in
    let shaped = evict_while-IsShaped fuel 0 r t.shaped in
    let latest = evicted-latest fuel 0 r in
    record {
      shaped = close_window-IsShaped _ shaped;
      increasing = t.increasing;
      dropped = t.dropped ++ gone;
      split = split_cut h t.dropped _ gone _ _ t.split rest (
          view-close_window (evict_while fuel 0 r)
          ∙ view-evict_while fuel 0 r t.shaped
              (omega (arith, gap_lt _ _ _ t.shaped.tail_in t.shaped.head_in)));
      latest = close_window-latest _ ∙ latest ∙ t.latest;
      in_range = rw (close_window-latest (evict_while fuel 0 r), latest) t.in_range;
      window =
          close_window-Window _ shaped (rw latest t.in_range)
            (λ e. evicted-earliest fuel 0 r ∙ earliest_zero r h t (sym latest ∙ e));
    }
