-- ===== src/Broker/Ring/Contents.antt =====
-- What a ring holds, oldest entry first, and the shape that its indices keep.
use pi_remote.Prelude.{
  ℕ, zero, suc, ◌+◌, ◌≤◌, ◌<◌, ◌≡◌, ◌≢◌, refl, sym, ap, ◌∙◌, ◌⊎◌, inl, inr, true, false, List, [],
  ◌∷◌, arith, length, get_or, ltb, if◌then◌else◌,
}
use pi_remote.Broker.Ring.{Entry, RingBuffer, zero_entry, must_evict, evict_oldest, evict_while}
use pi_remote.Broker.Ring.Walk.{walk, gap, next_lt, gap_zero, gap_ne, walk_empty, walk_unfold}

-- The live entries.
abbrev pub view : RingBuffer → List Entry
view r = walk zero_entry r.entries (length r.entries) r.tail (gap (length r.entries) r.tail r.head)

abbrev pub total : List Entry → ℕ
total [] = 0
total (e ∷ es) = length e.payload + total es

pub record IsShaped (r : RingBuffer) : Type 0 where
  pub wide : 2 ≤ length r.entries
  pub head_in : r.head < length r.entries
  pub tail_in : r.tail < length r.entries
  pub counted : r.bytes ≡ total (view r)

-- Eviction as a function of the contents: oldest entries go until `size` more bytes fit.
abbrev pub evict_until_fits : ℕ → ℕ → List Entry → List Entry
evict_until_fits max_bytes size [] = []
evict_until_fits max_bytes size (e ∷ es) =
    let rest = evict_until_fits max_bytes size es in
    if ltb max_bytes (total (e ∷ es) + size) then rest else e ∷ es

pub view_empty : (r : RingBuffer) → r.tail ≡ r.head → view r ≡ []
view_empty r e = walk_empty zero_entry r.entries (length r.entries) r.tail r.head e

pub view_oldest :
    (r : RingBuffer)
    → IsShaped r
    → r.tail ≢ r.head
    → view r ≡ get_or r.entries r.tail zero_entry ∷ view (evict_oldest r)
unfolding evict_oldest
view_oldest r s ne =
    walk_unfold zero_entry r.entries (length r.entries) r.tail r.head s.tail_in s.head_in ne

pub evict_oldest-IsShaped :
    (r : RingBuffer) → IsShaped r → r.tail ≢ r.head → IsShaped (evict_oldest r)
unfolding evict_oldest
evict_oldest-IsShaped r s ne = record {
  wide = s.wide;
  head_in = s.head_in;
  tail_in = next_lt _ _ s.tail_in;
  counted = omega (arith, s.counted, ap total (view_oldest r s ne));
}

pub must_evict_cases :
    (size : ℕ) (r : RingBuffer)
    → ((must_evict size r ≡ true) × (r.tail ≢ r.head) × (r.max_bytes < r.bytes + size))
      ⊎ ((must_evict size r ≡ false) × ((r.tail ≡ r.head) ⊎ (r.bytes + size ≤ r.max_bytes)))
unfolding must_evict
must_evict_cases size r = ground arith

-- The loop touches the two fields that it assigns and no other.
pub evict_while_frame :
    (fuel size : ℕ) (r : RingBuffer)
    → let q = evict_while fuel size r in q ≡ record r { bytes = q.bytes; tail = q.tail }
unfolding evict_while evict_oldest
evict_while_frame zero size r = refl
evict_while_frame (suc fuel) size r = ground (arith, evict_while_frame fuel size (evict_oldest r))

pub evict_while-IsShaped :
    (fuel size : ℕ) (r : RingBuffer) → IsShaped r → IsShaped (evict_while fuel size r)
unfolding evict_while
evict_while-IsShaped zero size r s = s
evict_while-IsShaped (suc fuel) size r s = elim (must_evict_cases size r) [
  | inl (e, ne, _) ↦
      rw e (evict_while-IsShaped fuel size (evict_oldest r) (evict_oldest-IsShaped r s ne))
  | inr (e, _) ↦ rw e s
]

-- A ring that needs no eviction is left alone by the specification too.
evict_until_fits_stop :
    (max_bytes size : ℕ) (es : List Entry)
    → (es ≡ []) ⊎ (total es + size ≤ max_bytes)
    → evict_until_fits max_bytes size es ≡ es
evict_until_fits_stop max_bytes size [] h = refl
evict_until_fits_stop max_bytes size (e ∷ es) h = ground arith

evict_until_fits_go :
    (max_bytes size : ℕ) (e : Entry) (es : List Entry)
    → max_bytes < total (e ∷ es) + size
    → evict_until_fits max_bytes size (e ∷ es) ≡ evict_until_fits max_bytes size es
evict_until_fits_go max_bytes size e es h = ground arith

stop_view :
    (size : ℕ) (r : RingBuffer)
    → IsShaped r
    → (r.tail ≡ r.head) ⊎ (r.bytes + size ≤ r.max_bytes)
    → (view r ≡ []) ⊎ (total (view r) + size ≤ r.max_bytes)
stop_view size r s (inl e) = inl (view_empty r e)
stop_view size r s (inr le) = inr (omega (arith, s.counted))

evict_oldest_max : (r : RingBuffer) → (evict_oldest r).max_bytes ≡ r.max_bytes
unfolding evict_oldest
evict_oldest_max r = refl

evict_oldest-gap :
    (r : RingBuffer)
    → IsShaped r
    → r.tail ≢ r.head
    → let q = evict_oldest r in
      gap (length r.entries) r.tail r.head ≡ suc (gap (length q.entries) q.tail q.head)
unfolding evict_oldest
evict_oldest-gap r s ne = gap_ne _ _ _ s.tail_in s.head_in ne

evict_oldest_fits :
    (size : ℕ) (r : RingBuffer)
    → IsShaped r
    → r.tail ≢ r.head
    → r.max_bytes < r.bytes + size
    → evict_until_fits (evict_oldest r).max_bytes size (view (evict_oldest r))
      ≡ evict_until_fits r.max_bytes size (view r)
evict_oldest_fits size r s ne lt =
    let old = view_oldest r s ne in
    rw (old, evict_oldest_max r)
      (sym (
        evict_until_fits_go r.max_bytes size _ (view (evict_oldest r))
          (omega (arith, s.counted, ap total old))))

-- With the length of the slice as fuel the loop computes the specification.
pub view-evict_while :
    (fuel size : ℕ) (r : RingBuffer)
    → IsShaped r
    → gap (length r.entries) r.tail r.head ≤ fuel
    → view (evict_while fuel size r) ≡ evict_until_fits r.max_bytes size (view r)
unfolding evict_while
view-evict_while zero size r s le = sym (
    evict_until_fits_stop r.max_bytes size (view r)
      (inl (view_empty r (gap_zero _ _ _ s.tail_in s.head_in (omega arith)))))
view-evict_while (suc fuel) size r s le = elim (must_evict_cases size r) [
  | inl (e, ne, lt) ↦ rw e (
      view-evict_while fuel size (evict_oldest r) (evict_oldest-IsShaped r s ne)
        (omega (arith, evict_oldest-gap r s ne))
      ∙ evict_oldest_fits size r s ne lt)
  | inr (e, h) ↦ rw e (sym (evict_until_fits_stop r.max_bytes size (view r) (stop_view size r s h)))
]
