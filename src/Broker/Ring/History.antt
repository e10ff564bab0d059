-- ===== src/Broker/Ring/History.antt =====
-- A ring against the history of all entries that were ever appended to it.
use pi_remote.Prelude.{
  ℕ, ◌+◌, ◌^◌, ◌≤◌, ◌<◌, ◌≡◌, ◌≢◌, refl, sym, ap, ◌∙◌, inl, inr, List, [], ◌∷◌, ◌++◌, arith, length,
  get_or, ltb, ◌==◌, if◌then◌else◌, Bool-cases, append_assoc,
}
use pi_remote.Broker.Ring.{Entry, RingBuffer, zero_entry, new_ring_buffer, write_entry, append}
use pi_remote.Broker.Ring.Contents.{
  view, total, IsShaped, evict_until_fits, evict_while-IsShaped, view_oldest, view_empty,
}
use pi_remote.Broker.Ring.Grow.{HasRoom, make_room_lem}
use pi_remote.Broker.Ring.Append.{append-IsShaped, view-append}

-- Sequence numbers rise strictly, from above `n`.
abbrev pub Above : ℕ → List Entry → Type 0
Above n [] = Unit {0}
Above n (e ∷ es) = (n < e.seq) × Above e.seq es

-- The number of the newest entry, or `n` if there is none.
abbrev pub last_seq : ℕ → List Entry → ℕ
last_seq n [] = n
last_seq n (e ∷ es) = last_seq e.seq es

-- `earliest_seq` is the number of the oldest live entry; in a ring that is empty, the number after
-- the newest one, or 0 if there was none.
abbrev pub Window : RingBuffer → List Entry → Type 0
Window r [] = r.earliest_seq ≡ (if r.latest_seq == 0 then 0 else r.latest_seq + 1)
Window r (e ∷ es) = r.earliest_seq ≡ e.seq

-- The ring holds the end of the history `h`, and its window of numbers tells where that begins.
pub record Tracks (r : RingBuffer) (h : List Entry) : Type 0 where
  pub shaped : IsShaped r
  pub increasing : Above 0 h
  pub dropped : List Entry
  pub split : h ≡ dropped ++ view r
  pub latest : r.latest_seq ≡ last_seq 0 h
  pub in_range : r.latest_seq + 1 < 2 ^ 64
  pub window : Window r (view r)

pub evict_until_fits_suffix :
    (max_bytes size : ℕ) (es : List Entry)
    → (gone : List Entry) × (es ≡ gone ++ evict_until_fits max_bytes size es)
evict_until_fits_suffix max_bytes size [] = ([], refl)
evict_until_fits_suffix max_bytes size (e ∷ es) =
    elim (Bool-cases (ltb max_bytes (total (e ∷ es) + size))) [
      | inl more ↦
          let (gone, eq) = evict_until_fits_suffix max_bytes size es in
          (e ∷ gone, ap (◌∷◌ e) (eq ∙ rw more))
      | inr done ↦ ([], rw done)
    ]

pub last_seq-le : (n : ℕ) (es : List Entry) → Above n es → n ≤ last_seq n es
last_seq-le n [] a = omega arith
last_seq-le n (e ∷ es) a = omega (arith, a.0, last_seq-le e.seq es a.1)

split_add {ℓ} :
    {A : Type ℓ} (h d v g w v' : List A) (e : A)
    → h ≡ d ++ v
    → v ≡ g ++ w
    → v' ≡ w ++ e ∷ []
    → h ++ e ∷ [] ≡ (d ++ g) ++ v'
split_add h d v g w v' e p q r = rw (p, q, r) (simp append_assoc)

pub split_cut {ℓ} :
    {A : Type ℓ} (h d v g w v' : List A) → h ≡ d ++ v → v ≡ g ++ w → v' ≡ w → h ≡ (d ++ g) ++ v'
split_cut h d v g w v' p q r = rw (p, q, r) (simp append_assoc)

Above-append :
    (n : ℕ) (es : List Entry) (e : Entry)
    → Above n es
    → last_seq n es < e.seq
    → Above n (es ++ e ∷ [])
Above-append n [] e a lt = (lt, tt)
Above-append n (x ∷ es) e a lt = (a.0, Above-append x.seq es e a.1 lt)

pub last_seq-append : (n : ℕ) (es : List Entry) (e : Entry) → last_seq n (es ++ e ∷ []) ≡ e.seq
last_seq-append n [] e = refl
last_seq-append n (x ∷ es) e = last_seq-append x.seq es e

pub Window-of_oldest :
    (r : RingBuffer)
    → IsShaped r
    → r.tail ≢ r.head
    → r.earliest_seq ≡ (get_or r.entries r.tail zero_entry).seq
    → Window r (view r)
Window-of_oldest r s ne e = rw (view_oldest r s ne) e

pub Window-of_empty :
    (r : RingBuffer)
    → r.tail ≡ r.head
    → r.earliest_seq ≡ (if r.latest_seq == 0 then 0 else r.latest_seq + 1)
    → Window r (view r)
Window-of_empty r same e = rw (view_empty r same) e

write_entry-Window :
    (e : Entry) (now : ℕ) (r : RingBuffer)
    → HasRoom r
    → IsShaped (write_entry e now r)
    → Window (write_entry e now r) (view (write_entry e now r))
unfolding write_entry
write_entry-Window e now r room s =
    Window-of_oldest (write_entry e now r) s (λ h. room (sym h)) refl

append-Window :
    (e : Entry) (now : ℕ) (r : RingBuffer)
    → IsShaped r
    → Window (append e now r) (view (append e now r))
unfolding append
append-Window e now r s =
    let made = make_room_lem _ (evict_while-IsShaped (length r.entries) (length e.payload) r s) in
    write_entry-Window e now _ made.1 (append-IsShaped e now r s)

append-latest : (e : Entry) (now : ℕ) (r : RingBuffer) → (append e now r).latest_seq ≡ e.seq
unfolding append write_entry
append-latest e now r = refl

pub new_ring_buffer-Tracks : (max_bytes now : ℕ) → Tracks (new_ring_buffer max_bytes now) []
unfolding new_ring_buffer
new_ring_buffer-Tracks max_bytes now = record {
  shaped = record {
    wide = omega arith;
    head_in = omega arith;
    tail_in = omega arith;
    counted = refl;
  };
  increasing = tt;
  dropped = [];
  split = refl;
  latest = refl;
  in_range = omega arith;
  window = refl;
}

-- `Append` extends the history that the ring tracks, if the number of the new entry is above all
-- numbers of the history and below 2^64 - 1.
pub append-Tracks :
    (e : Entry) (now : ℕ) (r : RingBuffer) (h : List Entry)
    → Tracks r h
    → last_seq 0 h < e.seq
    → e.seq + 1 < 2 ^ 64
    → Tracks (append e now r) (h ++ e ∷ [])
append-Tracks e now r h t lt small =
    let (gone, rest) = evict_until_fits_suffix r.max_bytes (length e.payload) (view r) in
    record {
      shaped = append-IsShaped e now r t.shaped;
      increasing = Above-append 0 h e t.increasing lt;
      dropped = t.dropped ++ gone;
      split = split_add h t.dropped _ gone _ _ e t.split rest (view-append e now r t.shaped);
      latest = append-latest e now r ∙ sym (last_seq-append 0 h e);
      in_range = rw (append-latest e now r) small;
      window = append-Window e now r t.shaped;
    }
