-- ===== src/Broker/Ring.antt =====
-- The ring buffer of pi-remote-coordinator/internal/broker/broker.go. The mutex makes each method
-- atomic, so a method is a function from the old ring to the new one; `time.Now()` is an argument.
-- A loop takes fuel; `entries` is never longer than the fuel that its callers pass.
pub mod Walk
pub mod Contents
pub mod Grow
pub mod Append
pub mod History
pub mod Evicted
pub mod Replay
use pi_remote.Prelude.{
  ℕ, zero, suc, ◌+◌, ◌-◌, ◌*◌, ◌%◌, ◌^◌, Bool, true, false, ◌&&◌, ◌||◌, not, List, [], ◌∷◌, length,
  get_or, set, replicate, select, ltb, ◌==◌, if◌then◌else◌,
}

pub data EntryKind : Type 0 where
  event pty : EntryKind

pub record Entry : Type 0 where
  pub seq : ℕ  -- uint64
  pub kind : EntryKind
  pub ts : ℕ  -- int64, not negative
  pub payload : List ℕ

-- Go's zero value, which fills a new slice.
abbrev pub zero_entry : Entry
zero_entry = record { seq = 0; kind = event; ts = 0; payload = [] }

-- `bytes` and `maxBytes` are int64 in the source and stay far below 2^63 in memory.
pub record RingBuffer : Type 0 where
  pub entries : List Entry
  pub head : ℕ
  pub tail : ℕ
  pub bytes : ℕ
  pub max_bytes : ℕ
  pub earliest_seq : ℕ
  pub latest_seq : ℕ
  pub last_touched : ℕ

abbrev pub u64 : ℕ → ℕ
u64 n = n % 2 ^ 64

unfoldable pub new_ring_buffer : ℕ → ℕ → RingBuffer
new_ring_buffer max_bytes now = record {
  entries = replicate 128 zero_entry;
  head = 0;
  tail = 0;
  bytes = 0;
  max_bytes = max_bytes;
  earliest_seq = 0;
  latest_seq = 0;
  last_touched = now;
}

-- The body of the eviction loops.
unfoldable pub evict_oldest : RingBuffer → RingBuffer
evict_oldest r = record r {
  bytes = r.bytes - length (get_or r.entries r.tail zero_entry).payload;
  tail = (r.tail + 1) % length r.entries;
}

-- `r.Tail != r.Head && r.Bytes+size > r.MaxBytes`.
unfoldable pub must_evict : ℕ → RingBuffer → Bool
must_evict size r = not (r.tail == r.head) && ltb r.max_bytes (r.bytes + size)

-- The eviction loop of `Append`; that of `evictLocked` is the same with size 0.
unfoldable pub evict_while : ℕ → ℕ → RingBuffer → RingBuffer
evict_while zero size r = r
evict_while (suc fuel) size r =
    let rest = evict_while fuel size (evict_oldest r) in if must_evict size r then rest else r

-- The copying loop of the growth step, with its index `n` into the new slice. It tests at the end.
unfoldable pub grow_copy : ℕ → List Entry → ℕ → List Entry → ℕ → ℕ → List Entry × ℕ
grow_copy zero old head new n t = (new, n)
grow_copy (suc fuel) old head new n t =
    let new' = set new n (get_or old t zero_entry) in
    let t' = (t + 1) % length old in
    let rest = grow_copy fuel old head new' (n + 1) t' in if t' == head then (new', n + 1) else rest

unfoldable pub grow : RingBuffer → RingBuffer
grow r =
    let (new, n) =
      grow_copy (length r.entries) r.entries r.head (replicate (length r.entries * 2) zero_entry) 0
        r.tail in
    record r { entries = new; tail = 0; head = n }

-- Room for one more entry: a slice of 128 if there is none, twice the slice if it is full.
unfoldable pub make_room : RingBuffer → RingBuffer
make_room r =
    if length r.entries == 0
    then record r { entries = replicate 128 zero_entry }
    else if (r.head + 1) % length r.entries == r.tail
    then grow r
    else r

unfoldable pub write_entry : Entry → ℕ → RingBuffer → RingBuffer
write_entry entry now r =
    let entries' = set r.entries r.head entry in
    record r {
      entries = entries';
      head = (r.head + 1) % length r.entries;
      bytes = r.bytes + length entry.payload;
      latest_seq = entry.seq;
      earliest_seq = (get_or entries' r.tail zero_entry).seq;
      last_touched = now;
    }

unfoldable pub append : Entry → ℕ → RingBuffer → RingBuffer
append entry now r =
    let evicted = evict_while (length r.entries) (length entry.payload) r in
    write_entry entry now (make_room evicted)

-- What `evictLocked` does behind its loop.
unfoldable pub close_window : RingBuffer → RingBuffer
close_window r =
    if r.tail == r.head
    then record r {
      bytes = 0;
      earliest_seq = if r.latest_seq == 0 then r.earliest_seq else u64 (r.latest_seq + 1);
    }
    else record r { earliest_seq = (get_or r.entries r.tail zero_entry).seq }

unfoldable pub evict_locked : RingBuffer → RingBuffer
evict_locked r = close_window (evict_while (length r.entries) 0 r)

-- The collecting loop of `AllEntriesLocked`, which tests at the end.
unfoldable pub collect : ℕ → List Entry → ℕ → ℕ → List Entry
collect zero entries head t = []
collect (suc fuel) entries head t =
    let t' = (t + 1) % length entries in
    let rest = collect fuel entries head t' in
    get_or entries t zero_entry ∷ (if t' == head then [] else rest)

unfoldable pub all_entries : RingBuffer → List Entry
all_entries r =
    if r.head == r.tail || length r.entries == 0
    then []
    else collect (length r.entries) r.entries r.head r.tail

pub record Replayed : Type 0 where
  pub entries : List Entry
  pub ok : Bool
  pub earliest : ℕ
  pub latest : ℕ

unfoldable pub replay : ℕ → RingBuffer → Replayed
replay last_seq r =
    if last_seq == 0
    then result (all_entries r) true
    else if ltb (u64 (last_seq + 1)) r.earliest_seq
    then result [] false
    else result (select (λ e. ltb last_seq e.seq) (all_entries r)) true
  where
    result : List Entry → Bool → Replayed
    result es ok = record {
      entries = es;
      ok = ok;
      earliest = r.earliest_seq;
      latest = r.latest_seq;
    }
