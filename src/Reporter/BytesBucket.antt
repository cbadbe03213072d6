-- ===== src/Reporter/BytesBucket.antt =====
-- v1/ao/internal/reporter/bytesbucket.go: the bucket that collects encoded events for one request
-- to the collector. The channels that `PourIn` selects from are the list of what they give, in the
-- order in which it takes them: a message, the timeout, or the closing of the bucket; where the
-- list ends it waits. A time is a number of nanoseconds, and a comparison with `HWM - watermark`
-- is written as one of sums, which is the same for Go's signed numbers.
pub mod Bounds
pub mod Filled
mod Runs
use appoptics_apm_go.Base.{
  ℕ, ◌+◌, ◌-◌, ◌^◌, Bool, true, false, not, ◌&&◌, ◌==◌, ltb, leb, if◌then◌else◌, List, [], ◌∷◌,
  ◌++◌, length,
}

pub record BytesBucket : Type 0 where
  pub hwm : ℕ
  pub watermark : ℕ
  pub next_drain_timeout : ℕ
  pub water : List (List ℕ)
  pub waiting_list : List (List ℕ)
  pub full : Bool
  pub graceful_shutdown : Bool
  pub never_drained : Bool
  pub dropped_count : ℕ

-- The options and the first interval; without an option for it the interval is the greatest one.
unfoldable pub new_bytes_bucket : ℕ → Bool → ℕ → ℕ → BytesBucket
new_bytes_bucket hwm graceful_shutdown interval now = record {
  hwm = hwm;
  watermark = 0;
  next_drain_timeout = now + interval;
  water = [];
  waiting_list = [];
  full = false;
  graceful_shutdown = graceful_shutdown;
  never_drained = true;
  dropped_count = 0;
}

pub data Event : Type 0 where
  message : List ℕ → Event
  timeout closed : Event

abbrev pub fits : List ℕ → BytesBucket → Bool
fits m b = leb (length m + b.watermark) b.hwm

-- Pour a message that fits.
unfoldable pub pour : List ℕ → BytesBucket → BytesBucket
pour m b = record b { watermark = b.watermark + length m; water = b.water ++ (m ∷ []) }

-- The loop over the waiting list.
unfoldable pub pour_waiting : List (List ℕ) → BytesBucket → BytesBucket
pour_waiting [] b = record b { waiting_list = [] }
pour_waiting (m ∷ waiting) b =
    let poured = pour_waiting waiting (pour m b) in
    if fits m b then poured else record b { waiting_list = m ∷ waiting }

-- A message that does not fit waits, if there is room for it.
unfoldable pub wait : List ℕ → BytesBucket → BytesBucket
wait m b =
    if leb (length b.waiting_list) 100
    then record b { waiting_list = b.waiting_list ++ (m ∷ []); full = true }
    else record b { full = true }

unfoldable pub close : BytesBucket → BytesBucket
close b = if b.graceful_shutdown && ltb 0 b.watermark then record b { full = true } else b

-- How the loop over the channels ends, or that it waits.
pub data Outcome : Type 0 where
  done : BytesBucket → List Event → Outcome
  shut : BytesBucket → List Event → Outcome
  waits : BytesBucket → Outcome

unfoldable pub pour_loop : List Event → Bool → BytesBucket → Outcome
pour_loop [] drain_asap b = waits b
pour_loop (message m ∷ events) drain_asap b =
    let dropped = pour_loop events drain_asap (record b { dropped_count = b.dropped_count + 1 }) in
    let poured = pour_loop events drain_asap (pour m b) in
    if ltb b.hwm (length m)
    then dropped
    else if fits m b
    then (if drain_asap then done (record (pour m b) { full = true }) events else poured)
    else done (wait m b) events
pour_loop (timeout ∷ events) drain_asap b =
    let armed = pour_loop events true b in
    if not (b.watermark == 0) then done (record b { full = true }) events else armed
pour_loop (closed ∷ events) drain_asap b = shut (close b) events

unfoldable pub pour_in : List Event → BytesBucket → Outcome
pour_in events b =
    let b1 = pour_waiting b.waiting_list b in
    if b.full then done b events else pour_loop events b.never_drained b1

abbrev pub bucket_of : Outcome → BytesBucket
bucket_of (done b rest) = b
bucket_of (shut b rest) = b
bucket_of (waits b) = b

-- What `PourIn` returns.
unfoldable pub poured_in : List Event → BytesBucket → ℕ
poured_in events b = (bucket_of (pour_in events b)).watermark - b.watermark

-- The water, and the bucket after it; `interval` is what `getInterval` returns.
unfoldable pub drain : ℕ → ℕ → BytesBucket → List (List ℕ) × BytesBucket
drain now interval b = (
  b.water,
  record b {
    water = [];
    watermark = 0;
    full = false;
    never_drained = false;
    next_drain_timeout = now + interval;
    dropped_count = 0;
  },
)

unfoldable pub water_count : BytesBucket → ℕ
water_count b = length b.water
