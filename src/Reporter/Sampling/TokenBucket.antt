-- ===== src/Reporter/Sampling/TokenBucket.antt =====
-- v1/ao/internal/reporter/oboe.go: the token buckets. A time is a number of nanoseconds since Go's
-- zero time; each operation that reads the clock takes the reading. `consume`, `reset` and
-- `setRateCap` run under the lock; `count` takes none, and is modelled as one call alone.
pub mod Bounds
pub mod Counts
pub mod Exact
pub mod Interleaved
use appoptics_apm_go.Base.{ℕ, ◌-◌, ◌^◌, Bool, true, false, not, ◌==◌, if◌then◌else◌}
use Prim.Native.Nat.{min}
use appoptics_apm_go.Base.Floats.{Float64}
use appoptics_apm_go.Metrics.RateCounts.{
  RateCounts, no_counts, requested_inc, sampled_inc, limited_inc, traced_inc, through_inc,
}

pub record TokenBucket (F : Type 0) : Type 0 where
  pub rate_per_sec : F
  pub capacity : F
  pub available : F
  pub last : ℕ
  pub counts : RateCounts

-- `now.Sub(last)` where it is positive: it saturates at the greatest `Duration`.
abbrev pub time_since : ℕ → ℕ → ℕ
time_since last now = min (now - last) (2 ^ 63 - 1)

module _ {F : Type 0} ⦃f : Float64 F⦄ where
  -- The zero value of the struct.
  unfoldable pub empty_bucket : TokenBucket F
  empty_bucket = record {
    rate_per_sec = f.zero;
    capacity = f.zero;
    available = f.zero;
    last = 0;
    counts = no_counts;
  }

  unfoldable pub reset : TokenBucket F → TokenBucket F
  reset b = record b { rate_per_sec = f.zero; capacity = f.zero; available = f.zero; last = 0 }

  unfoldable pub set_rate_cap : F → F → TokenBucket F → TokenBucket F
  set_rate_cap rate cap b = record b {
    rate_per_sec = rate;
    capacity = cap;
    available = if f.lt cap b.available then cap else b.available;
  }

  unfoldable pub update : ℕ → TokenBucket F → TokenBucket F
  update now b =
      if f.lt b.available b.capacity
      then (let delta = time_since b.last now in
          if delta == 0 then record b { last = now } else record b {
            last = now;
            available = f.min b.capacity (f.add b.available (f.times_seconds b.rate_per_sec delta));
          })
      else b

  unfoldable pub consume : F → ℕ → TokenBucket F → Bool × TokenBucket F
  consume size now b =
      let b1 = update now b in
      if f.le size b1.available
      then (true, record b1 { available = f.sub b1.available size })
      else (false, b1)

  abbrev pub count_with : (RateCounts → RateCounts) → TokenBucket F → TokenBucket F
  count_with step b = record b { counts = step b.counts }

  -- The end of `count`: the request is traced.
  abbrev pub count_traced : Bool → TokenBucket F → Bool × TokenBucket F
  count_traced has_metadata b =
      (true, count_with traced_inc (if has_metadata then count_with through_inc b else b))

  -- The start of `count`.
  abbrev pub count_requested : Bool → TokenBucket F → TokenBucket F
  count_requested has_metadata b =
      let b1 = count_with requested_inc b in if has_metadata then b1 else count_with sampled_inc b1

  -- `sampled`, `hasMetadata`, `rateLimit`, and the clock's reading.
  unfoldable pub count : Bool → Bool → Bool → ℕ → TokenBucket F → Bool × TokenBucket F
  count sampled has_metadata rate_limit now b =
      let b1 = count_requested has_metadata b in
      if not sampled
      then (sampled, b1)
      else if rate_limit
      then (let taken = consume f.one now b1 in
          if not taken.0
          then (false, count_with limited_inc taken.1)
          else count_traced has_metadata taken.1)
      else count_traced has_metadata b1
