-- ===== src/Metrics/RateCounts.antt =====
-- v1/ao/internal/metrics/metrics.go: the request counters of a token bucket. An `int64` is its
-- residue modulo 2^64. The flush, whose five swaps are atomic one by one, is one call alone.
use appoptics_apm_go.Base.{ℕ, ◌+◌, ◌%◌, ◌^◌}

pub record RateCounts : Type 0 where
  pub requested : ℕ
  pub sampled : ℕ
  pub limited : ℕ
  pub traced : ℕ
  pub through : ℕ

abbrev pub no_counts : RateCounts
no_counts = record { requested = 0; sampled = 0; limited = 0; traced = 0; through = 0 }

-- Go's `atomic.AddInt64`.
abbrev pub add_int64 : ℕ → ℕ → ℕ
add_int64 n delta = (n + delta) % 2 ^ 64

-- The returned counts, and the counters after the swaps.
unfoldable pub flush_rate_counts : RateCounts → RateCounts × RateCounts
flush_rate_counts c = (
  record {
    requested = c.requested;
    sampled = c.sampled;
    limited = c.limited;
    traced = c.traced;
    through = c.through;
  },
  record c { requested = 0; sampled = 0; limited = 0; traced = 0; through = 0 },
)

unfoldable pub requested_inc : RateCounts → RateCounts
requested_inc c = record c { requested = add_int64 c.requested 1 }

unfoldable pub sampled_inc : RateCounts → RateCounts
sampled_inc c = record c { sampled = add_int64 c.sampled 1 }

unfoldable pub limited_inc : RateCounts → RateCounts
limited_inc c = record c { limited = add_int64 c.limited 1 }

unfoldable pub traced_inc : RateCounts → RateCounts
traced_inc c = record c { traced = add_int64 c.traced 1 }

unfoldable pub through_inc : RateCounts → RateCounts
through_inc c = record c { through = add_int64 c.through 1 }
