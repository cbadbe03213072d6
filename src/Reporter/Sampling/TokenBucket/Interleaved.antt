-- ===== src/Reporter/Sampling/TokenBucket/Interleaved.antt =====
-- A token bucket under concurrent calls: `count` takes no lock, so that the actions of several
-- calls interleave. An action is what runs under the lock, or one atomic change of the counters.
use appoptics_apm_go.Base.{ℕ}
use appoptics_apm_go.Base.Floats.{Float64}
use appoptics_apm_go.Metrics.RateCounts.{RateCounts}
use appoptics_apm_go.Reporter.Sampling.TokenBucket.{
  TokenBucket, empty_bucket, reset, set_rate_cap, consume, count_with,
}
use appoptics_apm_go.Reporter.Sampling.TokenBucket.Bounds.{
  Nonneg, IsBounded, empty_bucket-IsBounded, reset-IsBounded, set_rate_cap-IsBounded,
  consume-IsBounded, count_with-IsBounded,
}

module _ {F : Type 0} ⦃f : Float64 F⦄ where
  -- What the actions of any calls make of a bucket, in any order.
  pub data Interleaved : TokenBucket F → Type 0 where
    unused : Interleaved empty_bucket
    cleared : {b : TokenBucket F} → Interleaved b → Interleaved (reset b)
    limited_to :
        {b : TokenBucket F} (rate cap : F)
        → Nonneg rate
        → Nonneg cap
        → Interleaved b
        → Interleaved (set_rate_cap rate cap b)
    consumed : {b : TokenBucket F} (now : ℕ) → Interleaved b → Interleaved (consume f.one now b).1
    counted :
        {b : TokenBucket F} (change : RateCounts → RateCounts)
        → Interleaved b
        → Interleaved (count_with change b)

  -- However the actions of concurrent calls interleave, where the rates and the capacities that
  -- are set are not negative, a bucket holds between 0 and its capacity of tokens.
  pub Interleaved-IsBounded : {b : TokenBucket F} → Interleaved b → IsBounded b
  Interleaved-IsBounded unused = empty_bucket-IsBounded
  Interleaved-IsBounded (cleared {b = b} r) = reset-IsBounded b
  Interleaved-IsBounded (limited_to {b = b} rate cap rate_ok cap_ok r) =
      set_rate_cap-IsBounded rate cap b rate_ok cap_ok (Interleaved-IsBounded r)
  Interleaved-IsBounded (consumed {b = b} now r) = consume-IsBounded now b (Interleaved-IsBounded r)
  Interleaved-IsBounded (counted {b = b} change r) =
      count_with-IsBounded change b (Interleaved-IsBounded r)
