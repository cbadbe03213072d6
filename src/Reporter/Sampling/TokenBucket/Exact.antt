-- ===== src/Reporter/Sampling/TokenBucket/Exact.antt =====
-- What one call of `count` adds to each counter.
use appoptics_apm_go.Base.{
  ℕ, ◌+◌, ◌%◌, ◌^◌, ◌≡◌, refl, ap, Bool, true, false, not, ◌&&◌, if◌then◌else◌,
}
use appoptics_apm_go.Base.Floats.{Float64}
use appoptics_apm_go.Metrics.RateCounts.{
  RateCounts, requested_inc, sampled_inc, limited_inc, traced_inc, through_inc,
}
use appoptics_apm_go.Reporter.Sampling.TokenBucket.{
  TokenBucket, consume, count, count_requested, count_traced, count_with,
}
use appoptics_apm_go.Reporter.Sampling.TokenBucket.Counts.{consume-counts}

-- A counter of 64 bits that a request adds to or does not.
abbrev pub bumped : Bool → ℕ → ℕ
bumped true n = (n + 1) % 2 ^ 64
bumped false n = n

-- The counters after a request, from those before.
pub record IsCounted (sampled has_metadata traced : Bool) (c after : RateCounts) : Type 0 where
  pub requested_is : after.requested ≡ bumped true c.requested
  pub sampled_is : after.sampled ≡ bumped (not has_metadata) c.sampled
  pub limited_is : after.limited ≡ bumped (sampled && not traced) c.limited
  pub traced_is : after.traced ≡ bumped traced c.traced
  pub through_is : after.through ≡ bumped (traced && has_metadata) c.through

module _ {F : Type 0} ⦃f : Float64 F⦄ where
  -- The counters behind the decision on a token, which left those of the start alone.
  decided-IsCounted :
      (has_metadata enough : Bool) (b taken : TokenBucket F)
      → taken.counts ≡ (count_requested has_metadata b).counts
      → let decided =
          if not enough
          then (false, count_with limited_inc taken)
          else count_traced has_metadata taken in
        IsCounted true has_metadata decided.0 b.counts decided.1.counts
  unfolding requested_inc sampled_inc limited_inc traced_inc through_inc
  decided-IsCounted true true b taken e = record {
    requested_is = ap (λ (c : RateCounts). c.requested) e;
    sampled_is = ap (λ (c : RateCounts). c.sampled) e;
    limited_is = ap (λ (c : RateCounts). c.limited) e;
    traced_is = ap (λ (c : RateCounts). bumped true c.traced) e;
    through_is = ap (λ (c : RateCounts). bumped true c.through) e;
  }
  decided-IsCounted false true b taken e = record {
    requested_is = ap (λ (c : RateCounts). c.requested) e;
    sampled_is = ap (λ (c : RateCounts). c.sampled) e;
    limited_is = ap (λ (c : RateCounts). c.limited) e;
    traced_is = ap (λ (c : RateCounts). bumped true c.traced) e;
    through_is = ap (λ (c : RateCounts). c.through) e;
  }
  decided-IsCounted true false b taken e = record {
    requested_is = ap (λ (c : RateCounts). c.requested) e;
    sampled_is = ap (λ (c : RateCounts). c.sampled) e;
    limited_is = ap (λ (c : RateCounts). bumped true c.limited) e;
    traced_is = ap (λ (c : RateCounts). c.traced) e;
    through_is = ap (λ (c : RateCounts). c.through) e;
  }
  decided-IsCounted false false b taken e = record {
    requested_is = ap (λ (c : RateCounts). c.requested) e;
    sampled_is = ap (λ (c : RateCounts). c.sampled) e;
    limited_is = ap (λ (c : RateCounts). bumped true c.limited) e;
    traced_is = ap (λ (c : RateCounts). c.traced) e;
    through_is = ap (λ (c : RateCounts). c.through) e;
  }

  -- One call adds one to the requested requests; one to the sampled, unless the request continues
  -- a trace; one to the traced just where it answers that the request is traced, and then one to
  -- the through requests if the request continues a trace; and one to the limited just where it
  -- refuses a sampled request. It changes no counter else.
  pub count-IsCounted :
      (sampled has_metadata rate_limit : Bool) (now : ℕ) (b : TokenBucket F)
      → let counted = count sampled has_metadata rate_limit now b in
        IsCounted sampled has_metadata counted.0 b.counts counted.1.counts
  unfolding count requested_inc sampled_inc
  count-IsCounted false true rate_limit now b = record {
    requested_is = refl;
    sampled_is = refl;
    limited_is = refl;
    traced_is = refl;
    through_is = refl;
  }
  count-IsCounted false false rate_limit now b = record {
    requested_is = refl;
    sampled_is = refl;
    limited_is = refl;
    traced_is = refl;
    through_is = refl;
  }
  count-IsCounted true has_metadata false now b =
      decided-IsCounted has_metadata true b (count_requested has_metadata b) refl
  count-IsCounted true has_metadata true now b =
      decided-IsCounted has_metadata (consume f.one now (count_requested has_metadata b)).0 b
        (consume f.one now (count_requested has_metadata b)).1
        (consume-counts f.one now (count_requested has_metadata b))
