-- ===== src/Reporter/Sampling/Request/Buckets.antt =====
-- Sound buckets, and the updates of their rates and capacities.
use appoptics_apm_go.Base.{ℕ, suc, Option, none, some, List, arith, if_both}
use appoptics_apm_go.Base.Text.{Text}
use appoptics_apm_go.Base.Floats.{Float64}
use appoptics_apm_go.Metrics.RateCounts.{RateCounts}
use appoptics_apm_go.Reporter.Sampling.TokenBucket.{TokenBucket, set_rate_cap}
use appoptics_apm_go.Reporter.Sampling.TokenBucket.Bounds.{
  Nonneg, IsBounded, set_rate_cap-IsBounded,
}
use appoptics_apm_go.Reporter.Sampling.TokenBucket.Counts.{IsTally}
use appoptics_apm_go.Reporter.Sampling.Settings.{
  OboeSettings, Sampler, BucketRef, Args, argument, parse_float64, parsed_float, accepted_float,
  bucket_at, put_bucket, bytes_to_float64,
}
use appoptics_apm_go.Reporter.Sampling.Settings.BucketRef.{
  global_bucket, relaxed_bucket, strict_bucket,
}
use appoptics_apm_go.Reporter.Sampling.Settings.Update.{set_limits, set_bucket_limits}

later-IsTally : {n : ℕ} {c : RateCounts} → IsTally n c → IsTally (suc n) c
later-IsTally h = record {
  requested-le = omega (arith, h.requested-le);
  sampled-le = h.sampled-le;
  decided-le = h.decided-le;
  through-le = h.through-le;
}

module _ {F : Type 0} ⦃f : Float64 F⦄ where
  pub record IsSoundBucket (n : ℕ) (b : TokenBucket F) : Type 0 where
    pub bounded : IsBounded b
    pub tally : IsTally n b.counts

  -- Every bucket holds at most its capacity, and its counters keep to their bounds.
  pub record IsSound (n : ℕ) (st : Sampler F) : Type 0 where
    pub bucket_sound : IsSoundBucket n st.bucket
    pub relaxed_sound : IsSoundBucket n st.relaxed
    pub strict_sound : IsSoundBucket n st.strict

  pub bucket_at-IsSound :
      {n : ℕ} {st : Sampler F} (ref : BucketRef) → IsSound n st → IsSoundBucket n (bucket_at ref st)
  bucket_at-IsSound global_bucket h = h.bucket_sound
  bucket_at-IsSound relaxed_bucket h = h.relaxed_sound
  bucket_at-IsSound strict_bucket h = h.strict_sound

  pub put_bucket-IsSound :
      {n : ℕ} {st : Sampler F} (ref : BucketRef) (b : TokenBucket F)
      → IsSoundBucket n b
      → IsSound n st
      → IsSound n (put_bucket ref b st)
  put_bucket-IsSound global_bucket b p h = record {
    bucket_sound = p;
    relaxed_sound = h.relaxed_sound;
    strict_sound = h.strict_sound;
  }
  put_bucket-IsSound relaxed_bucket b p h = record {
    bucket_sound = h.bucket_sound;
    relaxed_sound = p;
    strict_sound = h.strict_sound;
  }
  put_bucket-IsSound strict_bucket b p h = record {
    bucket_sound = h.bucket_sound;
    relaxed_sound = h.relaxed_sound;
    strict_sound = p;
  }

  later-IsSoundBucket : {n : ℕ} {b : TokenBucket F} → IsSoundBucket n b → IsSoundBucket (suc n) b
  later-IsSoundBucket h = record { bounded = h.bounded; tally = later-IsTally h.tally }

  pub later-IsSound : {n : ℕ} {st : Sampler F} → IsSound n st → IsSound (suc n) st
  later-IsSound h = record {
    bucket_sound = later-IsSoundBucket h.bucket_sound;
    relaxed_sound = later-IsSoundBucket h.relaxed_sound;
    strict_sound = later-IsSoundBucket h.strict_sound;
  }

  accepted_float-Nonneg : (fb : F) (o : Option F) → Nonneg fb → Nonneg (accepted_float fb o)
  accepted_float-Nonneg fb none h = h
  accepted_float-Nonneg fb (some v) h =
      if_both (λ (x : F). Nonneg x) (f.le f.zero v) (λ e. e) (λ _. h)

  parsed_float-Nonneg : (fb : F) (o : Option (List ℕ)) → Nonneg fb → Nonneg (parsed_float fb o)
  unfolding parsed_float
  parsed_float-Nonneg fb none h = h
  parsed_float-Nonneg fb (some c) h = accepted_float-Nonneg fb (bytes_to_float64 c) h

  parse_float64-Nonneg :
      (args : Args) (key : Text) (fb : F) → Nonneg fb → Nonneg (parse_float64 args key fb)
  unfolding parse_float64
  parse_float64-Nonneg args key fb h = parsed_float-Nonneg fb (argument args key) h

  set_limits-IsSound :
      {n : ℕ} (args : Args) (rate_key capacity_key : Text) (b : TokenBucket F)
      → IsSoundBucket n b
      → IsSoundBucket n (set_limits args rate_key capacity_key b)
  unfolding set_limits set_rate_cap
  set_limits-IsSound args rate_key capacity_key b h = record {
    bounded =
        set_rate_cap-IsBounded _ _ b (parse_float64-Nonneg args rate_key f.zero f.zero_le_zero)
          (parse_float64-Nonneg args capacity_key f.zero f.zero_le_zero) h.bounded;
    tally = h.tally;
  }

  pub set_bucket_limits-IsSound :
      {n : ℕ} (args : Args) (ns : OboeSettings) (st : Sampler F)
      → IsSound n st
      → IsSound n (set_bucket_limits args ns st)
  unfolding set_bucket_limits
  set_bucket_limits-IsSound {n} args ns st h =
      set ns.trigger_trace_strict_bucket _ _
        (set ns.trigger_trace_relaxed_bucket _ _ (set ns.bucket _ _ h))
    where
      set :
          {st : Sampler F} (ref : BucketRef) (rate_key capacity_key : Text)
          → IsSound n st
          → IsSound n (put_bucket ref (set_limits args rate_key capacity_key (bucket_at ref st)) st)
      set {st} ref rate_key capacity_key h =
          put_bucket-IsSound ref _
            (set_limits-IsSound args rate_key capacity_key _ (bucket_at-IsSound ref h)) h
