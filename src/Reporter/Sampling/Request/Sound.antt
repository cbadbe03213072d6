-- ===== src/Reporter/Sampling/Request/Sound.antt =====
-- The buckets of a sampler in every state that it reaches.
use appoptics_apm_go.Base.{ℕ, suc, ◌^◌, ◌<◌, Bool, Option, none, some, arith, if_both, not, ◌&&◌}
use appoptics_apm_go.Base.Text.{Text}
use appoptics_apm_go.Base.Floats.{Float64}
use appoptics_apm_go.Metrics.RateCounts.{RateCounts, flush_rate_counts}
use appoptics_apm_go.Reporter.Sampling.Flags.{TracingMode, SampleSource}
use appoptics_apm_go.Reporter.Sampling.TokenBucket.{TokenBucket, empty_bucket, reset, count}
use appoptics_apm_go.Reporter.Sampling.TokenBucket.Bounds.{
  IsBounded, empty_bucket-IsBounded, reset-IsBounded, count-IsBounded,
}
use appoptics_apm_go.Reporter.Sampling.TokenBucket.Counts.{no_counts-IsTally, count-IsTally}
use appoptics_apm_go.Reporter.Sampling.Settings.{
  OboeSettings, SettingsMap, Sampler, BucketRef, bucket_at,
}
use appoptics_apm_go.Reporter.Sampling.Settings.Update.{
  update_setting, flush_bucket, flush_all, flush_rate_counts_of, reset_settings, received,
  get_setting,
}
use appoptics_apm_go.Reporter.Sampling.Request.{
  TriggerTraceMode, SampleDecision, count_in, trigger_request, regular_request, trigger_requested,
  decided, decided_by, oboe_sample_request,
}
use appoptics_apm_go.Reporter.Sampling.Request.Steps.{new_sampler, Reached}
use appoptics_apm_go.Reporter.Sampling.Request.Steps.Reached.{
  started, updated, requested, timed_out, removed, flushed, reset_all,
}
use appoptics_apm_go.Reporter.Sampling.Request.Buckets.{
  IsSoundBucket, IsSound, bucket_at-IsSound, put_bucket-IsSound, later-IsSound,
  set_bucket_limits-IsSound,
}

module _ {F : Type 0} ⦃f : Float64 F⦄ where
  module _ {n : ℕ} (small : suc n < 2 ^ 64) where
    count_in-IsSound :
        (ref : BucketRef) (sampled has_metadata rate_limit : Bool) (now : ℕ) (st : Sampler F)
        → IsSound n st
        → IsSound (suc n) (count_in ref sampled has_metadata rate_limit now st).1
    unfolding count_in
    count_in-IsSound ref s m r now st h = put_bucket-IsSound ref _ counted (later-IsSound h)
      where
        counted : IsSoundBucket (suc n) (count s m r now (bucket_at ref st)).1
        counted = record {
          bounded = count-IsBounded s m r now _ (bucket_at-IsSound ref h).bounded;
          tally = count-IsTally small s m r now _ (bucket_at-IsSound ref h).tally;
        }

    decided-IsSound :
        (setting : OboeSettings) (traced : Bool) (merged : ℕ × ℕ × SampleSource)
        (mode : TriggerTraceMode) (draw now : ℕ) (st : Sampler F)
        → IsSound n st
        → IsSound (suc n) (decided setting traced merged mode draw now st).1
    unfolding decided trigger_request regular_request
    decided-IsSound setting traced merged mode draw now st h =
        if_both (λ (r : SampleDecision F × Sampler F). IsSound (suc n) r.1)
          (trigger_requested mode && not traced) (λ _. count_in-IsSound _ _ _ _ now st h)
          (λ _. count_in-IsSound _ _ _ _ now st h)

    decided_by-IsSound :
        (found : Option OboeSettings) (traced : Bool) (url : Text) (url_mode : TracingMode)
        (mode : TriggerTraceMode) (draw now : ℕ) (st : Sampler F)
        → IsSound n st
        → IsSound (suc n) (decided_by found traced url url_mode mode draw now st).1
    unfolding decided_by
    decided_by-IsSound none traced url url_mode mode draw now st h = later-IsSound h
    decided_by-IsSound (some setting) traced url url_mode mode draw now st h =
        decided-IsSound setting traced _ mode draw now st h

    request-IsSound :
        (test_reporter : Option Bool) (traced : Bool) (url : Text) (url_mode : TracingMode)
        (mode : TriggerTraceMode) (draw now : ℕ) (st : Sampler F)
        → IsSound n st
        → IsSound (suc n) (oboe_sample_request test_reporter traced url url_mode mode draw now st).1
    unfolding oboe_sample_request
    request-IsSound (some should_trace) traced url url_mode mode draw now st h = later-IsSound h
    request-IsSound none traced url url_mode mode draw now st h =
        decided_by-IsSound (get_setting st.settings) traced url url_mode mode draw now st h

  flush_bucket-IsSound :
      {n : ℕ} (ref : BucketRef) (st : Sampler F) → IsSound n st → IsSound n (flush_bucket ref st).1
  unfolding flush_bucket flush_rate_counts
  flush_bucket-IsSound ref st h =
      put_bucket-IsSound ref _
        (record {
          bounded = unchanged (bucket_at-IsSound ref h).bounded;
          tally = record {
            requested-le = omega arith;
            sampled-le = omega arith;
            decided-le = omega arith;
            through-le = omega arith;
          };
        })
        h
    where
      unchanged :
          {b : TokenBucket F} {c : RateCounts} → IsBounded b → IsBounded (record b { counts = c })
      unchanged h = record {
        rate_nonneg = h.rate_nonneg;
        capacity_nonneg = h.capacity_nonneg;
        available_nonneg = h.available_nonneg;
        available-le = h.available-le;
      }

  flush_all-IsSound :
      {n : ℕ} (found : Option OboeSettings) (st : Sampler F)
      → IsSound n st
      → IsSound n (flush_all found st).1
  unfolding flush_all
  flush_all-IsSound none st h = h
  flush_all-IsSound (some setting) st h =
      flush_bucket-IsSound setting.trigger_trace_strict_bucket _ (
        flush_bucket-IsSound setting.trigger_trace_relaxed_bucket _
          (flush_bucket-IsSound setting.bucket st h))

  flush-IsSound : {n : ℕ} (st : Sampler F) → IsSound n st → IsSound n (flush_rate_counts_of st).1
  unfolding flush_rate_counts_of
  flush-IsSound st h = flush_all-IsSound (get_setting st.settings) st h

  settings-IsSound :
      {n : ℕ} (m : SettingsMap) (st : Sampler F)
      → IsSound n st
      → IsSound n (record st { settings = m })
  settings-IsSound m st h = record {
    bucket_sound = h.bucket_sound;
    relaxed_sound = h.relaxed_sound;
    strict_sound = h.strict_sound;
  }

  reset-IsSound : {n : ℕ} (st : Sampler F) → IsSound n st → IsSound n (reset_settings st)
  unfolding reset_settings reset
  reset-IsSound st h = record {
    bucket_sound = record {
      bounded = reset-IsBounded (flush_rate_counts_of st).1.bucket;
      tally = (flush-IsSound st h).bucket_sound.tally;
    };
    relaxed_sound = (flush-IsSound st h).relaxed_sound;
    strict_sound = (flush-IsSound st h).strict_sound;
  }

  -- In every state that the sampler reaches by calls one after another, each bucket holds between 0
  -- and its capacity of tokens, and its counters never say that more requests were sampled, or
  -- limited and traced, than were made, while fewer than 2^64 - 1 are.
  pub Reached-IsSound : {n : ℕ} {st : Sampler F} → suc n < 2 ^ 64 → Reached n st → IsSound n st
  unfolding new_sampler empty_bucket update_setting
  Reached-IsSound small started = record {
    bucket_sound = fresh;
    relaxed_sound = fresh;
    strict_sound = fresh;
  }
    where
      fresh : IsSoundBucket {F = F} 0 empty_bucket
      fresh = record { bounded = empty_bucket-IsBounded; tally = no_counts-IsTally }
  Reached-IsSound small (updated config now s_type layer flags value ttl args r) =
      settings-IsSound _ _ (
        set_bucket_limits-IsSound args (received now s_type layer flags value ttl args) _
          (Reached-IsSound small r))
  Reached-IsSound small (requested test traced url url_mode mode draw now r) =
      request-IsSound (omega arith) test traced url url_mode mode draw now _
        (Reached-IsSound (omega arith) r)
  Reached-IsSound small (timed_out now r) = settings-IsSound _ _ (Reached-IsSound small r)
  Reached-IsSound small (removed r) = settings-IsSound _ _ (Reached-IsSound small r)
  Reached-IsSound small (flushed r) = flush-IsSound _ (Reached-IsSound small r)
  Reached-IsSound small (reset_all r) = reset-IsSound _ (Reached-IsSound small r)
