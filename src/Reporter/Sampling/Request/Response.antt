-- ===== src/Reporter/Sampling/Request/Response.antt =====
-- What a decision reports: the response to the trigger trace options, and the bucket's limits.
use appoptics_apm_go.Base.{
  ℕ, ◌≡◌, refl, ap, sym, ◌∙◌, Bool, true, false, not, ◌&&◌, if◌then◌else◌, if_both, arith,
}
use appoptics_apm_go.Base.Text.{codes, text_eq}
use appoptics_apm_go.Base.Floats.{Float64}
use appoptics_apm_go.Reporter.Sampling.Flags.{SampleSource, trigger_trace_enabled}
use appoptics_apm_go.Reporter.Sampling.TokenBucket.{
  TokenBucket, update, count, consume, count_with, count_requested, count_traced,
}
use appoptics_apm_go.Metrics.RateCounts.{limited_inc}
use appoptics_apm_go.Reporter.Sampling.Settings.{OboeSettings, Sampler, BucketRef, bucket_at}
use appoptics_apm_go.Reporter.Sampling.Settings.BucketRef.{
  global_bucket, relaxed_bucket, strict_bucket,
}
use appoptics_apm_go.Reporter.Sampling.Request.TriggerTraceMode.{
  not_present, invalid_trigger, relaxed_trigger, strict_trigger,
}
use appoptics_apm_go.Reporter.Sampling.Request.{
  TriggerTraceMode, trigger_enabled, trigger_requested, is_invalid, choose_bucket, trigger_response,
  count_in, trigger_request, regular_request, decided, get_token_bucket_setting,
}
use appoptics_apm_go.Reporter.Sampling.Request.Decision.{has_trigger, mode_bucket, decided_lem}

ok_means_traced :
    (flags : ℕ) (mode : TriggerTraceMode) (other ret : Bool)
    → trigger_requested mode ≡ true
    → ret ≡ ((not (is_invalid mode) && trigger_trace_enabled flags) && other)
    → text_eq (trigger_response flags mode ret) (codes "ok") ≡ ret
unfolding trigger_response trigger_enabled trigger_requested
ok_means_traced flags not_present other ret asks e = absurd (ground arith)
ok_means_traced flags invalid_trigger other ret asks e = ground arith
ok_means_traced flags relaxed_trigger other ret asks e = ground arith
ok_means_traced flags strict_trigger other ret asks e = ground arith

module _ {F : Type 0} ⦃f : Float64 F⦄ where
  record SameLimits (b after : TokenBucket F) : Type 0 where
    same_capacity : after.capacity ≡ b.capacity
    same_rate : after.rate_per_sec ≡ b.rate_per_sec

  update-limits : (now : ℕ) (b : TokenBucket F) → SameLimits b (update now b)
  unfolding update
  update-limits now b = record { same_capacity = ground arith; same_rate = ground arith }

  consume-limits : (size : F) (now : ℕ) (b : TokenBucket F) → SameLimits b (consume size now b).1
  unfolding consume
  consume-limits size now b =
      if_both (λ (r : Bool × TokenBucket F). SameLimits b r.1) (f.le size (update now b).available)
        {x = (true, record (update now b) { available = f.sub (update now b).available size })}
        {y = (false, update now b)}
        (λ _. record {
          same_capacity = (update-limits now b).same_capacity;
          same_rate = (update-limits now b).same_rate;
        })
        (λ _. update-limits now b)

  requested-limits :
      (has_metadata : Bool) (b : TokenBucket F) → SameLimits b (count_requested has_metadata b)
  requested-limits true b = record { same_capacity = refl; same_rate = refl }
  requested-limits false b = record { same_capacity = refl; same_rate = refl }

  traced-limits :
      (has_metadata : Bool) (b : TokenBucket F) → SameLimits b (count_traced has_metadata b).1
  traced-limits true b = record { same_capacity = refl; same_rate = refl }
  traced-limits false b = record { same_capacity = refl; same_rate = refl }

  taken-limits :
      (has_metadata ok : Bool) (b : TokenBucket F)
      → SameLimits b
          (if not ok then (false, count_with limited_inc b) else count_traced has_metadata b).1
  taken-limits m true b = traced-limits m b
  taken-limits m false b = record { same_capacity = refl; same_rate = refl }

  then_limits : (a b c : TokenBucket F) → SameLimits a b → SameLimits b c → SameLimits a c
  then_limits a b c p q = record {
    same_capacity = q.same_capacity ∙ p.same_capacity;
    same_rate = q.same_rate ∙ p.same_rate;
  }

  count-limits :
      (sampled has_metadata rate_limit : Bool) (now : ℕ) (b : TokenBucket F)
      → SameLimits b (count sampled has_metadata rate_limit now b).1
  unfolding count
  count-limits false m r now b = requested-limits m b
  count-limits true m false now b = then_limits _ _ _ (requested-limits m b) (traced-limits m _)
  count-limits true m true now b =
      then_limits _ _ _ (requested-limits m b)
        (then_limits _ _ _ (consume-limits f.one now _) (taken-limits m _ _))

  count_in-limits :
      (ref other : BucketRef) (sampled has_metadata rate_limit : Bool) (now : ℕ) (st : Sampler F)
      → SameLimits
          (bucket_at other st)
          (bucket_at other (count_in ref sampled has_metadata rate_limit now st).1)
  unfolding count_in
  count_in-limits global_bucket global_bucket s m r now st = count-limits s m r now st.bucket
  count_in-limits relaxed_bucket relaxed_bucket s m r now st = count-limits s m r now st.relaxed
  count_in-limits strict_bucket strict_bucket s m r now st = count-limits s m r now st.strict
  count_in-limits global_bucket relaxed_bucket s m r now st = record {
    same_capacity = refl;
    same_rate = refl;
  }
  count_in-limits global_bucket strict_bucket s m r now st = record {
    same_capacity = refl;
    same_rate = refl;
  }
  count_in-limits relaxed_bucket global_bucket s m r now st = record {
    same_capacity = refl;
    same_rate = refl;
  }
  count_in-limits relaxed_bucket strict_bucket s m r now st = record {
    same_capacity = refl;
    same_rate = refl;
  }
  count_in-limits strict_bucket global_bucket s m r now st = record {
    same_capacity = refl;
    same_rate = refl;
  }
  count_in-limits strict_bucket relaxed_bucket s m r now st = record {
    same_capacity = refl;
    same_rate = refl;
  }

  -- Where a request that continues no trace asks for a trigger trace, the response is "ok" just where
  -- it is traced.
  pub response_ok :
      (setting : OboeSettings) (merged : ℕ × ℕ × SampleSource) (mode : TriggerTraceMode)
      (draw now : ℕ) (st : Sampler F)
      → trigger_requested mode ≡ true
      → text_eq (decided setting false merged mode draw now st).0.x_trace_opts_rsp (codes "ok")
        ≡ (decided setting false merged mode draw now st).0.trace
  unfolding decided trigger_request trigger_requested
  response_ok setting merged not_present draw now st asks = absurd (ground arith)
  response_ok setting merged invalid_trigger draw now st asks =
      ok_means_traced merged.1 invalid_trigger true _ refl
        (decided_lem setting false merged invalid_trigger draw now st).0
  response_ok setting merged relaxed_trigger draw now st asks =
      ok_means_traced merged.1 relaxed_trigger _ _ refl (
        (decided_lem setting false merged relaxed_trigger draw now st).0
        ∙ ap
            (λ b.
              b
              && f.le f.one
                  (update now (bucket_at (mode_bucket relaxed_trigger setting) st)).available)
            (sym (has_trigger merged.1)))
  response_ok setting merged strict_trigger draw now st asks =
      ok_means_traced merged.1 strict_trigger _ _ refl (
        (decided_lem setting false merged strict_trigger draw now st).0
        ∙ ap
            (λ b.
              b
              && f.le f.one
                  (update now (bucket_at (mode_bucket strict_trigger setting) st)).available)
            (sym (has_trigger merged.1)))

  -- A decision on no trigger trace reports the capacity and the rate of the settings' bucket.
  pub regular_limits :
      (setting : OboeSettings) (merged : ℕ × ℕ × SampleSource) (traced : Bool)
      (mode : TriggerTraceMode) (draw now : ℕ) (st : Sampler F)
      → trigger_requested mode && not traced ≡ false
      → ((decided setting traced merged mode draw now st).0.bucket_cap
          ≡ (bucket_at setting.bucket st).capacity)
        × ((decided setting traced merged mode draw now st).0.bucket_rate
            ≡ (bucket_at setting.bucket st).rate_per_sec)
  unfolding decided regular_request get_token_bucket_setting
  regular_limits setting merged traced mode draw now st regular =
      rw regular ((limits traced).same_capacity, (limits traced).same_rate)
    where
      limits :
          (traced : Bool)
          → SameLimits (bucket_at setting.bucket st) (
              bucket_at setting.bucket
                (regular_request setting merged.0 merged.1 merged.2 traced mode draw now st).1)
      limits traced = count_in-limits (choose_bucket mode setting) setting.bucket _ traced _ now st

  -- A decision on a trigger trace reports the two the other way round: the rate of its bucket as
  -- the capacity, and the capacity as the rate.
  pub trigger_limits :
      (setting : OboeSettings) (merged : ℕ × ℕ × SampleSource) (mode : TriggerTraceMode)
      (draw now : ℕ) (st : Sampler F)
      → trigger_requested mode ≡ true
      → ((decided setting false merged mode draw now st).0.bucket_cap
          ≡ (bucket_at (choose_bucket mode setting) st).rate_per_sec)
        × ((decided setting false merged mode draw now st).0.bucket_rate
            ≡ (bucket_at (choose_bucket mode setting) st).capacity)
  unfolding decided trigger_request get_token_bucket_setting choose_bucket trigger_requested
  trigger_limits setting merged not_present draw now st asks = absurd (ground arith)
  trigger_limits setting merged invalid_trigger draw now st asks =
      let limits = count_in-limits _ setting.bucket _ _ _ now st in
      (limits.same_rate, limits.same_capacity)
  trigger_limits setting merged relaxed_trigger draw now st asks =
      let limits = count_in-limits _ setting.trigger_trace_relaxed_bucket _ _ _ now st in
      (limits.same_rate, limits.same_capacity)
  trigger_limits setting merged strict_trigger draw now st asks =
      let limits = count_in-limits _ setting.trigger_trace_strict_bucket _ _ _ now st in
      (limits.same_rate, limits.same_capacity)
