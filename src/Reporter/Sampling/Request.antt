-- ===== src/Reporter/Sampling/Request.antt =====
-- v1/ao/internal/reporter/oboe.go: the decision for one request, `oboeSampleRequest`. The draw is
-- the number that `rand.Intn` returns if it is called, and `now` the clock's reading; a rate of -1
-- is its residue modulo 2^64.
pub mod Decision
pub mod Response
pub mod Steps
pub mod Buckets
pub mod Sound
pub mod Lasting
mod Runs
use appoptics_apm_go.Base.{
  ℕ, ◌-◌, ◌^◌, Bool, true, false, not, ◌&&◌, ◌||◌, ◌==◌, leb, if◌then◌else◌, [], Option, none, some,
}
use appoptics_apm_go.Base.Text.{Text, codes}
use appoptics_apm_go.Base.Floats.{Float64}
use appoptics_apm_go.Reporter.Sampling.Flags.{
  TracingMode, SampleSource, max_sampling_rate, flag_sample_start, flag_sample_through,
  flag_sample_through_always, has_any, enabled, trigger_trace_enabled,
}
use appoptics_apm_go.Reporter.Sampling.Flags.SampleSource.{source_unset, source_none}
use appoptics_apm_go.Reporter.Sampling.TokenBucket.{TokenBucket, count}
use appoptics_apm_go.Reporter.Sampling.Settings.{
  OboeSettings, Sampler, BucketRef, bucket_at, put_bucket, merge_url_setting,
}
use appoptics_apm_go.Reporter.Sampling.Settings.Update.{get_setting}

pub data TriggerTraceMode : Type 0 where
  not_present invalid_trigger relaxed_trigger strict_trigger : TriggerTraceMode

pub record SampleDecision (F : Type 0) : Type 0 where
  pub trace : Bool
  pub rate : ℕ
  pub source : SampleSource
  pub enabled : Bool
  pub x_trace_opts_rsp : Text
  pub bucket_cap : F
  pub bucket_rate : F

unfoldable pub trigger_enabled : TriggerTraceMode → Bool
trigger_enabled not_present = false
trigger_enabled invalid_trigger = false
trigger_enabled relaxed_trigger = true
trigger_enabled strict_trigger = true

unfoldable pub trigger_requested : TriggerTraceMode → Bool
trigger_requested not_present = false
trigger_requested _ = true

abbrev pub is_invalid : TriggerTraceMode → Bool
is_invalid invalid_trigger = true
is_invalid _ = false

unfoldable pub should_sample : ℕ → ℕ → Bool
should_sample draw sample_rate = sample_rate == max_sampling_rate || leb draw sample_rate

-- The bucket that a mode is counted in.
unfoldable pub choose_bucket : TriggerTraceMode → OboeSettings → BucketRef
choose_bucket relaxed_trigger setting = setting.trigger_trace_relaxed_bucket
choose_bucket strict_trigger setting = setting.trigger_trace_strict_bucket
choose_bucket _ setting = setting.bucket

-- The response to a request for a trigger trace.
unfoldable pub trigger_response : ℕ → TriggerTraceMode → Bool → Text
trigger_response flags mode ret =
    if trigger_trace_enabled flags && trigger_enabled mode
    then (if not ret then codes "rate-exceeded" else codes "ok")
    else if is_invalid mode
    then []
    else if not (enabled flags)
    then codes "tracing-disabled"
    else codes "trigger-tracing-disabled"

-- Whether a request that is no trigger trace is to be sampled.
unfoldable pub regular_sampled : Bool → ℕ → ℕ → ℕ → Bool
regular_sampled traced flags sample_rate draw =
    if not traced
    then (if has_any flags flag_sample_start then should_sample draw sample_rate else false)
    else if has_any flags flag_sample_through_always
    then true
    else if has_any flags flag_sample_through
    then should_sample draw sample_rate
    else false

module _ {F : Type 0} ⦃f : Float64 F⦄ where
  -- The capacity and the rate of the bucket of a mode.
  unfoldable pub get_token_bucket_setting : OboeSettings → TriggerTraceMode → Sampler F → F × F
  get_token_bucket_setting setting relaxed_trigger st =
      let b = bucket_at setting.trigger_trace_relaxed_bucket st in (b.capacity, b.rate_per_sec)
  get_token_bucket_setting setting strict_trigger st =
      let b = bucket_at setting.trigger_trace_strict_bucket st in (b.capacity, b.rate_per_sec)
  get_token_bucket_setting setting _ st =
      let b = bucket_at setting.bucket st in (b.capacity, b.rate_per_sec)

  -- `count` on one of the global buckets.
  unfoldable pub count_in : BucketRef → Bool → Bool → Bool → ℕ → Sampler F → Bool × Sampler F
  count_in ref sampled has_metadata rate_limit now st =
      let counted = count sampled has_metadata rate_limit now (bucket_at ref st) in
      (counted.0, put_bucket ref counted.1 st)

  unfoldable pub trigger_request :
      OboeSettings → ℕ → TriggerTraceMode → ℕ → Sampler F → SampleDecision F × Sampler F
  trigger_request setting flags mode now st =
      let sampled = not (is_invalid mode) && trigger_trace_enabled flags in
      let counted = count_in (choose_bucket mode setting) sampled false true now st in
      let limits = get_token_bucket_setting setting mode counted.1 in
      (
        record {
          trace = counted.0;
          rate = 2 ^ 64 - 1;
          source = source_unset;
          enabled = enabled flags;
          x_trace_opts_rsp = trigger_response flags mode counted.0;
          bucket_cap = limits.1;
          bucket_rate = limits.0;
        },
        counted.1,
      )

  unfoldable pub regular_request :
      OboeSettings
      → ℕ
      → ℕ
      → SampleSource
      → Bool
      → TriggerTraceMode
      → ℕ
      → ℕ
      → Sampler F
      → SampleDecision F × Sampler F
  regular_request setting sample_rate flags source traced mode draw now st =
      let sampled = regular_sampled traced flags sample_rate draw in
      let counted =
        count_in (choose_bucket mode setting) sampled traced (not traced && sampled) now st in
      let limits = get_token_bucket_setting setting not_present counted.1 in
      (
        record {
          trace = counted.0;
          rate = sample_rate;
          source = source;
          enabled = enabled flags;
          x_trace_opts_rsp =
              (if trigger_requested mode then codes "ignored" else codes "not-requested");
          bucket_cap = limits.0;
          bucket_rate = limits.1;
        },
        counted.1,
      )

  unfoldable pub decided :
      OboeSettings
      → Bool
      → ℕ × ℕ × SampleSource
      → TriggerTraceMode
      → ℕ
      → ℕ
      → Sampler F
      → SampleDecision F × Sampler F
  decided setting traced merged mode draw now st =
      if trigger_requested mode && not traced
      then trigger_request setting merged.1 mode now st
      else regular_request setting merged.0 merged.1 merged.2 traced mode draw now st

  -- The decision of a test reporter, or the lack of settings.
  unfoldable pub fixed_decision : Bool → SampleSource → Bool → Text → SampleDecision F
  fixed_decision trace source enabled rsp = record {
    trace = trace;
    rate = 0;
    source = source;
    enabled = enabled;
    x_trace_opts_rsp = rsp;
    bucket_cap = f.zero;
    bucket_rate = f.zero;
  }

  -- The decision by the settings, where there are any.
  unfoldable pub decided_by :
      Option OboeSettings
      → Bool
      → Text
      → TracingMode
      → TriggerTraceMode
      → ℕ
      → ℕ
      → Sampler F
      → SampleDecision F × Sampler F
  decided_by none traced url url_mode mode draw now st =
      (fixed_decision false source_none false (codes "settings-not-available"), st)
  decided_by (some setting) traced url url_mode mode draw now st =
      decided setting traced (merge_url_setting setting url url_mode) mode draw now st

  -- `test_reporter` is the `ShouldTrace` of a test reporter that ignores the settings, and
  -- `url_mode` the URL filters' tracing mode of `url`.
  unfoldable pub oboe_sample_request :
      Option Bool
      → Bool
      → Text
      → TracingMode
      → TriggerTraceMode
      → ℕ
      → ℕ
      → Sampler F
      → SampleDecision F × Sampler F
  oboe_sample_request (some should_trace) traced url url_mode mode draw now st =
      (fixed_decision should_trace source_none true [], st)
  oboe_sample_request none traced url url_mode mode draw now st =
      decided_by (get_setting st.settings) traced url url_mode mode draw now st
