-- ===== src/Reporter/Sampling/Request/Runs.antt =====
-- Concrete settings, buckets and requests, and the theorems at concrete inputs.
use Prim.Native.Nat.{min}
use appoptics_apm_go.Base.{
  ℕ, ◌+◌, ◌-◌, ◌*◌, ◌/◌, ◌≡◌, ◌≤◌, ◌<◌, ◌⊎◌, some, refl, true, false, not, ◌&&◌, ◌||◌, none, [],
  ◌∷◌, leb, ltb, arith,
}
use appoptics_apm_go.Base.Text.{Text, codes, text_eq}
use appoptics_apm_go.Base.Split.{split}
use appoptics_apm_go.Base.Digits.{digit, IsWithin}
use appoptics_apm_go.Base.Floats.{Float64, IsFloat}
use appoptics_apm_go.Reporter.Sampling.Flags.{
  flag_string_to_bin, trigger_trace_enabled, add_flags, add_flag, to_flags, is_unknown,
}
use appoptics_apm_go.Reporter.Sampling.Flags.TracingMode.{trace_enabled}
use appoptics_apm_go.Reporter.Sampling.Flags.SettingType.{type_default}
use appoptics_apm_go.Reporter.Sampling.Flags.SampleSource.{source_default}
use appoptics_apm_go.Reporter.Sampling.Flags.Names.{
  one_if, listed, flag_name, flag_string_to_bin_lem,
}
use appoptics_apm_go.Metrics.RateCounts.{requested_inc}
use appoptics_apm_go.Reporter.Sampling.TokenBucket.{
  TokenBucket, empty_bucket, update, set_rate_cap, consume, count, count_with,
}
use appoptics_apm_go.Reporter.Sampling.TokenBucket.Bounds.{IsBounded}
use appoptics_apm_go.Reporter.Sampling.TokenBucket.Exact.{IsCounted, count-IsCounted}
use appoptics_apm_go.Reporter.Sampling.TokenBucket.Interleaved.{
  unused, limited_to, consumed, counted, Interleaved-IsBounded,
}
use appoptics_apm_go.Reporter.Sampling.TokenBucket.Counts.{left_by}
use appoptics_apm_go.Reporter.Sampling.Settings.{
  OboeSettings, LocalConfig, Sampler, Args, has_override_flag, merge_local_setting, merge_sampling,
  merge_url_setting, bucket_at, little_endian, bytes_to_float64, parsed_float, parse_float64,
  argument,
}
use appoptics_apm_go.Reporter.Sampling.Settings.Update.{
  received, new_oboe_settings, update_setting, set_bucket_limits, set_limits,
}
use appoptics_apm_go.Reporter.Sampling.Settings.{store, delete, lookup, adjust_sample_rate}
use appoptics_apm_go.Reporter.Sampling.Settings.Update.{
  get_setting, has_default_setting, check_settings_timeout, expired,
}
use appoptics_apm_go.Reporter.Sampling.Request.Lasting.{Reached-unexpired}
use appoptics_apm_go.Reporter.Sampling.Settings.Narrowing.{override_narrows, trigger_switch}
use appoptics_apm_go.Reporter.Sampling.Request.TriggerTraceMode.{invalid_trigger, strict_trigger}
use appoptics_apm_go.Reporter.Sampling.Request.{decided, choose_bucket, trigger_requested}
use appoptics_apm_go.Reporter.Sampling.Request.Decision.{selected, mode_bucket, decided_lem}
use appoptics_apm_go.Reporter.Sampling.Request.Response.{response_ok, trigger_limits}
use appoptics_apm_go.Reporter.Sampling.Request.Steps.{new_sampler, Reached}
use appoptics_apm_go.Reporter.Sampling.Request.Steps.Reached.{started, updated}

-- Whole tokens, and a clock that counts whole seconds.
whole_tokens-IsFloat :
    IsFloat 0 1 leb ltb (λ a b. a + b) (λ a b. a - b) min (λ r d. r * (d / 1000000000))
whole_tokens-IsFloat = record {
  zero_le_zero = refl;
  le_refl = λ a h. ground arith;
  le_trans = λ a b c h k. ground arith;
  le_of_not-lt = λ a b h k e. ground arith;
  min-le = λ a b h k. ground arith;
  min-nonneg = λ a b h k. ground arith;
  add-nonneg = λ a b h k. ground arith;
  sub_one-nonneg = λ a h. ground arith;
  sub_one-le = λ a h. ground arith;
  tokens-nonneg = λ a d h k. ground arith;
}

instance abbrev whole_tokens : Float64 ℕ
whole_tokens = record {
  zero = 0;
  one = 1;
  le = leb;
  lt = ltb;
  add = λ a b. a + b;
  sub = λ a b. a - b;
  min = min;
  times_seconds = λ r d. r * (d / 1000000000);
  of_bits = λ n. n;
  one_nonneg = refl;
  lawful = whole_tokens-IsFloat;
}

abbrev config : LocalConfig
config = record {
  sampling_configured = true;
  sample_rate = 1000000;
  tracing_mode = codes "enabled";
  trigger_trace = false;
}

abbrev args : Args
args =
    (codes "BucketRate", 2 ∷ 0 ∷ 0 ∷ 0 ∷ 0 ∷ 0 ∷ 0 ∷ 0 ∷ [])
    ∷ (codes "BucketCapacity", 5 ∷ 0 ∷ 0 ∷ 0 ∷ 0 ∷ 0 ∷ 0 ∷ 0 ∷ [])
    ∷ []

abbrev flag_list : Text
flag_list = codes "OVERRIDE,SAMPLE_START"

abbrev remote : OboeSettings
remote = record {
  timestamp = 0;
  flags = 6;
  original_flags = 6;
  value = 1000000;
  source = source_default;
  ttl = 120;
  layer = [];
  trigger_token = none;
  bucket = new_oboe_settings.bucket;
  trigger_trace_relaxed_bucket = new_oboe_settings.trigger_trace_relaxed_bucket;
  trigger_trace_strict_bucket = new_oboe_settings.trigger_trace_strict_bucket;
}

abbrev sampler : Sampler ℕ
sampler = update_setting config 3000000000 type_default [] flag_list 1000000 120 args new_sampler

sampler-Reached : Reached 0 sampler
sampler-Reached = updated config 3000000000 type_default [] flag_list 1000000 120 args started

flag_string_to_bin_lem_example :
    digit 1 (flag_string_to_bin flag_list) ≡ one_if (listed (split 44 flag_list) (flag_name 1))
flag_string_to_bin_lem_example = flag_string_to_bin_lem flag_list 1

-- A bucket of five tokens at two a second, from which one was taken.
abbrev used_bucket : TokenBucket ℕ
used_bucket = count_with requested_inc (consume 1 3000000000 (set_rate_cap 2 5 empty_bucket)).1

Interleaved-IsBounded_example : IsBounded used_bucket
Interleaved-IsBounded_example =
    Interleaved-IsBounded
      (counted requested_inc (consumed 3000000000 (limited_to 2 5 refl refl unused)))

count-IsCounted_example :
    IsCounted true false true used_bucket.counts
      (count true false true 4000000000 used_bucket).1.counts
unfolding count consume update set_rate_cap empty_bucket
count-IsCounted_example = count-IsCounted true false true 4000000000 used_bucket

override_narrows_example :
    IsWithin (merge_url_setting (merge_local_setting config remote) (codes "/a") trace_enabled).1 6
    × ((merge_url_setting (merge_local_setting config remote) (codes "/a") trace_enabled).0
        ≤ 1000000)
unfolding has_override_flag
override_narrows_example = override_narrows config remote (codes "/a") trace_enabled refl refl

trigger_switch_example :
    (trigger_trace_enabled (merge_local_setting config remote).flags ≡ false)
    × (trigger_trace_enabled
          (merge_url_setting (merge_local_setting config remote) (codes "/a") trace_enabled).1
        ≡ (not (has_override_flag remote) || trigger_trace_enabled remote.original_flags))
trigger_switch_example = trigger_switch config remote 47 (codes "a") refl

-- Without the override flag a URL filter turns the trigger trace on again.
trigger_again :
    trigger_trace_enabled
      (merge_url_setting
        (merge_local_setting config (record remote { original_flags = 4 }))
        (codes "/a")
        trace_enabled).1
    ≡ true
unfolding merge_local_setting merge_sampling merge_url_setting has_override_flag is_unknown to_flags
    trigger_trace_enabled
trigger_again = refl

decided_lem_example :
    ((decided remote false (1000000, 6, source_default) strict_trigger 7 9 sampler).0.trace
      ≡ selected false 1000000 6 strict_trigger 7
        && (false
            || leb 1 (update 9 (bucket_at (mode_bucket strict_trigger remote) sampler)).available))
    × ((bucket_at
          (mode_bucket strict_trigger remote)
          (decided remote false
            (1000000, 6, source_default)
            strict_trigger
            7
            9
            sampler).1).available
        ≡ left_by
            (selected false 1000000 6 strict_trigger 7 && true)
            9
            (bucket_at (mode_bucket strict_trigger remote) sampler))
decided_lem_example =
    decided_lem remote false (1000000, 6, source_default) strict_trigger 7 9 sampler

response_ok_example :
    text_eq
      (decided remote false
        (1000000, 36, source_default)
        strict_trigger
        7
        9
        sampler).0.x_trace_opts_rsp
      (codes "ok")
    ≡ (decided remote false (1000000, 36, source_default) strict_trigger 7 9 sampler).0.trace
unfolding trigger_requested
response_ok_example =
    response_ok remote (1000000, 36, source_default) strict_trigger 7 9 sampler refl

trigger_limits_example :
    ((decided remote false (1000000, 36, source_default) invalid_trigger 7 9 sampler).0.bucket_cap
      ≡ (bucket_at (choose_bucket invalid_trigger remote) sampler).rate_per_sec)
    × ((decided remote false
          (1000000, 36, source_default)
          invalid_trigger
          7
          9
          sampler).0.bucket_rate
        ≡ (bucket_at (choose_bucket invalid_trigger remote) sampler).capacity)
unfolding trigger_requested
trigger_limits_example =
    trigger_limits remote (1000000, 36, source_default) invalid_trigger 7 9 sampler refl

-- The capacity and the rate of the reply, and the tokens after a first request.
sampler_limits : (sampler.bucket.capacity ≡ 5) × (sampler.bucket.rate_per_sec ≡ 2)
unfolding update_setting received new_oboe_settings set_bucket_limits set_limits parse_float64
    parsed_float bytes_to_float64 little_endian argument new_sampler set_rate_cap
sampler_limits = (refl, refl)

-- What the update leaves as the default settings.
abbrev kept_setting : OboeSettings
kept_setting =
    record (merge_local_setting config
      (received 3000000000 type_default [] flag_list 1000000 120 args)) { ttl = 120 }

sampler_setting : get_setting sampler.settings ≡ some kept_setting
unfolding get_setting lookup update_setting received set_bucket_limits new_sampler new_oboe_settings
    store merge_local_setting merge_sampling has_override_flag flag_string_to_bin add_flags add_flag
    adjust_sample_rate
sampler_setting = refl

Reached-unexpired_example :
    ((get_setting (check_settings_timeout 124000000000 sampler.settings) ≡ none)
      × (123000000000 < 124000000000))
    ⊎ ((get_setting (check_settings_timeout 124000000000 sampler.settings) ≡ some kept_setting)
        × (124000000000 ≤ 123000000000))
unfolding merge_local_setting merge_sampling has_override_flag received new_oboe_settings
    flag_string_to_bin add_flags add_flag adjust_sample_rate
Reached-unexpired_example =
    Reached-unexpired 124000000000 kept_setting sampler-Reached sampler_setting (omega arith)

-- The settings of the second 3 last for 120 seconds.
outlasting :
    (has_default_setting (check_settings_timeout 123000000000 sampler.settings) ≡ true)
    × (has_default_setting (check_settings_timeout 123000000001 sampler.settings) ≡ false)
unfolding has_default_setting get_setting lookup check_settings_timeout expired update_setting
    received set_bucket_limits new_sampler new_oboe_settings merge_local_setting merge_sampling
    store delete has_override_flag flag_string_to_bin add_flags add_flag adjust_sample_rate
outlasting = (refl, refl)
