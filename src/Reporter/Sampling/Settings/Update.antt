-- ===== src/Reporter/Sampling/Settings/Update.antt =====
-- v1/ao/internal/reporter/oboe.go: the steps that change the settings map and the buckets' rates.
use appoptics_apm_go.Base.{
  ℕ, ◌+◌, ◌-◌, ◌*◌, ◌%◌, ◌^◌, Bool, true, false, ltb, if◌then◌else◌, [], ◌∷◌, Option, none, some,
}
use appoptics_apm_go.Base.Text.{Text, codes}
use appoptics_apm_go.Base.Floats.{Float64}
use appoptics_apm_go.Reporter.Sampling.Flags.{
  SettingType, SampleSource, to_sample_source, flag_string_to_bin,
}
use appoptics_apm_go.Reporter.Sampling.Flags.SettingType.{type_default}
use appoptics_apm_go.Reporter.Sampling.TokenBucket.{TokenBucket, reset, set_rate_cap}
use appoptics_apm_go.Reporter.Sampling.Settings.{
  OboeSettings, OboeSettingKey, SettingsMap, LocalConfig, Sampler, BucketRef, Args, argument,
  parse_float64, adjust_sample_rate, merge_local_setting, lookup, delete, store, bucket_at,
  put_bucket,
}
use appoptics_apm_go.Reporter.Sampling.Settings.BucketRef.{
  global_bucket, relaxed_bucket, strict_bucket,
}
use appoptics_apm_go.Metrics.RateCounts.{RateCounts, flush_rate_counts}

-- The zero values, with the three global buckets.
unfoldable pub new_oboe_settings : OboeSettings
new_oboe_settings = record {
  timestamp = 0;
  flags = 0;
  original_flags = 0;
  value = 0;
  source = SampleSource.source_none;
  ttl = 0;
  layer = [];
  trigger_token = none;
  bucket = global_bucket;
  trigger_trace_relaxed_bucket = relaxed_bucket;
  trigger_trace_strict_bucket = strict_bucket;
}

abbrev pub default_key : OboeSettingKey
default_key = record { s_type = type_default; layer = [] }

unfoldable pub get_setting : SettingsMap → Option OboeSettings
get_setting m = lookup default_key m

unfoldable pub remove_setting : SettingsMap → SettingsMap
remove_setting m = delete default_key m

unfoldable pub has_default_setting : SettingsMap → Bool
has_default_setting m = elim (get_setting m) [ none ↦ false | some _ ↦ true ]

-- `timestamp.Add(Duration(ttl) * Second).Before(now)`, where the product wraps at 64 bits.
unfoldable pub expired : ℕ → OboeSettings → Bool
expired now s =
    let d = s.ttl * 1000000000 % 2 ^ 64 in
    if ltb d (2 ^ 63) then ltb (s.timestamp + d) now else ltb s.timestamp (now + (2 ^ 64 - d))

-- A range over the map that deletes the entry it stands at.
unfoldable pub check_settings_timeout : ℕ → SettingsMap → SettingsMap
check_settings_timeout now [] = []
check_settings_timeout now (entry ∷ rest) =
    let kept = check_settings_timeout now rest in if expired now entry.1 then kept else entry ∷ kept

unfoldable pub set_limits :
    {F : Type 0} → ⦃f : Float64 F⦄ → Args → Text → Text → TokenBucket F → TokenBucket F
set_limits ⦃f⦄ args rate_key capacity_key b =
    set_rate_cap (parse_float64 args rate_key f.zero) (parse_float64 args capacity_key f.zero) b

-- The settings of a reply, before the buckets and the merge.
unfoldable pub received : ℕ → SettingType → Text → Text → ℕ → ℕ → Args → OboeSettings
received now s_type layer flags value ttl args = record new_oboe_settings {
  timestamp = now;
  source = to_sample_source s_type;
  flags = flag_string_to_bin flags;
  original_flags = flag_string_to_bin flags;
  value = adjust_sample_rate value;
  ttl = ttl;
  layer = layer;
  trigger_token = argument args (codes "SignatureKey");
}

module _ {F : Type 0} ⦃f : Float64 F⦄ where
  unfoldable pub set_bucket_limits : Args → OboeSettings → Sampler F → Sampler F
  set_bucket_limits args ns st =
      let set = λ (ref : BucketRef) (rate_key : Text) (capacity_key : Text) (st : Sampler F).
        put_bucket ref (set_limits args rate_key capacity_key (bucket_at ref st)) st in
      set ns.trigger_trace_strict_bucket (codes "TriggerStrictBucketRate")
        (codes "TriggerStrictBucketCapacity")
        (set ns.trigger_trace_relaxed_bucket (codes "TriggerRelaxedBucketRate")
          (codes "TriggerRelaxedBucketCapacity")
          (set ns.bucket (codes "BucketRate") (codes "BucketCapacity") st))

  unfoldable pub update_setting :
      LocalConfig → ℕ → SettingType → Text → Text → ℕ → ℕ → Args → Sampler F → Sampler F
  update_setting config now s_type layer flags value ttl args st =
      let ns = received now s_type layer flags value ttl args in
      let limited = set_bucket_limits args ns st in
      record limited {
        settings =
            store (record { s_type = s_type; layer = layer }) (merge_local_setting config ns)
              limited.settings;
      }

  -- `FlushRateCounts`: the counts by category, and the sampler with the counters at 0.
  unfoldable pub flush_bucket : BucketRef → Sampler F → RateCounts × Sampler F
  flush_bucket ref st =
      let flushed = flush_rate_counts (bucket_at ref st).counts in
      (flushed.0, put_bucket ref (record (bucket_at ref st) { counts = flushed.1 }) st)

  unfoldable pub flush_all :
      Option OboeSettings → Sampler F → Option (RateCounts × RateCounts × RateCounts) × Sampler F
  flush_all none st = (none, st)
  flush_all (some setting) st =
      let regular = flush_bucket setting.bucket st in
      let relaxed = flush_bucket setting.trigger_trace_relaxed_bucket regular.1 in
      let strict = flush_bucket setting.trigger_trace_strict_bucket relaxed.1 in
      (some (regular.0, relaxed.0, strict.0), strict.1)

  unfoldable pub flush_rate_counts_of :
      Sampler F → Option (RateCounts × RateCounts × RateCounts) × Sampler F
  flush_rate_counts_of st = flush_all (get_setting st.settings) st

  unfoldable pub reset_settings : Sampler F → Sampler F
  reset_settings st =
      let flushed = (flush_rate_counts_of st).1 in
      record flushed { settings = []; bucket = reset flushed.bucket }
