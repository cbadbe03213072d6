-- ===== src/Reporter/Sampling/Settings.antt =====
-- v1/ao/internal/reporter/oboe.go: the settings from the collector and the local configuration,
-- their merging, and the map that holds them. An `int64` is its residue modulo 2^64. A pointer to
-- a token bucket is one of the three global buckets, which all settings share.
pub mod Update
pub mod Narrowing
pub mod Expiry
use appoptics_apm_go.Base.{
  ℕ, ◌+◌, ◌-◌, ◌*◌, ◌%◌, ◌^◌, Bool, true, false, ◌&&◌, ◌==◌, ltb, leb, if◌then◌else◌, List, [], ◌∷◌,
  Option, none, some, bit_and, length,
}
use appoptics_apm_go.Base.Text.{Text, codes, text_eq}
use appoptics_apm_go.Base.Floats.{Float64}
use appoptics_apm_go.Reporter.Sampling.Flags.{
  TracingMode, SampleSource, SettingType, flag_override, flag_trigger_trace, max_sampling_rate,
  has_any, and_not, to_sample_source, new_tracing_mode, is_unknown, to_flags, flag_string_to_bin,
}
use appoptics_apm_go.Reporter.Sampling.Flags.SampleSource.{source_file}
use appoptics_apm_go.Reporter.Sampling.Flags.SettingType.{type_default, type_layer, type_other}
use appoptics_apm_go.Reporter.Sampling.TokenBucket.{TokenBucket, empty_bucket, reset, set_rate_cap}

pub data BucketRef : Type 0 where
  global_bucket relaxed_bucket strict_bucket : BucketRef

pub record OboeSettings : Type 0 where
  pub timestamp : ℕ
  pub flags : ℕ
  pub original_flags : ℕ
  pub value : ℕ
  pub source : SampleSource
  pub ttl : ℕ
  pub layer : Text
  pub trigger_token : Option (List ℕ)
  pub bucket : BucketRef
  pub trigger_trace_relaxed_bucket : BucketRef
  pub trigger_trace_strict_bucket : BucketRef

pub record OboeSettingKey : Type 0 where
  pub s_type : SettingType
  pub layer : Text

-- The local configuration that sampling reads, and the tracing mode of a URL.
pub record LocalConfig : Type 0 where
  pub sampling_configured : Bool
  pub sample_rate : ℕ
  pub tracing_mode : Text
  pub trigger_trace : Bool

abbrev pub SettingsMap : Type 0
SettingsMap = List (OboeSettingKey × OboeSettings)

-- The globals of the sampler.
pub record Sampler (F : Type 0) : Type 0 where
  pub settings : SettingsMap
  pub bucket : TokenBucket F
  pub relaxed : TokenBucket F
  pub strict : TokenBucket F

abbrev pub bucket_at : {F : Type 0} → BucketRef → Sampler F → TokenBucket F
bucket_at global_bucket s = s.bucket
bucket_at relaxed_bucket s = s.relaxed
bucket_at strict_bucket s = s.strict

abbrev pub put_bucket : {F : Type 0} → BucketRef → TokenBucket F → Sampler F → Sampler F
put_bucket global_bucket b s = record s { bucket = b }
put_bucket relaxed_bucket b s = record s { relaxed = b }
put_bucket strict_bucket b s = record s { strict = b }

unfoldable pub has_override_flag : OboeSettings → Bool
has_override_flag s = has_any s.original_flags flag_override

-- Go's map on setting keys.
abbrev pub setting_type_eq : SettingType → SettingType → Bool
setting_type_eq type_default type_default = true
setting_type_eq type_layer type_layer = true
setting_type_eq (type_other m) (type_other n) = m == n
setting_type_eq _ _ = false

abbrev pub key_eq : OboeSettingKey → OboeSettingKey → Bool
key_eq a b = setting_type_eq a.s_type b.s_type && text_eq a.layer b.layer

unfoldable pub lookup : OboeSettingKey → SettingsMap → Option OboeSettings
lookup key [] = none
lookup key (entry ∷ rest) = if key_eq key entry.0 then some entry.1 else lookup key rest

unfoldable pub delete : OboeSettingKey → SettingsMap → SettingsMap
delete key [] = []
delete key (entry ∷ rest) =
    let others = delete key rest in if key_eq key entry.0 then others else entry ∷ others

unfoldable pub store : OboeSettingKey → OboeSettings → SettingsMap → SettingsMap
store key s m = (key, s) ∷ delete key m

-- The bytes of a little-endian word.
unfoldable pub little_endian : List ℕ → ℕ
little_endian [] = 0
little_endian (b ∷ rest) = b + 256 * little_endian rest

unfoldable pub bytes_to_float64 : {F : Type 0} → ⦃f : Float64 F⦄ → List ℕ → Option F
bytes_to_float64 ⦃f⦄ b = if length b == 8 then some (f.of_bits (little_endian b)) else none

-- The result is the residue of an `int32`.
unfoldable pub bytes_to_int32 : List ℕ → Option ℕ
bytes_to_int32 b = if length b == 4 then some (little_endian b) else none

-- The arguments of a settings reply.
abbrev pub Args : Type 0
Args = List (Text × List ℕ)

unfoldable pub argument : Args → Text → Option (List ℕ)
argument [] key = none
argument (arg ∷ args) key = if text_eq key arg.0 then some arg.1 else argument args key

-- A value that is an error or negative, or is NaN, gives the fallback.
abbrev pub accepted_float : {F : Type 0} → ⦃f : Float64 F⦄ → F → Option F → F
accepted_float fb none = fb
accepted_float ⦃f⦄ fb (some v) = if f.le f.zero v then v else fb

unfoldable pub parsed_float : {F : Type 0} → ⦃f : Float64 F⦄ → F → Option (List ℕ) → F
parsed_float fb none = fb
parsed_float fb (some c) = accepted_float fb (bytes_to_float64 c)

unfoldable pub parse_float64 : {F : Type 0} → ⦃f : Float64 F⦄ → Args → Text → F → F
parse_float64 args key fb = parsed_float fb (argument args key)

unfoldable pub parse_int32 : Args → Text → ℕ → ℕ
parse_int32 args key fb = elim (argument args key) [
  | none ↦ fb
  | some c ↦ elim (bytes_to_int32 c) [ none ↦ fb | some v ↦ if ltb v (2 ^ 31) then v else fb ]
]

unfoldable pub adjust_sample_rate : ℕ → ℕ
adjust_sample_rate rate =
    if leb (2 ^ 63) rate then 0 else if ltb max_sampling_rate rate then max_sampling_rate else rate

-- The three cases of the local configuration, then the local trigger trace switch.
unfoldable pub merge_sampling : LocalConfig → OboeSettings → OboeSettings
merge_sampling config remote =
    if has_override_flag remote && config.sampling_configured
    then (let lowered =
          if ltb config.sample_rate remote.value
          then record remote { value = config.sample_rate; source = source_file }
          else remote in
        record lowered {
          flags = bit_and lowered.flags (to_flags (new_tracing_mode config.tracing_mode));
        })
    else if config.sampling_configured
    then record remote {
      value = config.sample_rate;
      flags = to_flags (new_tracing_mode config.tracing_mode);
      source = source_file;
    }
    else remote

unfoldable pub merge_local_setting : LocalConfig → OboeSettings → OboeSettings
merge_local_setting config remote =
    let merged = merge_sampling config remote in
    if config.trigger_trace
    then merged
    else record merged { flags = and_not merged.flags flag_trigger_trace }

-- The sample rate, the flags and the source that a request to a URL is decided by, where
-- `url_mode` is the URL filters' tracing mode.
unfoldable pub merge_url_setting : OboeSettings → Text → TracingMode → ℕ × ℕ × SampleSource
merge_url_setting setting [] url_mode = (setting.value, setting.flags, setting.source)
merge_url_setting setting (c ∷ url) url_mode =
    if is_unknown url_mode then (setting.value, setting.flags, setting.source) else (
      setting.value,
      (if has_override_flag setting
          then bit_and (to_flags url_mode) setting.original_flags
          else to_flags url_mode),
      source_file,
    )
