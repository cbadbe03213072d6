-- ===== src/Reporter/TriggerTrace/Runs.antt =====
-- Concrete options and signatures, and the theorems at concrete inputs.
use appoptics_apm_go.Base.{ℕ, ◌≡◌, refl, ap, true, List, [], ◌∷◌, none, some, All}
use appoptics_apm_go.Base.Text.{Text, codes}
use appoptics_apm_go.Base.Split.{split}
use appoptics_apm_go.Reporter.Sampling.Flags.SampleSource.{source_default}
use appoptics_apm_go.Reporter.Sampling.Settings.{SettingsMap, lookup}
use appoptics_apm_go.Reporter.Sampling.Settings.BucketRef.{
  global_bucket, relaxed_bucket, strict_bucket,
}
use appoptics_apm_go.Reporter.Sampling.Settings.Update.{default_key, get_setting}
use appoptics_apm_go.Reporter.Sampling.Request.{trigger_requested}
use appoptics_apm_go.Reporter.Sampling.Request.TriggerTraceMode.{
  invalid_trigger, relaxed_trigger, not_present,
}
use appoptics_apm_go.Reporter.TriggerTrace.{
  parse_digits, in_int64, parse_magnitude, parse_int, near, ts_in_scope, nonempty_token,
  get_trigger_trace_token, validate_with_token, validate_at, validate_signature,
}
use appoptics_apm_go.Reporter.TriggerTrace.AuthError.{bad_signature}
use appoptics_apm_go.Reporter.TriggerTrace.Options.{
  parse_options, no_options, parse_trigger_trace_flag, kvs_get, kvs_delete, kvs_set, split_key,
  is_space, trim_left, trim_space, has_space, has_prefix, known_key, keep, add_option, parse_split,
  authenticated, requested_mode, mode_of_flag,
}
use appoptics_apm_go.Reporter.TriggerTrace.Authentic.{IsAuthentic, relaxed-IsAuthentic}
use appoptics_apm_go.Reporter.TriggerTrace.Keys.{reported, parse_trigger_trace_flag-IsReported}

abbrev settings : SettingsMap
settings =
    (
      default_key,
      record {
        timestamp = 0;
        flags = 36;
        original_flags = 36;
        value = 1000000;
        source = source_default;
        ttl = 120;
        layer = [];
        trigger_token = some (8 ∷ 9 ∷ []);
        bucket = global_bucket;
        trigger_trace_relaxed_bucket = relaxed_bucket;
        trigger_trace_strict_bucket = strict_bucket;
      },
    )
    ∷ []

-- A hash that shows the token and the first character.
abbrev first_hash : List ℕ → Text → Text
first_hash token [] = token
first_hash token (c ∷ text) = c ∷ token

abbrev now : ℕ
now = 1000000000000

abbrev opts : Text
opts = codes "ts=900; pd-keys=a:b ;custom-x=1;custom-x=2;bad key=3;trigger-trace"

abbrev signature : Text
signature = 116 ∷ 8 ∷ 9 ∷ []

accepted : parse_trigger_trace_flag first_hash settings now opts signature ≡ record {
  mode = relaxed_trigger;
  kvs = (codes "custom-x", codes "1") ∷ (codes "PDKeys", codes "a:b") ∷ [];
  ignored = codes "bad key" ∷ [];
  auth_err = none;
}
unfolding parse_trigger_trace_flag parse_options parse_split split_key trim_space trim_left is_space
    has_space has_prefix known_key keep add_option kvs_set kvs_get kvs_delete mode_of_flag
    requested_mode authenticated validate_signature validate_at validate_with_token
    get_trigger_trace_token get_setting lookup nonempty_token ts_in_scope near parse_int
    parse_magnitude parse_digits in_int64
accepted = refl

rejected :
    parse_trigger_trace_flag first_hash settings now opts (codes "no")
    ≡ record { mode = invalid_trigger; kvs = []; ignored = []; auth_err = some bad_signature }
unfolding parse_trigger_trace_flag parse_options parse_split split_key trim_space trim_left is_space
    has_space has_prefix known_key keep add_option kvs_set kvs_get kvs_delete mode_of_flag
    requested_mode authenticated validate_signature validate_at validate_with_token
    get_trigger_trace_token get_setting lookup nonempty_token ts_in_scope near parse_int
    parse_magnitude parse_digits in_int64
rejected = refl

-- The flag with a space before it is taken for an unknown key.
spaced_flag :
    parse_trigger_trace_flag first_hash settings now (codes "custom-x=1; trigger-trace") []
    ≡ record {
      mode = not_present;
      kvs = (codes "custom-x", codes "1") ∷ [];
      ignored = codes "trigger-trace" ∷ [];
      auth_err = none;
    }
unfolding parse_trigger_trace_flag parse_options parse_split split_key trim_space trim_left is_space
    has_space has_prefix known_key keep add_option kvs_set kvs_get kvs_delete mode_of_flag
spaced_flag = refl

relaxed-IsAuthentic_example :
    IsAuthentic first_hash settings now signature (parse_options (split 59 opts) no_options).ts opts
relaxed-IsAuthentic_example =
    relaxed-IsAuthentic first_hash settings now opts signature (ap (λ r. r.mode) accepted)

parse_trigger_trace_flag-IsReported_example :
    All
      (λ kv. reported kv.0 ≡ true)
      (parse_trigger_trace_flag first_hash settings now opts signature).kvs
unfolding trigger_requested
parse_trigger_trace_flag-IsReported_example =
    parse_trigger_trace_flag-IsReported first_hash settings now opts signature
      (ap (λ r. trigger_requested r.mode) accepted)
