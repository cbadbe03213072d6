-- ===== src/Reporter/Sampling/Request/Steps.antt =====
-- The sampler as a machine: the states that updates, requests, expiry, removal and flushes reach, one
-- whole call after another.
use appoptics_apm_go.Base.{ℕ, suc, Bool, Option, []}
use appoptics_apm_go.Base.Text.{Text}
use appoptics_apm_go.Base.Floats.{Float64}
use appoptics_apm_go.Reporter.Sampling.Flags.{TracingMode, SettingType}
use appoptics_apm_go.Reporter.Sampling.TokenBucket.{empty_bucket}
use appoptics_apm_go.Reporter.Sampling.Settings.{LocalConfig, Sampler, Args}
use appoptics_apm_go.Reporter.Sampling.Settings.Update.{
  update_setting, check_settings_timeout, remove_setting, flush_rate_counts_of, reset_settings,
}
use appoptics_apm_go.Reporter.Sampling.Request.{TriggerTraceMode, oboe_sample_request}

module _ {F : Type 0} ⦃f : Float64 F⦄ where
  unfoldable pub new_sampler : Sampler F
  new_sampler = record {
    settings = [];
    bucket = empty_bucket;
    relaxed = empty_bucket;
    strict = empty_bucket;
  }

  -- Sampler states, by the number of requests that have been decided.
  pub data Reached : ℕ → Sampler F → Type 0 where
    started : Reached 0 new_sampler
    updated :
        {n : ℕ} {st : Sampler F} (config : LocalConfig) (now : ℕ) (s_type : SettingType)
        (layer flags : Text) (value ttl : ℕ) (args : Args)
        → Reached n st
        → Reached n (update_setting config now s_type layer flags value ttl args st)
    requested :
        {n : ℕ} {st : Sampler F} (test_reporter : Option Bool) (traced : Bool) (url : Text)
        (url_mode : TracingMode) (mode : TriggerTraceMode) (draw now : ℕ)
        → Reached n st
        → Reached (suc n) (oboe_sample_request test_reporter traced url url_mode mode draw now st).1
    timed_out :
        {n : ℕ} {st : Sampler F} (now : ℕ)
        → Reached n st
        → Reached n (record st { settings = check_settings_timeout now st.settings })
    removed :
        {n : ℕ} {st : Sampler F}
        → Reached n st
        → Reached n (record st { settings = remove_setting st.settings })
    flushed : {n : ℕ} {st : Sampler F} → Reached n st → Reached n (flush_rate_counts_of st).1
    reset_all : {n : ℕ} {st : Sampler F} → Reached n st → Reached n (reset_settings st)
