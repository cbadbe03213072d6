-- ===== src/Reporter/Sampling/Request/Lasting.antt =====
-- The settings map in every state that the sampler reaches, and the settings that outlast a check.
use appoptics_apm_go.Base.{
  ℕ, ◌+◌, ◌*◌, ◌^◌, ◌<◌, ◌≤◌, ◌⊎◌, inl, inr, ltb, ◌≡◌, refl, sym, ap, ◌∙◌, Bool, not, ◌&&◌, Option,
  none, some, if_both, arith,
}
use mathlib.Core.Path.{subst}
use appoptics_apm_go.Base.Text.{Text}
use appoptics_apm_go.Base.Floats.{Float64}
use appoptics_apm_go.Reporter.Sampling.Flags.{TracingMode, SampleSource}
use appoptics_apm_go.Reporter.Sampling.TokenBucket.{TokenBucket}
use appoptics_apm_go.Reporter.Sampling.Settings.{OboeSettings, Sampler, BucketRef, Args, put_bucket}
use appoptics_apm_go.Reporter.Sampling.Settings.BucketRef.{
  global_bucket, relaxed_bucket, strict_bucket,
}
use appoptics_apm_go.Reporter.Sampling.Settings.Update.{
  set_bucket_limits, update_setting, check_settings_timeout, remove_setting, flush_bucket,
  flush_all, flush_rate_counts_of, reset_settings, get_setting, default_key, expired,
}
use appoptics_apm_go.Reporter.Sampling.Settings.Expiry.{
  IsUnique, unexpired, delete-IsUnique, store-IsUnique, check_settings_timeout-IsUnique,
  lookup-check_settings_timeout,
}
use appoptics_apm_go.Reporter.Sampling.Request.{
  TriggerTraceMode, SampleDecision, count_in, trigger_requested, trigger_request, regular_request,
  decided, decided_by, oboe_sample_request,
}
use appoptics_apm_go.Reporter.Sampling.Request.Steps.{new_sampler, Reached}
use appoptics_apm_go.Reporter.Sampling.Request.Steps.Reached.{
  started, updated, requested, timed_out, removed, flushed, reset_all,
}

-- Settings that are gone just where their time to live has passed.
IsLasting : ℕ → OboeSettings → Option OboeSettings → Type 0
IsLasting now setting kept =
    ((kept ≡ none) × (setting.timestamp + setting.ttl * 1000000000 < now))
    ⊎ ((kept ≡ some setting) × (now ≤ setting.timestamp + setting.ttl * 1000000000))

expired_lem :
    (now : ℕ) (setting : OboeSettings)
    → setting.ttl * 1000000000 < 2 ^ 63
    → expired now setting ≡ ltb (setting.timestamp + setting.ttl * 1000000000) now
unfolding expired
expired_lem now setting fits = ground arith

unexpired-IsLasting :
    (now : ℕ) (setting : OboeSettings)
    → setting.ttl * 1000000000 < 2 ^ 63
    → IsLasting now setting (unexpired now (some setting))
unfolding unexpired IsLasting
unexpired-IsLasting now setting fits = rw (expired_lem now setting fits) (
    if_both (IsLasting now setting) (ltb (setting.timestamp + setting.ttl * 1000000000) now)
      (λ over. inl (refl, ground arith)) (λ young. inr (refl, ground arith)))

module _ {F : Type 0} ⦃f : Float64 F⦄ where
  put_bucket-settings :
      (ref : BucketRef) (b : TokenBucket F) (st : Sampler F)
      → (put_bucket ref b st).settings ≡ st.settings
  put_bucket-settings global_bucket b st = refl
  put_bucket-settings relaxed_bucket b st = refl
  put_bucket-settings strict_bucket b st = refl

  set_bucket_limits-settings :
      (args : Args) (ns : OboeSettings) (st : Sampler F)
      → (set_bucket_limits args ns st).settings ≡ st.settings
  unfolding set_bucket_limits
  set_bucket_limits-settings args ns st =
      put_bucket-settings ns.trigger_trace_strict_bucket _ _
      ∙ put_bucket-settings ns.trigger_trace_relaxed_bucket _ _
      ∙ put_bucket-settings ns.bucket _ st

  decided-settings :
      (setting : OboeSettings) (traced : Bool) (merged : ℕ × ℕ × SampleSource)
      (mode : TriggerTraceMode) (draw now : ℕ) (st : Sampler F)
      → (decided setting traced merged mode draw now st).1.settings ≡ st.settings
  unfolding decided trigger_request regular_request count_in
  decided-settings setting traced merged mode draw now st =
      if_both (λ (r : SampleDecision F × Sampler F). r.1.settings ≡ st.settings)
        (trigger_requested mode && not traced) (λ _. put_bucket-settings _ _ st)
        (λ _. put_bucket-settings _ _ st)

  decided_by-settings :
      (found : Option OboeSettings) (traced : Bool) (url : Text) (url_mode : TracingMode)
      (mode : TriggerTraceMode) (draw now : ℕ) (st : Sampler F)
      → (decided_by found traced url url_mode mode draw now st).1.settings ≡ st.settings
  unfolding decided_by
  decided_by-settings none traced url url_mode mode draw now st = refl
  decided_by-settings (some setting) traced url url_mode mode draw now st =
      decided-settings setting traced _ mode draw now st

  request-settings :
      (test_reporter : Option Bool) (traced : Bool) (url : Text) (url_mode : TracingMode)
      (mode : TriggerTraceMode) (draw now : ℕ) (st : Sampler F)
      → (oboe_sample_request test_reporter traced url url_mode mode draw now st).1.settings
        ≡ st.settings
  unfolding oboe_sample_request
  request-settings (some should_trace) traced url url_mode mode draw now st = refl
  request-settings none traced url url_mode mode draw now st =
      decided_by-settings (get_setting st.settings) traced url url_mode mode draw now st

  flush_all-settings :
      (found : Option OboeSettings) (st : Sampler F) → (flush_all found st).1.settings ≡ st.settings
  unfolding flush_all flush_bucket
  flush_all-settings none st = refl
  flush_all-settings (some setting) st =
      put_bucket-settings setting.trigger_trace_strict_bucket _ _
      ∙ put_bucket-settings setting.trigger_trace_relaxed_bucket _ _
      ∙ put_bucket-settings setting.bucket _ st

  -- In every state that the sampler reaches, its map has each key once.
  Reached-IsUnique : {n : ℕ} {st : Sampler F} → Reached n st → IsUnique st.settings
  unfolding new_sampler update_setting remove_setting flush_rate_counts_of reset_settings IsUnique
  Reached-IsUnique started = tt
  Reached-IsUnique (updated config now s_type layer flags value ttl args r) =
      store-IsUnique _ _ _
        (subst IsUnique (sym (set_bucket_limits-settings args _ _)) (Reached-IsUnique r))
  Reached-IsUnique (requested test traced url url_mode mode draw now r) =
      subst IsUnique (sym (request-settings test traced url url_mode mode draw now _))
        (Reached-IsUnique r)
  Reached-IsUnique (timed_out now r) = check_settings_timeout-IsUnique now _ (Reached-IsUnique r)
  Reached-IsUnique (removed r) = delete-IsUnique default_key _ (Reached-IsUnique r)
  Reached-IsUnique (flushed {st = st} r) =
      subst IsUnique (sym (flush_all-settings (get_setting st.settings) st)) (Reached-IsUnique r)
  Reached-IsUnique (reset_all r) = tt

  -- In every state that the sampler reaches, the expiry check removes the default settings where the
  -- clock is past their timestamp and their time to live, in seconds, and keeps them as they are
  -- where it is not, if that time to live fits an `int64` of nanoseconds.
  pub Reached-unexpired :
      {n : ℕ} {st : Sampler F} (now : ℕ) (setting : OboeSettings)
      → Reached n st
      → get_setting st.settings ≡ some setting
      → setting.ttl * 1000000000 < 2 ^ 63
      → ((get_setting (check_settings_timeout now st.settings) ≡ none)
          × (setting.timestamp + setting.ttl * 1000000000 < now))
        ⊎ ((get_setting (check_settings_timeout now st.settings) ≡ some setting)
            × (now ≤ setting.timestamp + setting.ttl * 1000000000))
  unfolding get_setting IsLasting
  Reached-unexpired now setting r found fits =
      subst (IsLasting now setting)
        (sym (
          lookup-check_settings_timeout now default_key _ (Reached-IsUnique r)
          ∙ ap (unexpired now) found))
        (unexpired-IsLasting now setting fits)
