-- ===== src/Reporter/Sampling/Settings/Narrowing.antt =====
-- What the local configuration and a URL filter may change of the collector's settings.
use mathlib.Core.Path.{subst}
use appoptics_apm_go.Base.{
  ℕ, ◌≤◌, ◌≡◌, refl, ap, sym, ◌∙◌, Bool, true, false, ◌||◌, not, if◌then◌else◌, if_both, [], ◌∷◌,
  arith, ◌==◌, bit_and, bit_xor,
}
use appoptics_apm_go.Base.Text.{Text}
use appoptics_apm_go.Base.Digits.{
  digit, digit-lt, digit-bit_and, bit_and_bit, IsWithin, refl-IsWithin, bit_and_left-IsWithin,
  bit_and_right-IsWithin, trans-IsWithin,
}
use appoptics_apm_go.Reporter.Sampling.Flags.{
  TracingMode, SampleSource, max_sampling_rate, flag_trigger_trace, flag_override, and_not, has_any,
  to_flags, new_tracing_mode, is_unknown, trigger_trace_enabled,
}
use appoptics_apm_go.Reporter.Sampling.Flags.TracingMode.{trace_enabled}
use appoptics_apm_go.Reporter.Sampling.Settings.{
  OboeSettings, LocalConfig, has_override_flag, adjust_sample_rate, merge_sampling,
  merge_local_setting, merge_url_setting,
}

-- Go's clamp of the rate, as an order.
pub adjust_sample_rate-le : (rate : ℕ) → adjust_sample_rate rate ≤ max_sampling_rate
unfolding adjust_sample_rate
adjust_sample_rate-le rate = ground arith

module _ (config : LocalConfig) (remote : OboeSettings) where
  merge_sampling-value :
      has_override_flag remote ≡ true → (merge_sampling config remote).value ≤ remote.value
  unfolding merge_sampling
  merge_sampling-value override = ground arith

  merge_sampling-flags :
      has_override_flag remote ≡ true
      → (merge_sampling config remote).flags ≡ (
          if config.sampling_configured
          then bit_and remote.flags (to_flags (new_tracing_mode config.tracing_mode))
          else remote.flags)
  unfolding merge_sampling
  merge_sampling-flags override = ground arith

  merge_sampling-IsWithin :
      has_override_flag remote ≡ true → IsWithin (merge_sampling config remote).flags remote.flags
  merge_sampling-IsWithin override = rw (merge_sampling-flags override) (
      if_both (λ (flags : ℕ). IsWithin flags remote.flags) config.sampling_configured
        (λ _. bit_and_left-IsWithin remote.flags _) (λ _. refl-IsWithin remote.flags))

  merge_local-IsWithin :
      has_override_flag remote ≡ true
      → IsWithin (merge_local_setting config remote).flags remote.flags
  unfolding merge_local_setting
  merge_local-IsWithin override =
      if_both (λ (s : OboeSettings). IsWithin s.flags remote.flags) config.trigger_trace
        (λ _. merge_sampling-IsWithin override)
        (λ _. trans-IsWithin _ _ _ (bit_and_left-IsWithin _ _) (merge_sampling-IsWithin override))

  -- Merging leaves the collector's own flags.
  merge_local-original : (merge_local_setting config remote).original_flags ≡ remote.original_flags
  unfolding merge_local_setting merge_sampling
  merge_local-original = ground arith

  merge_local-value :
      has_override_flag remote ≡ true → (merge_local_setting config remote).value ≤ remote.value
  unfolding merge_local_setting
  merge_local-value override =
      if_both (λ (s : OboeSettings). s.value ≤ remote.value) config.trigger_trace
        (λ _. merge_sampling-value override) (λ _. merge_sampling-value override)

merge_url-IsWithin :
    (setting : OboeSettings) (url : Text) (url_mode : TracingMode)
    → has_override_flag setting ≡ true
    → IsWithin setting.flags setting.original_flags
    → IsWithin (merge_url_setting setting url url_mode).1 setting.original_flags
unfolding merge_url_setting
merge_url-IsWithin setting [] url_mode override h = h
merge_url-IsWithin setting (c ∷ url) url_mode override h = rw override (
    if_both (λ (r : ℕ × ℕ × SampleSource). IsWithin r.1 setting.original_flags)
      (is_unknown url_mode) (λ _. h) (λ _. bit_and_right-IsWithin _ _))

merge_url-value :
    (setting : OboeSettings) (url : Text) (url_mode : TracingMode)
    → (merge_url_setting setting url url_mode).0 ≡ setting.value
unfolding merge_url_setting
merge_url-value setting [] url_mode = refl
merge_url-value setting (c ∷ url) url_mode = ground arith

-- Where the collector sets the override flag, neither the local configuration nor a URL filter
-- adds a flag to the collector's or raises its sample rate.
pub override_narrows :
    (config : LocalConfig) (remote : OboeSettings) (url : Text) (url_mode : TracingMode)
    → has_override_flag remote ≡ true
    → remote.flags ≡ remote.original_flags
    → IsWithin
        (merge_url_setting (merge_local_setting config remote) url url_mode).1
        remote.original_flags
      × ((merge_url_setting (merge_local_setting config remote) url url_mode).0 ≤ remote.value)
unfolding has_override_flag
override_narrows config remote url url_mode override fresh =
    let original = merge_local-original config remote in
    let flags = merge_local-IsWithin config remote override in
    (
      subst (IsWithin _) original (
          merge_url-IsWithin (merge_local_setting config remote) url url_mode
            (ap (λ (n : ℕ). has_any n flag_override) original ∙ override)
            (subst (IsWithin _) (fresh ∙ sym original) flags)),
      omega (
        arith,
        merge_url-value (merge_local_setting config remote) url url_mode,
        merge_local-value config remote override,
      ),
    )

trigger-digit : (f : ℕ) → trigger_trace_enabled f ≡ (digit 5 f == 1)
unfolding trigger_trace_enabled
trigger-digit f = ground (arith, bit_and_bit 5 f, digit-lt 5 f)

trigger-and_not : (f : ℕ) → trigger_trace_enabled (and_not f flag_trigger_trace) ≡ false
trigger-and_not f = ground (
  arith,
  trigger-digit (and_not f flag_trigger_trace),
  digit-bit_and 5 f (bit_xor flag_trigger_trace 0xFFFF),
)

trigger-enabled_and :
    (f : ℕ) → trigger_trace_enabled (bit_and (to_flags trace_enabled) f) ≡ trigger_trace_enabled f
unfolding to_flags
trigger-enabled_and f =
    ground
      (arith, trigger-digit (bit_and 52 f), trigger-digit f, digit-bit_and 5 52 f, digit-lt 5 f)

trigger_cases :
    (override : Bool) (f : ℕ)
    → trigger_trace_enabled
        (if override then bit_and (to_flags trace_enabled) f else to_flags trace_enabled)
      ≡ (not override || trigger_trace_enabled f)
unfolding trigger_trace_enabled to_flags
trigger_cases true f = trigger-enabled_and f
trigger_cases false f = refl

trigger_switched_off :
    (config : LocalConfig) (remote : OboeSettings)
    → config.trigger_trace ≡ false
    → trigger_trace_enabled (merge_local_setting config remote).flags ≡ false
unfolding merge_local_setting
trigger_switched_off config remote off = rw off (trigger-and_not _)

-- With the trigger trace switched off locally the merged setting has no trigger trace flag, which
-- a URL filter that enables tracing sets again, unless the collector overrides without that flag.
pub trigger_switch :
    (config : LocalConfig) (remote : OboeSettings) (c : ℕ) (url : Text)
    → config.trigger_trace ≡ false
    → (trigger_trace_enabled (merge_local_setting config remote).flags ≡ false)
      × (trigger_trace_enabled
            (merge_url_setting (merge_local_setting config remote) (c ∷ url) trace_enabled).1
          ≡ (not (has_override_flag remote) || trigger_trace_enabled remote.original_flags))
unfolding merge_url_setting is_unknown has_override_flag
trigger_switch config remote c url off = (
  trigger_switched_off config remote off,
  ap
        (λ (n : ℕ). trigger_trace_enabled (
          if has_any n flag_override
          then bit_and (to_flags trace_enabled) n
          else to_flags trace_enabled))
        (merge_local-original config remote)
      ∙ trigger_cases (has_override_flag remote) remote.original_flags,
)
