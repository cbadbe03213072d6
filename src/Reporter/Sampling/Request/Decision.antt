-- ===== src/Reporter/Sampling/Request/Decision.antt =====
-- When a request is traced, what it takes from the buckets, and what the response says.
use appoptics_apm_go.Base.{
  ℕ, ◌≡◌, refl, sym, ap, ◌∙◌, Bool, true, false, not, ◌&&◌, ◌||◌, ◌==◌, leb, if◌then◌else◌, arith,
}
use mathlib.Core.Path.{subst}
use appoptics_apm_go.Base.Floats.{Float64}
use appoptics_apm_go.Base.Digits.{digit, digit-lt, bit_and_bit}
use appoptics_apm_go.Reporter.Sampling.Flags.{SampleSource, has_any, trigger_trace_enabled}
use appoptics_apm_go.Reporter.Sampling.TokenBucket.{TokenBucket, update, count}
use appoptics_apm_go.Reporter.Sampling.TokenBucket.Counts.{count_lem, left_by}
use appoptics_apm_go.Reporter.Sampling.Settings.{
  OboeSettings, Sampler, BucketRef, bucket_at, put_bucket,
}
use appoptics_apm_go.Reporter.Sampling.Settings.BucketRef.{
  global_bucket, relaxed_bucket, strict_bucket,
}
use appoptics_apm_go.Reporter.Sampling.Request.TriggerTraceMode.{
  not_present, invalid_trigger, relaxed_trigger, strict_trigger,
}
use appoptics_apm_go.Reporter.Sampling.Request.{
  TriggerTraceMode, trigger_requested, choose_bucket, regular_sampled, should_sample, count_in,
  trigger_request, regular_request, decided,
}

-- The number of the flag bits: SAMPLE_START, SAMPLE_THROUGH, SAMPLE_THROUGH_ALWAYS, TRIGGER_TRACE.
abbrev pub is_set : ℕ → ℕ → Bool
is_set bit flags = digit bit flags == 1

-- Whether the draw lets a request through: of a million, as many as the rate says, or all.
abbrev pub is_drawn : ℕ → ℕ → Bool
is_drawn draw sample_rate = sample_rate == 1000000 || leb draw sample_rate

-- Which requests the flags and the draw select: one that continues a trace, where
-- SAMPLE_THROUGH_ALWAYS is set, or SAMPLE_THROUGH and it is drawn; a new one that asks for no
-- trigger trace, where SAMPLE_START is set and it is drawn; a valid trigger trace, where
-- TRIGGER_TRACE is set.
abbrev pub selected : Bool → ℕ → ℕ → TriggerTraceMode → ℕ → Bool
selected true sample_rate flags mode draw =
    is_set 4 flags || (is_set 3 flags && is_drawn draw sample_rate)
selected false sample_rate flags not_present draw = is_set 2 flags && is_drawn draw sample_rate
selected false sample_rate flags invalid_trigger draw = false
selected false sample_rate flags relaxed_trigger draw = is_set 5 flags
selected false sample_rate flags strict_trigger draw = is_set 5 flags

-- The bucket that a request is counted in: two modes have their own.
abbrev pub mode_bucket : TriggerTraceMode → OboeSettings → BucketRef
mode_bucket not_present setting = setting.bucket
mode_bucket invalid_trigger setting = setting.bucket
mode_bucket relaxed_trigger setting = setting.trigger_trace_relaxed_bucket
mode_bucket strict_trigger setting = setting.trigger_trace_strict_bucket

has_start : (flags : ℕ) → has_any flags 4 ≡ is_set 2 flags
has_start flags = ground (arith, bit_and_bit 2 flags, digit-lt 2 flags)

has_through : (flags : ℕ) → has_any flags 8 ≡ is_set 3 flags
has_through flags = ground (arith, bit_and_bit 3 flags, digit-lt 3 flags)

has_always : (flags : ℕ) → has_any flags 16 ≡ is_set 4 flags
has_always flags = ground (arith, bit_and_bit 4 flags, digit-lt 4 flags)

pub has_trigger : (flags : ℕ) → trigger_trace_enabled flags ≡ is_set 5 flags
unfolding trigger_trace_enabled
has_trigger flags = ground (arith, bit_and_bit 5 flags, digit-lt 5 flags)

if_or : (a b drawn : Bool) → (if a then true else if b then drawn else false) ≡ a || (b && drawn)
if_or true b drawn = refl
if_or false true drawn = refl
if_or false false drawn = refl

if_and : (b drawn : Bool) → (if b then drawn else false) ≡ b && drawn
if_and true drawn = refl
if_and false drawn = refl

regular-selected :
    (traced : Bool) (sample_rate flags draw : ℕ)
    → regular_sampled traced flags sample_rate draw
      ≡ selected traced sample_rate flags not_present draw
unfolding regular_sampled should_sample
regular-selected true sample_rate flags draw =
    if_or (has_any flags 16) (has_any flags 8) (is_drawn draw sample_rate)
    ∙ ap (λ a. a || (has_any flags 8 && is_drawn draw sample_rate)) (has_always flags)
    ∙ ap (λ b. is_set 4 flags || (b && is_drawn draw sample_rate)) (has_through flags)
regular-selected false sample_rate flags draw =
    if_and (has_any flags 4) (is_drawn draw sample_rate)
    ∙ ap (λ b. b && is_drawn draw sample_rate) (has_start flags)

and_twice : (b : Bool) → (b && (true && b)) ≡ (b && true)
and_twice true = refl
and_twice false = refl

module _ {F : Type 0} ⦃f : Float64 F⦄ where
  bucket_put :
      (ref : BucketRef) (b : TokenBucket F) (st : Sampler F)
      → bucket_at ref (put_bucket ref b st) ≡ b
  bucket_put global_bucket b st = refl
  bucket_put relaxed_bucket b st = refl
  bucket_put strict_bucket b st = refl

  -- What a call of `count` does, where a sampled request is limited just if it starts a trace.
  IsDecided : Bool → Bool → ℕ → TokenBucket F → Bool → TokenBucket F → Type 0
  IsDecided sampled traced now b result after =
      (result ≡ sampled && (traced || f.le f.one (update now b).available))
      × (after.available ≡ left_by (sampled && not traced) now b)

  count-IsDecided :
      (sampled traced limit : Bool) (now : ℕ) (b : TokenBucket F)
      → (sampled && limit) ≡ (sampled && not traced)
      → IsDecided sampled traced now b
          (count sampled traced limit now b).0
          (count sampled traced limit now b).1
  unfolding IsDecided
  count-IsDecided false traced limit now b same = count_lem false traced limit now b
  count-IsDecided true true false now b same = count_lem true true false now b
  count-IsDecided true true true now b same = absurd (ground arith)
  count-IsDecided true false true now b same = count_lem true false true now b
  count-IsDecided true false false now b same = absurd (ground arith)

  count_in-IsDecided :
      (ref : BucketRef) (sampled traced limit : Bool) (now : ℕ) (st : Sampler F)
      → (sampled && limit) ≡ (sampled && not traced)
      → IsDecided sampled traced now
          (bucket_at ref st)
          (count_in ref sampled traced limit now st).0
          (bucket_at ref (count_in ref sampled traced limit now st).1)
  unfolding count_in
  count_in-IsDecided ref sampled traced limit now st same =
      subst (IsDecided sampled traced now (bucket_at ref st) _) (sym (bucket_put ref _ st))
        (count-IsDecided sampled traced limit now (bucket_at ref st) same)

  -- The decision by a bucket and a selection.
  TracesBy :
      OboeSettings
      → Bool
      → ℕ × ℕ × SampleSource
      → TriggerTraceMode
      → ℕ
      → ℕ
      → Sampler F
      → BucketRef
      → Bool
      → Type 0
  TracesBy setting traced merged mode draw now st ref sampled =
      ((decided setting traced merged mode draw now st).0.trace
        ≡ sampled && (traced || f.le f.one (update now (bucket_at ref st)).available))
      × ((bucket_at ref (decided setting traced merged mode draw now st).1).available
          ≡ left_by (sampled && not traced) now (bucket_at ref st))

  -- A request is traced just where the flags and the draw select it and, unless it continues a
  -- trace, the bucket of its mode has a token after the refill. A new request that is selected
  -- refills that bucket and takes the token if it is there; no other request changes what is
  -- available in it.
  pub decided_lem :
      (setting : OboeSettings) (traced : Bool) (merged : ℕ × ℕ × SampleSource)
      (mode : TriggerTraceMode) (draw now : ℕ) (st : Sampler F)
      → ((decided setting traced merged mode draw now st).0.trace
          ≡ selected traced merged.0 merged.1 mode draw
            && (traced
                || f.le f.one (update now (bucket_at (mode_bucket mode setting) st)).available))
        × ((bucket_at
              (mode_bucket mode setting)
              (decided setting traced merged mode draw now st).1).available
            ≡ left_by
                (selected traced merged.0 merged.1 mode draw && not traced)
                now
                (bucket_at (mode_bucket mode setting) st))
  unfolding decided trigger_request regular_request IsDecided TracesBy trigger_requested
      choose_bucket
  decided_lem setting true merged not_present draw now st =
      subst (TracesBy setting true merged not_present draw now st _)
        (regular-selected true merged.0 merged.1 draw) (count_in-IsDecided _ _ true _ now st refl)
  decided_lem setting true merged invalid_trigger draw now st =
      subst (TracesBy setting true merged invalid_trigger draw now st _)
        (regular-selected true merged.0 merged.1 draw) (count_in-IsDecided _ _ true _ now st refl)
  decided_lem setting true merged relaxed_trigger draw now st =
      subst (TracesBy setting true merged relaxed_trigger draw now st _)
        (regular-selected true merged.0 merged.1 draw) (count_in-IsDecided _ _ true _ now st refl)
  decided_lem setting true merged strict_trigger draw now st =
      subst (TracesBy setting true merged strict_trigger draw now st _)
        (regular-selected true merged.0 merged.1 draw) (count_in-IsDecided _ _ true _ now st refl)
  decided_lem setting false merged not_present draw now st =
      subst (TracesBy setting false merged not_present draw now st _)
        (regular-selected false merged.0 merged.1 draw)
        (count_in-IsDecided _ _ false _ now st
          (and_twice (regular_sampled false merged.1 merged.0 draw)))
  decided_lem setting false merged invalid_trigger draw now st =
      count_in-IsDecided _ _ false _ now st refl
  decided_lem setting false merged relaxed_trigger draw now st =
      subst (TracesBy setting false merged relaxed_trigger draw now st _) (has_trigger merged.1)
        (count_in-IsDecided _ _ false _ now st refl)
  decided_lem setting false merged strict_trigger draw now st =
      subst (TracesBy setting false merged strict_trigger draw now st _) (has_trigger merged.1)
        (count_in-IsDecided _ _ false _ now st refl)
