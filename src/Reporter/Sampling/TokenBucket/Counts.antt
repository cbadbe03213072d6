-- ===== src/Reporter/Sampling/TokenBucket/Counts.antt =====
-- What one call of `count` decides, what it takes from the bucket, and bounds of the counters.
use appoptics_apm_go.Base.{
  ℕ, suc, ◌+◌, ◌^◌, ◌≤◌, ◌<◌, ◌≡◌, refl, sym, ◌∙◌, Bool, true, false, not, ◌&&◌, ◌||◌, arith,
  if_both, if◌then◌else◌,
}
use mathlib.Core.Path.{subst}
use appoptics_apm_go.Base.Floats.{Float64}
use appoptics_apm_go.Metrics.RateCounts.{
  RateCounts, no_counts, requested_inc, sampled_inc, limited_inc, traced_inc, through_inc,
}
use appoptics_apm_go.Reporter.Sampling.TokenBucket.{
  TokenBucket, update, consume, count, count_with, count_requested, count_traced,
}

-- Counters after at most `n` requests.
pub record IsTally (n : ℕ) (c : RateCounts) : Type 0 where
  pub requested-le : c.requested ≤ n
  pub sampled-le : c.sampled ≤ c.requested
  pub decided-le : c.traced + c.limited ≤ c.requested
  pub through-le : c.through ≤ c.traced

pub no_counts-IsTally : IsTally 0 no_counts
no_counts-IsTally = record {
  requested-le = omega arith;
  sampled-le = omega arith;
  decided-le = omega arith;
  through-le = omega arith;
}

-- Within a request, one decision is due.
record IsDue (n : ℕ) (c : RateCounts) : Type 0 where
  requested-le : c.requested ≤ suc n
  sampled-le : c.sampled ≤ c.requested
  due-lt : c.traced + c.limited < c.requested
  through-le : c.through ≤ c.traced

module _ {n : ℕ} (small : suc n < 2 ^ 64) {c : RateCounts} where
  requested_inc-IsDue : IsTally n c → IsDue n (requested_inc c)
  unfolding requested_inc
  requested_inc-IsDue h = record {
    requested-le = omega (arith, h.requested-le);
    sampled-le = omega (arith, h.requested-le, h.sampled-le);
    due-lt = omega (arith, h.requested-le, h.decided-le);
    through-le = h.through-le;
  }

  sampled_inc-IsDue : IsTally n c → IsDue n (sampled_inc (requested_inc c))
  unfolding requested_inc sampled_inc
  sampled_inc-IsDue h = record {
    requested-le = omega (arith, h.requested-le);
    sampled-le = omega (arith, h.requested-le, h.sampled-le);
    due-lt = omega (arith, h.requested-le, h.decided-le);
    through-le = h.through-le;
  }

  undecided-IsTally : IsDue n c → IsTally (suc n) c
  undecided-IsTally h = record {
    requested-le = h.requested-le;
    sampled-le = h.sampled-le;
    decided-le = omega (arith, h.due-lt);
    through-le = h.through-le;
  }

  limited_inc-IsTally : IsDue n c → IsTally (suc n) (limited_inc c)
  unfolding limited_inc
  limited_inc-IsTally h = record {
    requested-le = h.requested-le;
    sampled-le = h.sampled-le;
    decided-le = omega (arith, h.due-lt, h.requested-le);
    through-le = h.through-le;
  }

  traced_inc-IsTally : IsDue n c → IsTally (suc n) (traced_inc c)
  unfolding traced_inc
  traced_inc-IsTally h = record {
    requested-le = h.requested-le;
    sampled-le = h.sampled-le;
    decided-le = omega (arith, h.due-lt, h.requested-le);
    through-le = omega (arith, h.through-le, h.due-lt, h.requested-le);
  }

  through_inc-IsTally : IsDue n c → IsTally (suc n) (traced_inc (through_inc c))
  unfolding traced_inc through_inc
  through_inc-IsTally h = record {
    requested-le = h.requested-le;
    sampled-le = h.sampled-le;
    decided-le = omega (arith, h.due-lt, h.requested-le);
    through-le = omega (arith, h.through-le, h.due-lt, h.requested-le);
  }

module _ {F : Type 0} ⦃f : Float64 F⦄ where
  update-counts : (now : ℕ) (b : TokenBucket F) → (update now b).counts ≡ b.counts
  unfolding update
  update-counts now b = ground arith

  pub consume-counts :
      (size : F) (now : ℕ) (b : TokenBucket F) → (consume size now b).1.counts ≡ b.counts
  unfolding consume
  consume-counts size now b =
      if_both (λ (r : Bool × TokenBucket F). r.1.counts ≡ b.counts)
        (f.le size (update now b).available) (λ _. update-counts now b) (λ _. update-counts now b)

  -- What the clock does to a bucket does not depend on its counters.
  update-count_with :
      (step : RateCounts → RateCounts) (now : ℕ) (b : TokenBucket F)
      → (update now (count_with step b)).available ≡ (update now b).available
  unfolding update
  update-count_with step now b = ground arith

  update-count_requested :
      (has_metadata : Bool) (now : ℕ) (b : TokenBucket F)
      → (update now (count_requested has_metadata b)).available ≡ (update now b).available
  update-count_requested true now b = update-count_with requested_inc now b
  update-count_requested false now b =
      update-count_with sampled_inc now (count_with requested_inc b)
      ∙ update-count_with requested_inc now b

  count_requested-available :
      (has_metadata : Bool) (b : TokenBucket F)
      → (count_requested has_metadata b).available ≡ b.available
  count_requested-available true b = refl
  count_requested-available false b = refl

  count_traced-available :
      (has_metadata : Bool) (b : TokenBucket F)
      → (count_traced has_metadata b).1.available ≡ b.available
  count_traced-available true b = refl
  count_traced-available false b = refl

  -- The tokens that a sampled request under a rate limit leaves.
  abbrev pub left_by : Bool → ℕ → TokenBucket F → F
  left_by limited now b =
      if limited
      then (if f.le f.one (update now b).available
          then f.sub (update now b).available f.one
          else (update now b).available)
      else b.available

  -- What is left after the decision on a token.
  after_taking : Bool → TokenBucket F → Bool × TokenBucket F
  after_taking enough b =
      if enough then (true, record b { available = f.sub b.available f.one }) else (false, b)

  finish : Bool → Bool × TokenBucket F → Bool × TokenBucket F
  finish has_metadata taken =
      if not taken.0
      then (false, count_with limited_inc taken.1)
      else count_traced has_metadata taken.1

  taken_lem :
      (has_metadata enough : Bool) (b : TokenBucket F)
      → ((finish has_metadata (after_taking enough b)).0 ≡ enough)
        × ((finish has_metadata (after_taking enough b)).1.available
            ≡ (if enough then f.sub b.available f.one else b.available))
  unfolding finish after_taking
  taken_lem m false b = (refl, refl)
  taken_lem m true b = (refl, count_traced-available m _)

  -- A request is traced just where it is sampled and, under a rate limit, a whole token is there
  -- after the refill. Only a sampled request under a limit touches the bucket, and it takes one
  -- token where there is one.
  pub count_lem :
      (sampled has_metadata rate_limit : Bool) (now : ℕ) (b : TokenBucket F)
      → ((count sampled has_metadata rate_limit now b).0
          ≡ sampled && (not rate_limit || f.le f.one (update now b).available))
        × ((count sampled has_metadata rate_limit now b).1.available
            ≡ left_by (sampled && rate_limit) now b)
  unfolding count consume finish after_taking
  count_lem false m r now b = (refl, count_requested-available m b)
  count_lem true m false now b = (refl, count_traced-available m _ ∙ count_requested-available m b)
  count_lem true m true now b = rw (sym (update-count_requested m now b)) (
      taken_lem m (f.le f.one (update now (count_requested m b)).available)
        (update now (count_requested m b)))

  module _ {n : ℕ} (small : suc n < 2 ^ 64) where
    count_requested-IsDue :
        (has_metadata : Bool) (b : TokenBucket F)
        → IsTally n b.counts
        → IsDue n (count_requested has_metadata b).counts
    count_requested-IsDue true b h = requested_inc-IsDue small h
    count_requested-IsDue false b h = sampled_inc-IsDue small h

    count_traced-IsTally :
        (has_metadata : Bool) (b : TokenBucket F)
        → IsDue n b.counts
        → IsTally (suc n) (count_traced has_metadata b).1.counts
    count_traced-IsTally true b h = through_inc-IsTally small h
    count_traced-IsTally false b h = traced_inc-IsTally small h

    finish-IsTally :
        (has_metadata enough : Bool) (b : TokenBucket F)
        → IsDue n b.counts
        → IsTally (suc n) (finish has_metadata (enough, b)).1.counts
    unfolding finish
    finish-IsTally m true b h = count_traced-IsTally m b h
    finish-IsTally m false b h = limited_inc-IsTally small h

    -- The counters of a bucket after one more request: the request is counted as requested, and
    -- they never say that more requests were sampled, or limited and traced, than were made, or
    -- that more were continued than traced. No counter wraps while fewer than 2^64 are made.
    pub count-IsTally :
        (sampled has_metadata rate_limit : Bool) (now : ℕ) (b : TokenBucket F)
        → IsTally n b.counts
        → IsTally (suc n) (count sampled has_metadata rate_limit now b).1.counts
    unfolding count finish
    count-IsTally false m r now b h = undecided-IsTally small (count_requested-IsDue m b h)
    count-IsTally true m false now b h = count_traced-IsTally m _ (count_requested-IsDue m b h)
    count-IsTally true m true now b h =
        finish-IsTally m (consume f.one now (count_requested m b)).0
          (consume f.one now (count_requested m b)).1
          (subst (IsDue n) (sym (consume-counts f.one now _)) (count_requested-IsDue m b h))
