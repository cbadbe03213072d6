-- ===== src/Reporter/Sampling/TokenBucket/Bounds.antt =====
-- A bucket never holds more tokens than its capacity.
use appoptics_apm_go.Base.{ℕ, ◌==◌, ◌≡◌, Bool, true, false, arith, if◌then◌else◌, if_both, not}
use appoptics_apm_go.Base.Floats.{Float64}
use appoptics_apm_go.Metrics.RateCounts.{
  RateCounts, requested_inc, sampled_inc, limited_inc, traced_inc, through_inc,
}
use appoptics_apm_go.Reporter.Sampling.TokenBucket.{
  TokenBucket, empty_bucket, reset, set_rate_cap, update, consume, count, time_since, count_with,
  count_traced, count_requested,
}

module _ {F : Type 0} ⦃f : Float64 F⦄ where
  abbrev pub Nonneg : F → Type 0
  Nonneg x = f.le f.zero x ≡ true

  pub record IsBounded (b : TokenBucket F) : Type 0 where
    pub rate_nonneg : Nonneg b.rate_per_sec
    pub capacity_nonneg : Nonneg b.capacity
    pub available_nonneg : Nonneg b.available
    pub available-le : f.le b.available b.capacity ≡ true

  pub empty_bucket-IsBounded : IsBounded empty_bucket
  unfolding empty_bucket
  empty_bucket-IsBounded = record {
    rate_nonneg = f.zero_le_zero;
    capacity_nonneg = f.zero_le_zero;
    available_nonneg = f.zero_le_zero;
    available-le = f.zero_le_zero;
  }

  pub reset-IsBounded : (b : TokenBucket F) → IsBounded (reset b)
  unfolding reset
  reset-IsBounded b = record {
    rate_nonneg = f.zero_le_zero;
    capacity_nonneg = f.zero_le_zero;
    available_nonneg = f.zero_le_zero;
    available-le = f.zero_le_zero;
  }

  -- A change of the bucket's other fields.
  keep_limits-IsBounded :
      (b : TokenBucket F) {a : F}
      → IsBounded b
      → Nonneg a
      → f.le a b.capacity ≡ true
      → IsBounded (record b { available = a })
  keep_limits-IsBounded b h some_left fits = record {
    rate_nonneg = h.rate_nonneg;
    capacity_nonneg = h.capacity_nonneg;
    available_nonneg = some_left;
    available-le = fits;
  }

  tick-IsBounded : (b : TokenBucket F) (now : ℕ) → IsBounded b → IsBounded (record b { last = now })
  tick-IsBounded b now h = record {
    rate_nonneg = h.rate_nonneg;
    capacity_nonneg = h.capacity_nonneg;
    available_nonneg = h.available_nonneg;
    available-le = h.available-le;
  }

  pub set_rate_cap-IsBounded :
      (rate cap : F) (b : TokenBucket F)
      → Nonneg rate
      → Nonneg cap
      → IsBounded b
      → IsBounded (set_rate_cap rate cap b)
  unfolding set_rate_cap
  set_rate_cap-IsBounded rate cap b rate_ok cap_ok h = record {
    rate_nonneg = rate_ok;
    capacity_nonneg = cap_ok;
    available_nonneg = ground (arith, h.available_nonneg);
    available-le =
        ground
          (arith, f.le_refl cap cap_ok, f.le_of_not-lt cap b.available cap_ok h.available_nonneg);
  }

  pub update-IsBounded : (now : ℕ) (b : TokenBucket F) → IsBounded b → IsBounded (update now b)
  unfolding update
  update-IsBounded now b h =
      if_both IsBounded (f.lt b.available b.capacity)
        (λ room.
          if_both IsBounded (time_since b.last now == 0) (λ no_time. tick-IsBounded b now h)
            (λ some_time.
              tick-IsBounded (record b { available = _ }) now
                (keep_limits-IsBounded b h
                  (f.min-nonneg b.capacity
                    (f.add b.available (f.times_seconds b.rate_per_sec (time_since b.last now)))
                    h.capacity_nonneg (sum-Nonneg some_time))
                  (f.min-le b.capacity
                    (f.add b.available (f.times_seconds b.rate_per_sec (time_since b.last now)))
                    h.capacity_nonneg (sum-Nonneg some_time)))))
        (λ full. h)
    where
      sum-Nonneg :
          (time_since b.last now == 0) ≡ false
          → Nonneg (f.add b.available (f.times_seconds b.rate_per_sec (time_since b.last now)))
      sum-Nonneg some_time =
          f.add-nonneg _ _ h.available_nonneg (f.tokens-nonneg _ _ h.rate_nonneg (ground arith))

  pub consume-IsBounded :
      (now : ℕ) (b : TokenBucket F) → IsBounded b → IsBounded (consume f.one now b).1
  unfolding consume
  consume-IsBounded now b h =
      if_both (λ (r : Bool × TokenBucket F). IsBounded r.1) (f.le f.one (update now b).available)
        (λ enough.
          keep_limits-IsBounded (update now b) after (f.sub_one-nonneg _ enough)
            (f.le_trans _ _ _ (f.sub_one-le _ enough) after.available-le))
        (λ short. after)
    where
      after : IsBounded (update now b)
      after = update-IsBounded now b h

  pub count_with-IsBounded :
      (step : RateCounts → RateCounts) (b : TokenBucket F)
      → IsBounded b
      → IsBounded (count_with step b)
  count_with-IsBounded step b h = record {
    rate_nonneg = h.rate_nonneg;
    capacity_nonneg = h.capacity_nonneg;
    available_nonneg = h.available_nonneg;
    available-le = h.available-le;
  }

  counted-IsBounded :
      (has_metadata : Bool) (step : RateCounts → RateCounts) (b : TokenBucket F)
      → IsBounded b
      → IsBounded (if has_metadata then count_with step b else b)
  counted-IsBounded true step b h = count_with-IsBounded step b h
  counted-IsBounded false step b h = h

  traced-IsBounded :
      (has_metadata : Bool) (b : TokenBucket F)
      → IsBounded b
      → IsBounded (count_traced has_metadata b).1
  traced-IsBounded has_metadata b h =
      count_with-IsBounded traced_inc _ (counted-IsBounded has_metadata through_inc b h)

  pub count-IsBounded :
      (sampled has_metadata rate_limit : Bool) (now : ℕ) (b : TokenBucket F)
      → IsBounded b
      → IsBounded (count sampled has_metadata rate_limit now b).1
  unfolding count
  count-IsBounded sampled has_metadata rate_limit now b h =
      if_both (λ (r : Bool × TokenBucket F). IsBounded r.1) (not sampled) (λ _. start)
        (λ _.
          if_both (λ (r : Bool × TokenBucket F). IsBounded r.1) rate_limit
            (λ _.
              if_both (λ (r : Bool × TokenBucket F). IsBounded r.1)
                (not (consume f.one now (count_requested has_metadata b)).0)
                (λ _. count_with-IsBounded limited_inc _ taken)
                (λ _. traced-IsBounded has_metadata _ taken))
            (λ _. traced-IsBounded has_metadata _ start))
    where
      start : IsBounded (count_requested has_metadata b)
      start =
          if_both IsBounded has_metadata (λ _. count_with-IsBounded requested_inc b h)
            (λ _. count_with-IsBounded sampled_inc _ (count_with-IsBounded requested_inc b h))

      taken : IsBounded (consume f.one now (count_requested has_metadata b)).1
      taken = consume-IsBounded now _ start
