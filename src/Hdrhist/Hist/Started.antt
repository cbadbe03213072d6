-- ===== src/Hdrhist/Hist/Started.antt =====
-- `Init` sets up a sound histogram that reaches the highest value of its configuration.
use package.appoptics_apm_go.Base.{
  ℕ, zero, suc, ◌+◌, ◌-◌, ◌*◌, ◌/◌, ◌^◌, ◌≤◌, ◌<◌, ◌≡◌, refl, sym, ap, ◌∙◌, arith, ◌⊎◌, none, some,
  false, ltb,
}
use package.appoptics_apm_go.Base.Words.{word, int64_lt, ge→int64_lt}
use package.appoptics_apm_go.Base.Powers.{pow2_add, pow2_cong}
use package.appoptics_apm_go.Hdrhist.Buckets.{num_buckets_to_cover_val}
use package.appoptics_apm_go.Hdrhist.Buckets.Cover.{num_buckets_to_cover_val_lem}
use package.appoptics_apm_go.Hdrhist.Hist.{
  Config, Hist, returned, checked, init, half_count_mag, shaped_buckets,
}
use package.appoptics_apm_go.Hdrhist.Hist.Shapes.{IsSound, shaped_buckets-IsShaped, total-zeros}
use package.appoptics_apm_go.Hdrhist.Hist.Recorded.{limit}

half_count_mag-le : (s : ℕ) → s ≤ 5 → half_count_mag s ≤ 17
unfolding half_count_mag
half_count_mag-le zero h = omega arith
half_count_mag-le (suc zero) h = omega arith
half_count_mag-le (suc (suc zero)) h = omega arith
half_count_mag-le (suc (suc (suc zero))) h = omega arith
half_count_mag-le (suc (suc (suc (suc zero)))) h = omega arith
half_count_mag-le (suc (suc (suc (suc (suc zero))))) h = omega arith
half_count_mag-le (suc (suc (suc (suc (suc (suc s)))))) h = absurd (omega arith)

-- The configurations that `Init` accepts, with a lowest value whose unit leaves room for
-- five figures.
pub record IsValid (cfg : Config) : Type 0 where
  pub positive : 1 ≤ cfg.lowest_discernible
  pub unit : cfg.lowest_discernible < 2 ^ 45
  pub wide : 2 * cfg.lowest_discernible ≤ cfg.highest_trackable
  pub in_int64 : cfg.highest_trackable < 2 ^ 63
  pub figures : cfg.sig_figs ≤ 5

checked_lem : (cfg : Config) → IsValid cfg → checked cfg ≡ returned cfg
unfolding checked
checked_lem cfg valid = rw (one, wide, figures) refl
  where
    one : int64_lt cfg.lowest_discernible 1 ≡ false
    one = ge→int64_lt cfg.lowest_discernible 1 (omega (arith, valid.unit)) valid.positive

    wide : int64_lt cfg.highest_trackable (word (2 * cfg.lowest_discernible)) ≡ false
    wide =
        ge→int64_lt cfg.highest_trackable (word (2 * cfg.lowest_discernible)) valid.in_int64
          (omega (arith, valid.wide, valid.unit))

    figures : ltb 5 cfg.sig_figs ≡ false
    figures = ground (arith, valid.figures)

-- With a lowest value under `2 ^ 45` and a highest of at least twice that, `Init` returns a
-- sound histogram without counts that keeps the configuration, and whose limit is no less than
-- the highest value.
pub init-IsSound :
    (floor_log2 : ℕ → ℕ) (cfg : Config)
    → ((v : ℕ) → v < 2 ^ 45 → floor_log2 v ≤ 44)
    → IsValid cfg
    → (h : Hist) × (init floor_log2 cfg ≡ returned h)
      × IsSound h
      × (h.cfg ≡ cfg)
      × (h.total_count ≡ 0)
      × (cfg.highest_trackable ≤ limit h.b)
unfolding init shaped_buckets
init-IsSound floor_log2 cfg log2_small valid =
    (started, rw (checked_lem cfg valid, cover.1) refl, sound, refl, refl, reach)
  where
    u : ℕ
    u = floor_log2 cfg.lowest_discernible

    m : ℕ
    m = half_count_mag cfg.sig_figs

    room : u + suc m ≤ 62
    room = omega (
      arith,
      log2_small cfg.lowest_discernible valid.unit,
      half_count_mag-le cfg.sig_figs valid.figures,
    )

    cover :
        (n : ℕ) × (num_buckets_to_cover_val 64 cfg.highest_trackable (2 ^ (m + 1)) u ≡ some (suc n))
        × (cfg.highest_trackable ≤ 2 ^ (u + suc m + n))
        × ((n ≡ 0) ⊎ (2 ^ (u + suc m + (n - 1)) < cfg.highest_trackable))
        × (u + suc m + n ≤ 63)
    cover =
        num_buckets_to_cover_val_lem 64 cfg.highest_trackable (2 ^ (m + 1)) u (u + suc m)
          (omega arith) valid.in_int64 room
          (sym (pow2_cong (u + suc m) (m + 1 + u) (omega arith) ∙ pow2_add (m + 1) u))

    started : Hist
    started = record {
      b = shaped_buckets u m (suc cover.0);
      cfg = cfg;
      total_count = 0;
      start_time = none;
      end_time = none;
    }

    sound : IsSound started
    sound = record {
      shaped = shaped_buckets-IsShaped u m (suc cover.0) room;
      fine = half_count_mag-le cfg.sig_figs valid.figures;
      some_bucket = omega arith;
      in_int64 = omega (arith, cover.4);
      totalled = sym (ap (λ (t : ℕ). word t) (total-zeros ((suc cover.0 + 1) * (2 ^ (m + 1) / 2))));
    }

    reach : cfg.highest_trackable ≤ limit started.b
    reach =
        omega
          (arith, cover.2, pow2_cong (u + suc m + cover.0) (suc cover.0 + (u + m)) (omega arith))
