-- ===== src/Hdrhist/Hist/Runs.antt =====
-- The histogram on concrete values: one significant figure, and counters for the values under 32.
use package.appoptics_apm_go.Base.{
  ℕ, suc, ◌+◌, ◌-◌, ◌*◌, ◌/◌, ◌^◌, ◌≤◌, ◌<◌, ◌≡◌, ◌≢◌, ◌↔◌, ◌⊎◌, inl, inr, refl, arith, true, [],
  ◌∷◌, length, none, some,
}
use package.appoptics_apm_go.Base.Powers.{pow2_mono, le_or_lt}
use package.appoptics_apm_go.Hdrhist.Buckets.{
  IsShaped, cover_from, counts_index, value_for, lowest_equiv, highest_equiv,
  num_buckets_to_cover_val,
}
use package.appoptics_apm_go.Hdrhist.Buckets.Equivalents.{value_between_equivalents}
use package.appoptics_apm_go.Hdrhist.Buckets.Indices.{value_for-counts_index}
use package.appoptics_apm_go.Hdrhist.Buckets.Cover.{num_buckets_to_cover_val_lem}
use package.appoptics_apm_go.Hdrhist.Hist.{
  Hist, Fault, returned, failed, record_n, record_corrected, resized, shaped_buckets, new,
  with_config, init, checked, half_count_mag,
}
use package.appoptics_apm_go.Hdrhist.Hist.Shapes.{IsSound, shaped_buckets-IsShaped}
use package.appoptics_apm_go.Hdrhist.Hist.Recorded.{
  recorded, limit, record_n-tracked, record_n-edge, record_n-resized,
}
use package.appoptics_apm_go.Hdrhist.Hist.Totals.{record_n-IsSound}
use package.appoptics_apm_go.Hdrhist.Hist.Corrected.{record_all, downward, record_corrected_lem}

abbrev small : Hist
small = record {
  b = shaped_buckets 0 4 1;
  cfg = record { lowest_discernible = 1; highest_trackable = 2; sig_figs = 1; auto_resize = true };
  total_count = 0;
  start_time = none;
  end_time = none;
}

-- `New(1)` returns it.
new-small : new (λ v. 0) 1 ≡ returned small
unfolding new with_config init checked half_count_mag num_buckets_to_cover_val cover_from
    shaped_buckets
new-small = refl

small-IsShaped : IsShaped small.b
small-IsShaped = shaped_buckets-IsShaped 0 4 1 (omega arith)

small-IsSound : IsSound small
unfolding shaped_buckets
small-IsSound = record {
  shaped = shaped_buckets-IsShaped 0 4 1 (omega arith);
  fine = omega arith;
  some_bucket = omega arith;
  in_int64 = omega arith;
  totalled = refl;
}

value_between_equivalents_example :
    (lowest_equiv small.b 77 ≤ 77)
    × (77 ≤ highest_equiv small.b 77)
    × ((highest_equiv small.b 77 - lowest_equiv small.b 77 < 2 ^ small.b.unit_mag)
        ⊎ ((highest_equiv small.b 77 - lowest_equiv small.b 77) * small.b.sub_half_count < 77))
value_between_equivalents_example =
    value_between_equivalents small.b 77 small-IsShaped (omega arith)

value_for-counts_index_example :
    (value_for small.b (counts_index small.b 77) ≡ lowest_equiv small.b 77)
    × ((counts_index small.b 77 < length small.b.counts)
        ↔ (77 < 2 ^ (small.b.bucket_count + (small.b.unit_mag + small.b.sub_half_count_mag))))
value_for-counts_index_example =
    value_for-counts_index small.b 77 small-IsShaped (omega arith) small-IsSound.some_bucket

num_buckets_to_cover_val_lem_example :
    (n : ℕ) × (num_buckets_to_cover_val 63 1000 32 0 ≡ some (suc n))
    × (1000 ≤ 2 ^ (5 + n))
    × ((n ≡ 0) ⊎ (2 ^ (5 + (n - 1)) < 1000))
    × (5 + n ≤ 63)
num_buckets_to_cover_val_lem_example =
    num_buckets_to_cover_val_lem 63 1000 32 0 5 (omega arith) (omega arith) (omega arith) refl

-- Values on each side of the limit.
limit_small : limit small.b ≡ 32
unfolding shaped_buckets
limit_small = refl

record_n-tracked_example :
    record_n small 20 3 ≡ returned (recorded small (counts_index small.b 20) 3)
record_n-tracked_example =
    record_n-tracked small 20 3 small-IsSound (omega arith) (omega (arith, limit_small))

next_width : 2 ^ (small.b.bucket_count + small.b.unit_mag) ≡ 2
unfolding shaped_buckets
next_width = refl

record_n-edge_example : record_n small 32 1 ≡ failed Fault.index_out_of_range
record_n-edge_example =
    record_n-edge small 32 1 small-IsSound (omega arith) (omega (arith, limit_small))
      (omega (arith, limit_small, next_width))

not_power : (k : ℕ) → 37 ≢ 2 ^ k
not_power k e = elim (le_or_lt k 5) [
  | inl low ↦ omega (arith, e, pow2_mono k 5 low)
  | inr high ↦ omega (arith, e, pow2_mono 6 k high)
]

record_n-resized_example :
    (n : ℕ) × (37 < limit (resized small n).b)
    × (record_n small 37 1 ≡ returned (recorded (resized small n) (counts_index small.b 37) 1))
record_n-resized_example =
    record_n-resized small 37 1 small-IsSound (omega arith) (omega (arith, limit_small, next_width))
      refl not_power

record_n-IsSound_example : IsSound (recorded small (counts_index small.b 20) 3)
record_n-IsSound_example =
    record_n-IsSound small 20 3 (recorded small (counts_index small.b 20) 3) small-IsSound
      (omega arith) record_n-tracked_example

record_corrected_lem_example :
    record_corrected 4 small 20 6 ≡ record_all small (20 ∷ downward (20 / 6 - 1) (20 - 6) 6)
record_corrected_lem_example =
    record_corrected_lem 4 small 20 6 (omega arith) (omega arith) (omega arith) (omega arith)

corrected_values : downward (20 / 6 - 1) (20 - 6) 6 ≡ 14 ∷ 8 ∷ []
corrected_values = refl
