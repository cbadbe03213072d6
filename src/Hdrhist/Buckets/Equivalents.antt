-- ===== src/Hdrhist/Buckets/Equivalents.antt =====
-- The values that one counter stands for: `lowestEquiv`, `highestEquiv` and their distance.
use native.Mathlib.Nat.{div-mul-le_self, div-add-mod, mod-lt, mul_comm, mul-lt-mul_of_pos_right}
use package.appoptics_apm_go.Base.{
  ℕ, ◌+◌, ◌-◌, ◌*◌, ◌/◌, ◌%◌, ◌^◌, ◌≤◌, ◌<◌, ◌≡◌, ap, arith, ◌⊎◌, inl, inr,
}
use package.appoptics_apm_go.Base.Powers.{pow2_pos, pow2_mono, pow2_add, pow2_cong}
use package.appoptics_apm_go.Hdrhist.Buckets.{
  Buckets, IsShaped, bucket_index, sub_bucket_index, lowest_equiv, highest_equiv,
  size_of_equivalent_value_range,
}
use package.appoptics_apm_go.Hdrhist.Buckets.Located.{
  IsBucketOf, bucket_index-IsBucketOf, IsSubBucketOf, sub_bucket_index-IsSubBucketOf,
}

abbrev pub place_of : Buckets → ℕ → ℕ
place_of b v = bucket_index v b.sub_mask b.lead_zero_count_base

-- The exponent of the counter's width.
abbrev pub exponent : Buckets → ℕ → ℕ
exponent b v = place_of b v + b.unit_mag

module _ (b : Buckets) (v : ℕ) (shaped : IsShaped b) (small : v < 2 ^ 63) where
  pub bucket : IsBucketOf b.unit_mag b.sub_half_count_mag v (place_of b v)
  bucket = bucket_index-IsBucketOf b v shaped small

  pub sub_bucket :
      IsSubBucketOf b.unit_mag b.sub_half_count_mag v
        (place_of b v)
        (sub_bucket_index v (place_of b v) b.unit_mag)
  sub_bucket =
      sub_bucket_index-IsSubBucketOf b.unit_mag b.sub_half_count_mag v (place_of b v) bucket

  exponent-lt : exponent b v < 63
  exponent-lt = omega (arith, bucket.bounded)

  width-lt : 2 ^ exponent b v < 2 ^ 63
  width-lt = omega (arith, pow2_mono (exponent b v) 62 (omega (arith, exponent-lt)))

  pub lowest_equiv_lem : lowest_equiv b v ≡ v / 2 ^ exponent b v * 2 ^ exponent b v
  unfolding lowest_equiv
  lowest_equiv_lem = rw (sub_bucket.is, short) (omega (arith, div-mul-le_self v (2 ^ exponent b v)))
    where
      short : exponent b v % 2 ^ 64 ≡ exponent b v
      short = omega (arith, exponent-lt)

  pub size_lem : size_of_equivalent_value_range b v ≡ 2 ^ exponent b v
  unfolding size_of_equivalent_value_range
  size_lem = rw (short) (omega (arith, width-lt))
    where
      short : (b.unit_mag + place_of b v) % 2 ^ 64 ≡ exponent b v
      short = omega (arith, exponent-lt)

  lowest_equiv-le : lowest_equiv b v ≤ v
  lowest_equiv-le = omega (arith, lowest_equiv_lem, div-mul-le_self v (2 ^ exponent b v))

  highest_equiv_lem : highest_equiv b v ≡ lowest_equiv b v + (2 ^ exponent b v - 1)
  unfolding highest_equiv
  highest_equiv_lem = omega (arith, size_lem, lowest_equiv-le, width-lt, pow2_pos (exponent b v))

  le-highest_equiv : v ≤ highest_equiv b v
  le-highest_equiv = omega (
    arith,
    highest_equiv_lem,
    lowest_equiv_lem,
    div-add-mod v (2 ^ exponent b v),
    mod-lt v (pow2_pos (exponent b v)),
    mul_comm (v / 2 ^ exponent b v) (2 ^ exponent b v),
  )

  narrower : highest_equiv b v - lowest_equiv b v < 2 ^ exponent b v
  narrower = omega (arith, highest_equiv_lem, pow2_pos (exponent b v))

  precise :
      (highest_equiv b v - lowest_equiv b v < 2 ^ b.unit_mag)
      ⊎ ((highest_equiv b v - lowest_equiv b v) * b.sub_half_count < v)
  precise = elim bucket.first [
    | inl at_bottom ↦ inl (
        omega (
          arith,
          highest_equiv_lem,
          pow2_cong (exponent b v) b.unit_mag (omega arith),
          pow2_pos b.unit_mag,
        ))
    | inr reached ↦ inr (
        omega (
          arith,
          highest_equiv_lem,
          reached,
          pow2_add (exponent b v) b.sub_half_count_mag,
          pow2_cong (exponent b v + b.sub_half_count_mag)
              (place_of b v + (b.unit_mag + b.sub_half_count_mag)) (omega arith),
          ap (λ (n : ℕ). (highest_equiv b v - lowest_equiv b v) * n) shaped.half,
          mul-lt-mul_of_pos_right narrower (pow2_pos b.sub_half_count_mag),
        ))
  ]

-- A value lies between the ends of its counter, which are apart by less than the unit or by
-- less than the value over `subHalfCount`.
pub value_between_equivalents :
    (b : Buckets) (v : ℕ)
    → IsShaped b
    → v < 2 ^ 63
    → (lowest_equiv b v ≤ v)
      × (v ≤ highest_equiv b v)
      × ((highest_equiv b v - lowest_equiv b v < 2 ^ b.unit_mag)
          ⊎ ((highest_equiv b v - lowest_equiv b v) * b.sub_half_count < v))
value_between_equivalents b v shaped small =
    (lowest_equiv-le b v shaped small, le-highest_equiv b v shaped small, precise b v shaped small)
