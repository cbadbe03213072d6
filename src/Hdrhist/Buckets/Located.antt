-- ===== src/Hdrhist/Buckets/Located.antt =====
-- The bucket of a value, as `bucketIndex` and `subBucketIndex` find it.
use native.Mathlib.Nat.{
  div-lt_iff_lt-mul, le-div_iff_mul-le, mul-le-mul_right, mul-lt-mul_of_pos_right,
}
use package.appoptics_apm_go.Base.{
  ℕ, zero, suc, ◌+◌, ◌-◌, ◌*◌, ◌/◌, ◌%◌, ◌^◌, ◌≤◌, ◌<◌, ◌≡◌, refl, arith, ◌⊎◌, inl, inr, bit_or,
}
use package.appoptics_apm_go.Base.Powers.{
  pow2_pos, pow2_mono, pow2_reflects, pow2_add, pow2_suc, bit_or-ge, bit_or-lt, le_or_lt, pow2_cong,
}
use package.appoptics_apm_go.Hdrhist.Buckets.{
  Buckets, IsShaped, bucket_index, sub_bucket_index, leading_zeros,
}
use package.appoptics_apm_go.Hdrhist.Buckets.LeadingZeros.{IsTopBit, leading_zeros-IsTopBit}

-- Bucket `bi` is the first whose values reach `v`.
pub record IsBucketOf (unit_mag half_mag v bi : ℕ) : Type 0 where
  pub top : v < 2 ^ (bi + (unit_mag + suc half_mag))
  pub first : (bi ≡ 0) ⊎ (2 ^ (bi + (unit_mag + half_mag)) ≤ v)
  pub bounded : bi + (unit_mag + suc half_mag) ≤ 63

-- The mask of ones from the unit up, between two powers.
pub mask_between :
    (u m : ℕ)
    → (2 ^ (u + m) ≤ (2 ^ suc m - 1) * 2 ^ u) × ((2 ^ suc m - 1) * 2 ^ u < 2 ^ (u + suc m))
mask_between u m = (
  omega (arith, low, pow2_add m u, pow2_cong (u + m) (m + u) (omega arith)),
  omega (arith, high, pow2_add (suc m) u, pow2_cong (u + suc m) (suc m + u) (omega arith)),
)
  where
    low : 2 ^ m * 2 ^ u ≤ (2 ^ suc m - 1) * 2 ^ u
    low = mul-le-mul_right (2 ^ u) (omega (arith, pow2_suc m, pow2_pos m))

    high : (2 ^ suc m - 1) * 2 ^ u < 2 ^ suc m * 2 ^ u
    high = mul-lt-mul_of_pos_right (omega (arith, pow2_pos (suc m))) (pow2_pos u)

-- The place of the top bit of `v | mask` gives the bucket.
module _ (u m v mask lz base : ℕ) (low : 2 ^ (u + m) ≤ mask) (high : mask < 2 ^ (u + suc m))
    (room : u + suc m ≤ 62) (total : base + (u + suc m) ≡ 64) (small : v < 2 ^ 63)
    (found : IsTopBit (bit_or v mask) lz) where
  bits_left : u + m < 64 - lz
  bits_left = pow2_reflects (u + m) (64 - lz) (omega (arith, low, found.high, (bit_or-ge v mask).1))

  sign_clear : 1 ≤ lz
  sign_clear = omega (
    arith,
    pow2_reflects (63 - lz) 63
        (omega (arith, found.low, bit_or-lt 63 v mask small (omega (arith, mask_small)))),
  )
    where
      mask_small : mask < 2 ^ 63
      mask_small = omega (arith, high, pow2_mono (u + suc m) 63 (omega arith))

  first_of : (bi : ℕ) → bi + (u + suc m) + lz ≡ 64 → (bi ≡ 0) ⊎ (2 ^ (bi + (u + m)) ≤ v)
  first_of zero e = inl refl
  first_of (suc bi) e = elim (le_or_lt (2 ^ (suc bi + (u + m))) v) [
    | inl reached ↦ inr reached
    | inr below ↦ absurd (
        omega (
          arith,
          bit_or-lt (63 - lz) v mask
              (omega (arith, pow2_cong (63 - lz) (suc bi + (u + m)) (omega arith)))
              (omega (arith, high, pow2_mono (u + suc m) (63 - lz) (omega arith))),
          found.low,
        ))
  ]

  place-IsBucketOf : IsBucketOf u m v (base - lz)
  place-IsBucketOf = record {
    top = omega (
      arith,
      found.high,
      (bit_or-ge v mask).0,
      pow2_cong (base - lz + (u + suc m)) (64 - lz) (omega (arith, bits_left)),
    );
    first = first_of (base - lz) (omega (arith, bits_left));
    bounded = omega (arith, sign_clear, bits_left);
  }

pub bucket_index-IsBucketOf :
    (b : Buckets) (v : ℕ)
    → IsShaped b
    → v < 2 ^ 63
    → IsBucketOf b.unit_mag b.sub_half_count_mag v
        (bucket_index v b.sub_mask b.lead_zero_count_base)
unfolding bucket_index
bucket_index-IsBucketOf b v shaped small = rw unwrapped (
    place-IsBucketOf b.unit_mag b.sub_half_count_mag v b.sub_mask
      (leading_zeros (bit_or v b.sub_mask)) b.lead_zero_count_base low high shaped.fits shaped.base
      small found)
  where
    low : 2 ^ (b.unit_mag + b.sub_half_count_mag) ≤ b.sub_mask
    low = rw shaped.mask ((mask_between b.unit_mag b.sub_half_count_mag).0)

    high : b.sub_mask < 2 ^ (b.unit_mag + suc b.sub_half_count_mag)
    high = rw shaped.mask ((mask_between b.unit_mag b.sub_half_count_mag).1)

    found : IsTopBit (bit_or v b.sub_mask) (leading_zeros (bit_or v b.sub_mask))
    found =
        leading_zeros-IsTopBit (bit_or v b.sub_mask)
          (omega
            (arith, (bit_or-ge v b.sub_mask).1, low, pow2_pos (b.unit_mag + b.sub_half_count_mag)))
          (bit_or-lt 64 v b.sub_mask (omega arith) (
            omega (
              arith,
              high,
              pow2_mono (b.unit_mag + suc b.sub_half_count_mag) 64 (omega (arith, shaped.fits)),
            )))

    unwrapped :
        (b.lead_zero_count_base + 2 ^ 64 - leading_zeros (bit_or v b.sub_mask)) % 2 ^ 64
        ≡ b.lead_zero_count_base - leading_zeros (bit_or v b.sub_mask)
    unwrapped = omega (
      arith,
      shaped.base,
      bits_left b.unit_mag b.sub_half_count_mag v b.sub_mask (leading_zeros (bit_or v b.sub_mask))
          b.lead_zero_count_base low high shaped.fits shaped.base small found,
    )

-- The sub-bucket of a value, and the exponent of its unit.
pub record IsSubBucketOf (unit_mag half_mag v bi sbi : ℕ) : Type 0 where
  pub is : sbi ≡ v / 2 ^ (bi + unit_mag)
  pub under : sbi < 2 ^ suc half_mag
  pub upper_half : (bi ≡ 0) ⊎ (2 ^ half_mag ≤ sbi)

pub sub_bucket_index-IsSubBucketOf :
    (u m v bi : ℕ) → IsBucketOf u m v bi → IsSubBucketOf u m v bi (sub_bucket_index v bi u)
unfolding sub_bucket_index
sub_bucket_index-IsSubBucketOf u m v bi bucket = rw (word_small) (record {
  is = refl;
  under = (div-lt_iff_lt-mul {k = 2 ^ (bi + u)} {x = v} {y = 2 ^ suc m} (pow2_pos (bi + u))).1 (
      omega (
        arith,
        bucket.top,
        pow2_add (suc m) (bi + u),
        pow2_cong (bi + (u + suc m)) (suc m + (bi + u)) (omega arith),
      ));
  upper_half = elim bucket.first [
    | inl e ↦ inl e
    | inr reached ↦ inr (
        (le-div_iff_mul-le {k = 2 ^ (bi + u)} {x = 2 ^ m} {y = v} (pow2_pos (bi + u))).1 (
          omega (
            arith,
            reached,
            pow2_add m (bi + u),
            pow2_cong (bi + (u + m)) (m + (bi + u)) (omega arith),
          )))
  ];
})
  where
    word_small : (bi + u) % 2 ^ 64 ≡ bi + u
    word_small = omega (arith, bucket.bounded)
