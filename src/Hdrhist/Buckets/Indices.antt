-- ===== src/Hdrhist/Buckets/Indices.antt =====
-- Counters by index: `countsIndex` and `valueFor`.
use native.Mathlib.Nat.{mul-le-mul_right, mod-eq_of_lt, div-eq_of_lt}
use package.appoptics_apm_go.Base.{
  ℕ, suc, ◌+◌, ◌-◌, ◌*◌, ◌/◌, ◌%◌, ◌^◌, ◌≤◌, ◌<◌, ◌≡◌, refl, ap, ◌∙◌, arith, inl, inr, bit_and, ◌↔◌,
  length, ◌==◌, false,
}
use package.appoptics_apm_go.Base.Bits.{bit_and_mask}
use package.appoptics_apm_go.Base.Powers.{
  pow2_pos, pow2_mono, pow2_add, pow2_suc, lt-pow2, pow2_reflects, le_or_lt, two_digits,
}
use package.appoptics_apm_go.Hdrhist.Buckets.{
  Buckets, IsShaped, sub_bucket_index, counts_index, value_for, lowest_equiv,
}
use package.appoptics_apm_go.Base.Words.{word, is_negative-nonneg}
use package.appoptics_apm_go.Hdrhist.Buckets.Equivalents.{place_of, bucket, sub_bucket}

-- The values of the counters, by bucket and sub-bucket.
module _ (b : Buckets) (shaped : IsShaped b) where
  low_bits :
      (i : ℕ) → bit_and i ((b.sub_half_count + 2 ^ 64 - 1) % 2 ^ 64) ≡ i % 2 ^ b.sub_half_count_mag
  low_bits i = ap (bit_and i) mask ∙ bit_and_mask b.sub_half_count_mag i
    where
      mask : (b.sub_half_count + 2 ^ 64 - 1) % 2 ^ 64 ≡ 2 ^ b.sub_half_count_mag - 1
      mask = omega (
        arith,
        shaped.half,
        pow2_pos b.sub_half_count_mag,
        pow2_mono b.sub_half_count_mag 63 (omega (arith, shaped.fits)),
      )

  pub half_small : 2 ^ b.sub_half_count_mag ≤ 2 ^ 61
  half_small = omega (arith, pow2_mono b.sub_half_count_mag 61 (omega (arith, shaped.fits)))

  pub value_for_bottom :
      (r : ℕ) → r < 2 ^ b.sub_half_count_mag → value_for b r ≡ word (r * 2 ^ b.unit_mag)
  unfolding value_for
  value_for_bottom r h =
      rw (low_bits r, digits.0, digits.1, is_negative-nonneg r (omega (arith, h, half_small))) refl
    where
      digits : (r / 2 ^ b.sub_half_count_mag ≡ 0) × (r % 2 ^ b.sub_half_count_mag ≡ r)
      digits = (div-eq_of_lt h, mod-eq_of_lt h)

  pub value_for_bucket :
      (bi r : ℕ)
      → r < 2 ^ b.sub_half_count_mag
      → suc bi * 2 ^ b.sub_half_count_mag + r < 2 ^ 63
      → value_for b (suc bi * 2 ^ b.sub_half_count_mag + r)
        ≡ word ((r + 2 ^ b.sub_half_count_mag) * 2 ^ (bi + b.unit_mag))
  unfolding value_for
  value_for_bucket bi r h small =
      rw
        (
          low_bits (suc bi * 2 ^ b.sub_half_count_mag + r),
          digits.0,
          digits.1,
          is_negative-nonneg (suc bi * 2 ^ b.sub_half_count_mag + r) small,
          shaped.half,
          some_bucket,
          one_less,
        )
        refl
    where
      digits :
          ((suc bi * 2 ^ b.sub_half_count_mag + r) / 2 ^ b.sub_half_count_mag ≡ suc bi)
          × ((suc bi * 2 ^ b.sub_half_count_mag + r) % 2 ^ b.sub_half_count_mag ≡ r)
      digits = two_digits b.sub_half_count_mag (suc bi) r h

      some_bucket : (suc bi == 0) ≡ false
      some_bucket = ground arith

      one_less : suc bi - 1 ≡ bi
      one_less = omega arith

module _ (b : Buckets) (v : ℕ) (shaped : IsShaped b) (small : v < 2 ^ 63) where
  abbrev pub sub_of : ℕ
  sub_of = sub_bucket_index v (place_of b v) b.unit_mag

  pub base-le : (place_of b v + 1) * 2 ^ b.sub_half_count_mag ≤ 2 ^ 62
  base-le = omega (
    arith,
    mul-le-mul_right (2 ^ b.sub_half_count_mag) (lt-pow2 (place_of b v)),
    pow2_add (place_of b v) b.sub_half_count_mag,
    pow2_mono (place_of b v + b.sub_half_count_mag) 62
        (omega (arith, (bucket b v shaped small).bounded)),
  )

  pub counts_index_lem : counts_index b v ≡ place_of b v * 2 ^ b.sub_half_count_mag + sub_of
  unfolding counts_index
  counts_index_lem = rw (short) (
      omega (
        arith,
        shaped.half,
        base-le,
        (sub_bucket b v shaped small).under,
        pow2_mono (suc b.sub_half_count_mag) 62 (omega (arith, shaped.fits)),
      ))
    where
      short : (place_of b v + 1) % 2 ^ 64 ≡ place_of b v + 1
      short = omega (arith, (bucket b v shaped small).bounded)

  short : (place_of b v + b.unit_mag) % 2 ^ 64 ≡ place_of b v + b.unit_mag
  short = omega (arith, (bucket b v shaped small).bounded)

  -- In the upper half of a bucket, the index counts from the next bucket's first.
  from_upper :
      (r : ℕ)
      → sub_of ≡ r + 2 ^ b.sub_half_count_mag
      → value_for b (counts_index b v) ≡ lowest_equiv b v
  unfolding lowest_equiv
  from_upper r e =
      ap (value_for b) index
      ∙ value_for_bucket b shaped (place_of b v) r room
          (omega (arith, room, base-le, half_small b shaped))
      ∙ rw (short, e) refl
    where
      room : r < 2 ^ b.sub_half_count_mag
      room = omega (arith, e, (sub_bucket b v shaped small).under, pow2_suc b.sub_half_count_mag)

      index : counts_index b v ≡ suc (place_of b v) * 2 ^ b.sub_half_count_mag + r
      index = omega (arith, counts_index_lem, e)

  from_lower :
      sub_of < 2 ^ b.sub_half_count_mag
      → place_of b v ≡ 0
      → value_for b (counts_index b v) ≡ lowest_equiv b v
  unfolding lowest_equiv
  from_lower room e =
      ap (value_for b) index
      ∙ value_for_bottom b shaped sub_of room
      ∙ rw (short) (ap (λ (n : ℕ). word (sub_of * 2 ^ n)) (omega (arith, e)))
    where
      index : counts_index b v ≡ sub_of
      index = omega (arith, counts_index_lem, ap (λ (n : ℕ). n * 2 ^ b.sub_half_count_mag) e)

  pub value_for_index : value_for b (counts_index b v) ≡ lowest_equiv b v
  value_for_index = elim (le_or_lt (2 ^ b.sub_half_count_mag) sub_of) [
    | inl upper ↦ from_upper (sub_of - 2 ^ b.sub_half_count_mag) (omega arith)
    | inr lower ↦ from_lower lower (elim ((sub_bucket b v shaped small).upper_half) [
      | inl bottom ↦ bottom
      | inr upper ↦ absurd (omega arith)
    ])
  ]

  -- The first `n` buckets past the bottom one reach up to `2 ^ (unitMag + subHalfCountMag + n)`.
  index-lt :
      (n : ℕ)
      → 1 ≤ n
      → v < 2 ^ (n + (b.unit_mag + b.sub_half_count_mag))
      → counts_index b v < (n + 1) * 2 ^ b.sub_half_count_mag
  index-lt n some_bucket low = omega (
    arith,
    counts_index_lem,
    (sub_bucket b v shaped small).under,
    pow2_suc b.sub_half_count_mag,
    mul-le-mul_right (2 ^ b.sub_half_count_mag) below,
  )
    where
      below : suc (place_of b v) ≤ n
      below = elim ((bucket b v shaped small).first) [
        | inl bottom ↦ omega arith
        | inr reached ↦ omega (
          arith,
          pow2_reflects (place_of b v + (b.unit_mag + b.sub_half_count_mag))
              (n + (b.unit_mag + b.sub_half_count_mag)) (omega arith),
        )
      ]

  pub index-ge :
      (n : ℕ)
      → 1 ≤ n
      → 2 ^ (n + (b.unit_mag + b.sub_half_count_mag)) ≤ v
      → (n + 1) * 2 ^ b.sub_half_count_mag ≤ counts_index b v
  index-ge n some_bucket high =
      omega (arith, counts_index_lem, upper, mul-le-mul_right (2 ^ b.sub_half_count_mag) above)
    where
      above : n ≤ place_of b v
      above = omega (
        arith,
        pow2_reflects (n + (b.unit_mag + b.sub_half_count_mag))
            (place_of b v + (b.unit_mag + suc b.sub_half_count_mag))
            (omega (arith, (bucket b v shaped small).top)),
      )

      upper : 2 ^ b.sub_half_count_mag ≤ sub_of
      upper = elim ((sub_bucket b v shaped small).upper_half) [
        | inl bottom ↦ absurd (omega (arith, above))
        | inr reached ↦ reached
      ]

-- The counter that a value is recorded in stands for the value's `lowestEquiv`, and with
-- `bucketCount` of at least 1 it exists exactly for a value under
-- `2 ^ (bucketCount + unitMag + subHalfCountMag)`.
pub value_for-counts_index :
    (b : Buckets) (v : ℕ)
    → IsShaped b
    → v < 2 ^ 63
    → 1 ≤ b.bucket_count
    → (value_for b (counts_index b v) ≡ lowest_equiv b v)
      × ((counts_index b v < length b.counts)
          ↔ (v < 2 ^ (b.bucket_count + (b.unit_mag + b.sub_half_count_mag))))
value_for-counts_index b v shaped small some_bucket = (
  value_for_index b v shaped small,
  (
    λ in_range. elim (le_or_lt (2 ^ (b.bucket_count + (b.unit_mag + b.sub_half_count_mag))) v) [
      | inl high ↦
          absurd
            (omega (arith, index-ge b v shaped small b.bucket_count some_bucket high, shaped.sized))
      | inr low ↦ low
    ],
    λ low. omega (arith, index-lt b v shaped small b.bucket_count some_bucket low, shaped.sized),
  ),
)
