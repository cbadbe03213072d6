-- ===== src/Hdrhist/Buckets/Edges.antt =====
-- The indices just behind the last counter.
use native.Mathlib.Nat.{div-eq_of_lt-le, le-div_iff_mul-le, mul-le-mul_right}
use package.appoptics_apm_go.Base.{
  ℕ, suc, ◌+◌, ◌*◌, ◌/◌, ◌^◌, ◌≤◌, ◌<◌, ◌≡◌, ap, ◌∙◌, arith, inl, inr,
}
use package.appoptics_apm_go.Base.Powers.{
  pow2_pos, pow2_mono, pow2_add, pow2_suc, pow2_cong, pow2_reflects, le_or_lt,
}
use package.appoptics_apm_go.Hdrhist.Buckets.{Buckets, IsShaped, counts_index}
use package.appoptics_apm_go.Hdrhist.Buckets.Equivalents.{place_of, bucket, sub_bucket}
use package.appoptics_apm_go.Hdrhist.Buckets.Indices.{sub_of, base-le, half_small, counts_index_lem}

module _ (b : Buckets) (v : ℕ) (shaped : IsShaped b) (small : v < 2 ^ 63) where
  pub counts_index-lt : counts_index b v < 2 ^ 63
  counts_index-lt = omega (
    arith,
    counts_index_lem b v shaped small,
    base-le b v shaped small,
    half_small b shaped,
    pow2_suc b.sub_half_count_mag,
    (sub_bucket b v shaped small).under,
  )

  -- From the `n`th bucket's end on, by what `v` is over it.
  module _ (n : ℕ) (some_bucket : 1 ≤ n)
      (high : 2 ^ (n + (b.unit_mag + b.sub_half_count_mag)) ≤ v) where
    bucket-ge : n ≤ place_of b v
    bucket-ge = omega (
      arith,
      pow2_reflects (n + (b.unit_mag + b.sub_half_count_mag))
          (place_of b v + (b.unit_mag + suc b.sub_half_count_mag))
          (omega (arith, (bucket b v shaped small).top)),
    )

    split_power :
        2 ^ (n + (b.unit_mag + b.sub_half_count_mag))
        ≡ 2 ^ b.sub_half_count_mag * 2 ^ (n + b.unit_mag)
    split_power =
        pow2_cong (n + (b.unit_mag + b.sub_half_count_mag))
          (b.sub_half_count_mag + (n + b.unit_mag)) (omega arith)
        ∙ pow2_add b.sub_half_count_mag (n + b.unit_mag)

    pub index_at :
        v < 2 ^ (n + (b.unit_mag + b.sub_half_count_mag)) + 2 ^ (n + b.unit_mag)
        → counts_index b v ≡ (n + 1) * 2 ^ b.sub_half_count_mag
    index_at low =
        counts_index_lem b v shaped small
        ∙ omega (arith, sub, ap (λ (k : ℕ). k * 2 ^ b.sub_half_count_mag) at)
      where
        at : place_of b v ≡ n
        at = elim ((bucket b v shaped small).first) [
          | inl bottom ↦ omega (arith, bucket-ge)
          | inr reached ↦ omega (
            arith,
            bucket-ge,
            pow2_reflects (place_of b v + (b.unit_mag + b.sub_half_count_mag))
                (suc (n + (b.unit_mag + b.sub_half_count_mag)))
                (omega (
                  arith,
                  reached,
                  pow2_suc (n + (b.unit_mag + b.sub_half_count_mag)),
                  pow2_mono (n + b.unit_mag) (n + (b.unit_mag + b.sub_half_count_mag))
                      (omega arith),
                )),
          )
        ]

        sub : sub_of b v shaped small ≡ 2 ^ b.sub_half_count_mag
        sub =
            (sub_bucket b v shaped small).is
            ∙ ap (λ (k : ℕ). v / 2 ^ (k + b.unit_mag)) at
            ∙ div-eq_of_lt-le (2 ^ (n + b.unit_mag)) (omega (arith, split_power))
                (omega (arith, split_power))

    pub index-gt :
        2 ^ (n + (b.unit_mag + b.sub_half_count_mag)) + 2 ^ (n + b.unit_mag) ≤ v
        → (n + 1) * 2 ^ b.sub_half_count_mag < counts_index b v
    index-gt higher = elim (le_or_lt (suc n) (place_of b v)) [
      | inl later ↦ elim ((sub_bucket b v shaped small).upper_half) [
        | inl bottom ↦ absurd (omega arith)
        | inr upper ↦ omega (
          arith,
          counts_index_lem b v shaped small,
          upper,
          pow2_pos b.sub_half_count_mag,
          mul-le-mul_right (2 ^ b.sub_half_count_mag) later,
        )
      ]
      | inr at ↦ omega (
        arith,
        counts_index_lem b v shaped small,
        mul-le-mul_right (2 ^ b.sub_half_count_mag) bucket-ge,
        (sub_bucket b v shaped small).is,
        quotient at,
        (le-div_iff_mul-le {k = 2 ^ (n + b.unit_mag)} {x = 2 ^ b.sub_half_count_mag + 1} {y = v}
              (pow2_pos (n + b.unit_mag))).1
            (omega (arith, split_power)),
      )
    ]
      where
        quotient :
            place_of b v < suc n → v / 2 ^ (place_of b v + b.unit_mag) ≡ v / 2 ^ (n + b.unit_mag)
        quotient at =
            let e : place_of b v ≡ n = omega (arith, at, bucket-ge) in
            ap (λ (k : ℕ). v / 2 ^ (k + b.unit_mag)) e
