-- ===== src/Hdrhist/Buckets/Cover.antt =====
-- The loop of `numBucketsToCoverVal` ends within its fuel, at the least cover.
use package.appoptics_apm_go.Base.{
  ℕ, zero, suc, ◌+◌, ◌-◌, ◌*◌, ◌%◌, ◌^◌, ◌≤◌, ◌<◌, ◌≡◌, refl, ap, ◌∙◌, arith, ◌⊎◌, inl, inr, Option,
  some, Bool-cases, true, false,
}
use package.appoptics_apm_go.Base.Words.{word, int64_lt, int64_lt→lt, int64_lt→ge}
use package.appoptics_apm_go.Base.Powers.{pow2_mono, pow2_reflects, pow2_suc, pow2_cong}
use package.appoptics_apm_go.Hdrhist.Buckets.{cover_from, num_buckets_to_cover_val}

-- What the loop returns from the variable `2 ^ j` and the count `req`.
pub record IsCover (j v req : ℕ) (result : Option ℕ) : Type 0 where
  pub more : ℕ
  pub is : result ≡ some (req + more)
  pub covers : v ≤ 2 ^ (j + more)
  pub least : (more ≡ 0) ⊎ (2 ^ (j + (more - 1)) < v)
  pub bounded : j + more ≤ 63

further :
    (j v req : ℕ) (result : Option ℕ)
    → 2 ^ j < v
    → IsCover (suc j) v (req + 1) result
    → IsCover j v req result
further j v req result uncovered rest = record {
  more = suc rest.more;
  is = rest.is ∙ ap some (omega arith);
  covers =
      omega (arith, rest.covers, pow2_cong (suc j + rest.more) (j + suc rest.more) (omega arith));
  least = inr (elim rest.least [
    | inl none ↦ omega (arith, uncovered, pow2_cong (j + (suc rest.more - 1)) j (omega arith))
    | inr last ↦ elim (zero_or_suc rest.more) [
      | inl none ↦ omega (arith, uncovered, pow2_cong (j + (suc rest.more - 1)) j (omega arith))
      | inr some_more ↦
          omega (
            arith,
            last,
            pow2_cong (j + (suc rest.more - 1)) (suc j + (rest.more - 1)) (omega arith),
          )
    ]
  ]);
  bounded = omega (arith, rest.bounded);
}
  where
    zero_or_suc : (n : ℕ) → (n ≡ 0) ⊎ (1 ≤ n)
    zero_or_suc zero = inl refl
    zero_or_suc (suc n) = inr (omega arith)

cover_from-IsCover :
    (fuel j v req : ℕ)
    → 62 < fuel + j
    → j ≤ 62
    → v < 2 ^ 63
    → IsCover j v req (cover_from fuel (2 ^ j) v req)
unfolding cover_from
cover_from-IsCover zero j v req enough fits small = absurd (omega arith)
cover_from-IsCover (suc fuel) j v req enough fits small = elim (Bool-cases (int64_lt (2 ^ j) v)) [
  | inl uncovered ↦ elim (Bool-cases (int64_lt (2 ^ 62 - 1) (2 ^ j))) [
    | inl last ↦
        rw (uncovered, last)
          (further j v req (some (req + 1)) (above uncovered) (record {
            more = 0;
            is = ap some (omega arith);
            covers = omega (
              arith,
              int64_lt→lt (2 ^ 62 - 1) (2 ^ j) (omega arith) power-lt last,
              pow2_suc j,
              pow2_cong (suc j + 0) (suc j) (omega arith),
            );
            least = inl refl;
            bounded = omega arith;
          }))
    | inr going ↦
        rw (uncovered, going)
          (further j v req _ (above uncovered) (
            rw (doubled going)
              (cover_from-IsCover fuel (suc j) v (req + 1) (omega arith) (smaller going) small)))
  ]
  | inr covered ↦ rw covered (record {
    more = 0;
    is = ap some (omega arith);
    covers =
        omega
          (arith, int64_lt→ge (2 ^ j) v power-lt small covered, pow2_cong (j + 0) j (omega arith));
    least = inl refl;
    bounded = omega arith;
  })
]
  where
    power-lt : 2 ^ j < 2 ^ 63
    power-lt = omega (arith, pow2_mono j 62 fits)

    above : int64_lt (2 ^ j) v ≡ true → 2 ^ j < v
    above h = int64_lt→lt (2 ^ j) v power-lt small h

    not_last : int64_lt (2 ^ 62 - 1) (2 ^ j) ≡ false → 2 ^ j ≤ 2 ^ 62 - 1
    not_last h = int64_lt→ge (2 ^ 62 - 1) (2 ^ j) (omega arith) power-lt h

    doubled : int64_lt (2 ^ 62 - 1) (2 ^ j) ≡ false → 2 ^ j * 2 % 2 ^ 64 ≡ 2 ^ suc j
    doubled h = omega (arith, not_last h, pow2_suc j)

    smaller : int64_lt (2 ^ 62 - 1) (2 ^ j) ≡ false → suc j ≤ 62
    smaller h = omega (arith, pow2_reflects j 62 (omega (arith, not_last h)))

-- With the first bucket under `2 ^ 62`, the loop ends within 63 rounds for every `int64`, and its
-- count `n` is the least, from 1, whose buckets reach the value: `2 ^ (first + (n - 1))` does.
pub num_buckets_to_cover_val_lem :
    (fuel v sub_count unit_mag first : ℕ)
    → 62 < fuel
    → v < 2 ^ 63
    → first ≤ 62
    → sub_count * 2 ^ unit_mag ≡ 2 ^ first
    → (n : ℕ) × (num_buckets_to_cover_val fuel v sub_count unit_mag ≡ some (suc n))
      × (v ≤ 2 ^ (first + n))
      × ((n ≡ 0) ⊎ (2 ^ (first + (n - 1)) < v))
      × (first + n ≤ 63)
unfolding num_buckets_to_cover_val
num_buckets_to_cover_val_lem fuel v sub_count unit_mag first enough small fits start = (
  covered.more,
  ap (λ (s : ℕ). cover_from fuel s v 1) start_word ∙ covered.is ∙ ap some (omega arith),
  covered.covers,
  covered.least,
  covered.bounded,
)
  where
    covered : IsCover first v 1 (cover_from fuel (2 ^ first) v 1)
    covered = cover_from-IsCover fuel first v 1 (omega arith) fits small

    start_word : word (sub_count * 2 ^ unit_mag) ≡ 2 ^ first
    start_word = omega (arith, start, pow2_mono first 62 fits)
