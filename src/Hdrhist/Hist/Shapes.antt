-- ===== src/Hdrhist/Hist/Shapes.antt =====
-- The set-up of a histogram and its resizing lay out buckets that the indices fit.
use native.Mathlib.Nat.{mul-le-mul_right}
use package.appoptics_apm_go.Base.{
  ℕ, zero, suc, ◌+◌, ◌-◌, ◌*◌, ◌/◌, ◌^◌, ◌≤◌, ◌<◌, ◌≡◌, refl, sym, ap, ◌∙◌, arith, List, [], ◌∷◌,
  ◌++◌, length, length-replicate, length-append, length-take, length-drop, replicate, take, drop,
}
use package.appoptics_apm_go.Base.Slices.{copy}
use package.appoptics_apm_go.Base.Words.{word}
use package.appoptics_apm_go.Base.Powers.{pow2_mono, pow2_suc, pow2_cong}
use package.appoptics_apm_go.Hdrhist.Buckets.{IsShaped}
use package.appoptics_apm_go.Hdrhist.Buckets.Located.{mask_between}
use package.appoptics_apm_go.Hdrhist.Hist.{Hist, shaped_buckets, resized}

abbrev pub total : List ℕ → ℕ
total [] = 0
total (c ∷ cs) = c + total cs

-- What every operation keeps: the shape, at most 18 binary digits of precision, a range within
-- `int64`, and the total of the counters.
pub record IsSound (h : Hist) : Type 0 where
  pub shaped : IsShaped h.b
  pub fine : h.b.sub_half_count_mag ≤ 17
  pub some_bucket : 1 ≤ h.b.bucket_count
  pub in_int64 : h.b.bucket_count + (h.b.unit_mag + h.b.sub_half_count_mag) ≤ 63
  pub totalled : h.total_count ≡ word (total h.b.counts)

pub shaped_buckets-IsShaped : (u m n : ℕ) → u + suc m ≤ 62 → IsShaped (shaped_buckets u m n)
unfolding shaped_buckets
shaped_buckets-IsShaped u m n fits = record {
  half = half;
  count = count;
  mask = omega (arith, count, mask_small, ap (λ (k : ℕ). (k - 1) * 2 ^ u) count);
  base = omega arith;
  fits = fits;
  sized = length-replicate ((n + 1) * (2 ^ (m + 1) / 2)) 0 ∙ ap (λ (k : ℕ). (n + 1) * k) half;
}
  where
    count : 2 ^ (m + 1) ≡ 2 ^ suc m
    count = pow2_cong (m + 1) (suc m) (omega arith)

    mask_small : (2 ^ suc m - 1) * 2 ^ u < 2 ^ 62
    mask_small = omega (arith, (mask_between u m).1, pow2_mono (u + suc m) 62 fits)

    half : 2 ^ (m + 1) / 2 ≡ 2 ^ m
    half = omega (arith, count, pow2_suc m)

copy-length : (xs ys : List ℕ) → length (copy xs ys) ≡ length xs
copy-length xs ys = omega (
  arith,
  length-append (take (length xs) ys) (drop (length ys) xs),
  length-take (length xs) ys,
  length-drop (length ys) xs,
)

pub resized-IsShaped : (h : Hist) (n : ℕ) → IsShaped h.b → IsShaped (resized h n).b
unfolding resized
resized-IsShaped h n shaped = record {
  half = shaped.half;
  count = shaped.count;
  mask = shaped.mask;
  base = shaped.base;
  fits = shaped.fits;
  sized =
      copy-length (replicate ((n + 1) * (h.b.sub_count / 2)) 0) h.b.counts
      ∙ length-replicate ((n + 1) * (h.b.sub_count / 2)) 0
      ∙ ap (λ (k : ℕ). (n + 1) * k) (omega (arith, shaped.count, pow2_suc h.b.sub_half_count_mag));
}

total-append : (xs ys : List ℕ) → total (xs ++ ys) ≡ total xs + total ys
total-append [] ys = omega arith
total-append (x ∷ xs) ys = omega (arith, total-append xs ys)

total-take : (n : ℕ) (xs : List ℕ) → length xs ≤ n → total (take n xs) ≡ total xs
total-take zero [] h = refl
total-take zero (x ∷ xs) h = absurd (omega arith)
total-take (suc n) [] h = refl
total-take (suc n) (x ∷ xs) h = omega (arith, total-take n xs (omega arith))

total-drop_zeros : (k n : ℕ) → total (drop k (replicate n 0)) ≡ 0
total-drop_zeros zero zero = refl
total-drop_zeros zero (suc n) = omega (arith, total-drop_zeros zero n)
total-drop_zeros (suc k) zero = refl
total-drop_zeros (suc k) (suc n) = total-drop_zeros k n

-- Resizing to at least as many buckets loses no count.
total-resized :
    (h : Hist) (n : ℕ)
    → IsShaped h.b
    → h.b.bucket_count ≤ n
    → total (resized h n).b.counts ≡ total h.b.counts
unfolding resized
total-resized h n shaped more =
    total-append (take (length zeros) h.b.counts) (drop (length h.b.counts) zeros)
    ∙ omega (
      arith,
      total-take (length zeros) h.b.counts fits,
      total-drop_zeros (length h.b.counts) ((n + 1) * (h.b.sub_count / 2)),
    )
  where
    zeros : List ℕ
    zeros = replicate ((n + 1) * (h.b.sub_count / 2)) 0

    half : h.b.sub_count / 2 ≡ 2 ^ h.b.sub_half_count_mag
    half = omega (arith, shaped.count, pow2_suc h.b.sub_half_count_mag)

    fits : length h.b.counts ≤ length zeros
    fits = omega (
      arith,
      length-replicate {A = ℕ} ((n + 1) * (h.b.sub_count / 2)) 0,
      ap (λ (k : ℕ). (n + 1) * k) half,
      shaped.sized,
      mul-le-mul_right (2 ^ h.b.sub_half_count_mag) more,
    )

pub resized-IsSound :
    (h : Hist) (n : ℕ)
    → IsSound h
    → h.b.bucket_count ≤ n
    → n + (h.b.unit_mag + h.b.sub_half_count_mag) ≤ 63
    → IsSound (resized h n)
unfolding resized
resized-IsSound h n sound more within = record {
  shaped = resized-IsShaped h n sound.shaped;
  fine = sound.fine;
  some_bucket = omega (arith, sound.some_bucket);
  in_int64 = within;
  totalled = sound.totalled ∙ ap (λ (t : ℕ). word t) (sym (total-resized h n sound.shaped more));
}

pub total-zeros : (n : ℕ) → total (replicate n 0) ≡ 0
total-zeros zero = refl
total-zeros (suc n) = omega (arith, total-zeros n)
