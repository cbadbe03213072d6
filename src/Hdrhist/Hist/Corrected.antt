-- ===== src/Hdrhist/Hist/Corrected.antt =====
-- `RecordCorrected` ends, and records the values that were missed.
use native.Mathlib.Nat.{div-add-mod, mod-lt, mul_comm, div-eq_of_lt, le-div_iff_mul-le}
use package.appoptics_apm_go.Base.{
  ℕ, zero, suc, ◌+◌, ◌-◌, ◌*◌, ◌/◌, ◌^◌, ◌≤◌, ◌<◌, ◌≡◌, refl, ap, ◌∙◌, arith, inl, inr, List, [],
  ◌∷◌, true,
}
use package.appoptics_apm_go.Base.Words.{word_sub, int64_lt, ge→int64_lt, lt→int64_lt}
use package.appoptics_apm_go.Base.Powers.{le_or_lt}
use package.appoptics_apm_go.Hdrhist.Hist.{
  Hist, Result, returned, failed, record_n, record_missing, record_corrected, ◌>>=◌,
}

-- `count` values from `v` down, an interval apart.
abbrev pub downward : ℕ → ℕ → ℕ → List ℕ
downward zero v interval = []
downward (suc count) v interval = v ∷ downward count (v - interval) interval

abbrev pub record_all : Hist → List ℕ → Result Hist
record_all h [] = returned h
record_all h (v ∷ vs) = do h ← record_n h v 1; record_all h vs

>>=-cong {ℓ κ} :
    {A : Type ℓ} {B : Type κ} (m : Result A) (f g : A → Result B)
    → ((a : A) → f a ≡ g a)
    → (m >>= f) ≡ (m >>= g)
>>=-cong (returned a) f g e = e a
>>=-cong (failed x) f g e = refl

record_missing_lem :
    (fuel n : ℕ) (h : Hist) (w interval : ℕ)
    → n < fuel
    → w < 2 ^ 63
    → interval < 2 ^ 63
    → n * interval ≤ w
    → w < n * interval + interval
    → record_missing fuel h w interval ≡ record_all h (downward n w interval)
unfolding record_missing
record_missing_lem zero n h w interval enough small small' above below = absurd (omega arith)
record_missing_lem (suc fuel) zero h w interval enough small small' above below =
    rw (record_missing, lt→int64_lt w interval small' (omega arith)) refl
record_missing_lem (suc fuel) (suc n) h w interval enough small small' above below =
    rw (record_missing, ge→int64_lt w interval small (omega arith))
      (>>=-cong (record_n h w 1) _ _ λ (h : Hist).
        ap (λ (missing : ℕ). record_missing fuel h missing interval) next
        ∙ record_missing_lem fuel n h (w - interval) interval (omega arith) (omega arith) small'
            (omega arith) (omega arith))
  where
    next : word_sub w interval ≡ w - interval
    next = omega arith

ends :
    (fuel : ℕ) (h : Hist) (w interval : ℕ)
    → 0 < fuel
    → int64_lt w interval ≡ true
    → record_missing fuel h w interval ≡ returned h
unfolding record_missing
ends zero h w interval some_fuel last = absurd (omega arith)
ends (suc fuel) h w interval some_fuel last = rw (record_missing, last) refl

scaled : (q e : ℕ) → 1 ≤ q → (q - 1) * e + e ≡ q * e
scaled zero e h = absurd (omega arith)
scaled (suc q) e h = grind arith

-- For a positive interval and a value of `int64` that is not negative, `v / interval + 1`
-- rounds of the loop are enough, and with them `RecordCorrected` records the value and then, an interval
-- apart downward, the `v / interval - 1` values that are no less than the interval.
pub record_corrected_lem :
    (fuel : ℕ) (h : Hist) (v interval : ℕ)
    → v < 2 ^ 63
    → 1 ≤ interval
    → interval < 2 ^ 63
    → v / interval < fuel
    → record_corrected fuel h v interval
      ≡ record_all h (v ∷ downward (v / interval - 1) (v - interval) interval)
unfolding record_corrected
record_corrected_lem fuel h v interval small positive small' enough =
    >>=-cong (record_n h v 1) _ _ λ (h : Hist). elim (le_or_lt interval v) [
      | inl long ↦
          ap (λ (missing : ℕ). record_missing fuel h missing interval) (next long)
          ∙ record_missing_lem fuel (v / interval - 1) h (v - interval) interval (omega arith)
              (omega arith) small'
              (omega (
                arith,
                scaled (v / interval) interval (some_quotient long),
                div-add-mod v interval,
                mul_comm interval (v / interval),
              ))
              (omega (
                arith,
                scaled (v / interval) interval (some_quotient long),
                div-add-mod v interval,
                mod-lt v positive,
                mul_comm interval (v / interval),
              ))
      | inr short ↦
          ends fuel h (word_sub v interval) interval (omega arith) (ground arith)
          ∙ rw (div-eq_of_lt short) refl
    ]
  where
    next : interval ≤ v → word_sub v interval ≡ v - interval
    next long = omega arith

    some_quotient : interval ≤ v → 1 ≤ v / interval
    some_quotient long = (le-div_iff_mul-le {k = interval} {x = 1} {y = v} positive).1 (omega arith)
