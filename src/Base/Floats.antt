-- ===== src/Base/Floats.antt =====
-- What the code uses of `float64`: the operations as an interface, with the laws of IEEE 754
-- arithmetic that hold for values that are not negative and not NaN, infinities included: 1 is
-- subtracted, and no infinity.
use package.appoptics_apm_go.Base.{ℕ, ◌<◌, ◌≡◌, Bool, true, false}

pub record IsFloat {F : Type 0} (zero one : F) (le lt : F → F → Bool) (add sub min : F → F → F)
    (times_seconds : F → ℕ → F) : Type 0 where
  pub zero_le_zero : le zero zero ≡ true
  pub le_refl : (a : F) → le zero a ≡ true → le a a ≡ true
  pub le_trans : (a b c : F) → le a b ≡ true → le b c ≡ true → le a c ≡ true
  pub le_of_not-lt :
      (a b : F) → le zero a ≡ true → le zero b ≡ true → lt a b ≡ false → le b a ≡ true
  pub min-le : (a b : F) → le zero a ≡ true → le zero b ≡ true → le (min a b) a ≡ true
  pub min-nonneg : (a b : F) → le zero a ≡ true → le zero b ≡ true → le zero (min a b) ≡ true
  pub add-nonneg : (a b : F) → le zero a ≡ true → le zero b ≡ true → le zero (add a b) ≡ true
  pub sub_one-nonneg : (a : F) → le one a ≡ true → le zero (sub a one) ≡ true
  pub sub_one-le : (a : F) → le one a ≡ true → le (sub a one) a ≡ true
  pub tokens-nonneg :
      (a : F) (d : ℕ) → le zero a ≡ true → 0 < d → le zero (times_seconds a d) ≡ true

-- `times_seconds r d` is `r * d.Seconds()` for a duration of `d` nanoseconds, and `of_bits`
-- is `math.Float64frombits`.
pub record Float64 (F : Type 0) : Type 0 where
  pub zero : F
  pub one : F
  pub le : F → F → Bool
  pub lt : F → F → Bool
  pub add : F → F → F
  pub sub : F → F → F
  pub min : F → F → F
  pub times_seconds : F → ℕ → F
  pub of_bits : ℕ → F
  pub one_nonneg : le zero one ≡ true
  pub lawful : IsFloat zero one le lt add sub min times_seconds
  pub open lawful use *
