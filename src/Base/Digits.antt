-- ===== src/Base/Digits.antt =====
-- The binary digits of a word, and what `&` and `|` do to each.
use Prim.Native.Nat.{min, max}
use native.Mathlib.Nat.{pow-suc, mul_assoc}
use package.appoptics_apm_go.Base.{
  ℕ, zero, suc, ◌*◌, ◌/◌, ◌%◌, ◌^◌, ◌≤◌, ◌<◌, ◌≡◌, refl, ap, ◌∙◌, arith, bit_and, bit_or,
}
use package.appoptics_apm_go.Base.Bits.{bit_and_step, bit_or_step, bit_and_even, bit_and-one}

abbrev pub digit : ℕ → ℕ → ℕ
digit zero a = a % 2
digit (suc k) a = digit k (a / 2)

pub digit-lt : (k a : ℕ) → digit k a < 2
digit-lt zero a = omega arith
digit-lt (suc k) a = digit-lt k (a / 2)

pub digit-zero : (k : ℕ) → digit k 0 ≡ 0
digit-zero zero = refl
digit-zero (suc k) = digit-zero k

pub digit-bit_and : (k a b : ℕ) → digit k (bit_and a b) ≡ min (digit k a) (digit k b)
digit-bit_and zero a b = omega (arith, bit_and_step a b)
digit-bit_and (suc k) a b =
    ap (digit k) (omega (arith, bit_and_step a b)) ∙ digit-bit_and k (a / 2) (b / 2)

pub digit-bit_or : (k a b : ℕ) → digit k (bit_or a b) ≡ max (digit k a) (digit k b)
digit-bit_or zero a b = omega (arith, bit_or_step a b)
digit-bit_or (suc k) a b =
    ap (digit k) (omega (arith, bit_or_step a b)) ∙ digit-bit_or k (a / 2) (b / 2)

-- A mask of one bit keeps that digit.
pub bit_and_bit : (k a : ℕ) → bit_and a (2 ^ k) ≡ digit k a * 2 ^ k
bit_and_bit zero a = omega (arith, bit_and-one a)
bit_and_bit (suc k) a = rw (pow-suc 2 k) (
    bit_and_even a (2 ^ k)
    ∙ ap (λ (n : ℕ). n * 2) (bit_and_bit k (a / 2))
    ∙ mul_assoc (digit k (a / 2)) (2 ^ k) 2)

-- Every digit of `a` that is set is set in `b`.
pub IsWithin : ℕ → ℕ → Type 0
IsWithin a b = (k : ℕ) → digit k a ≤ digit k b

pub bit_and_left-IsWithin : (a b : ℕ) → IsWithin (bit_and a b) a
unfolding IsWithin
bit_and_left-IsWithin a b k = omega (arith, digit-bit_and k a b)

pub bit_and_right-IsWithin : (a b : ℕ) → IsWithin (bit_and a b) b
unfolding IsWithin
bit_and_right-IsWithin a b k = omega (arith, digit-bit_and k a b)

pub refl-IsWithin : (a : ℕ) → IsWithin a a
unfolding IsWithin
refl-IsWithin a k = omega arith

pub trans-IsWithin : (a b c : ℕ) → IsWithin a b → IsWithin b c → IsWithin a c
unfolding IsWithin
trans-IsWithin a b c p q k = omega (arith, p k, q k)
