-- ===== src/Base/Powers.antt =====
-- Powers of two, and words cut at one.
use native.Mathlib.Nat.{
  pow-suc, one-le-pow, pow-le-pow_right, div-eq_of_lt-le, mul-add-mod_self_left, mod-eq_of_lt,
  mul_comm,
}
use package.appoptics_apm_go.Base.{
  ℕ, zero, suc, ◌+◌, ◌*◌, ◌/◌, ◌%◌, ◌^◌, ◌≤◌, ◌<◌, ◌≡◌, ap, ◌∙◌, arith, ◌⊎◌, inl, inr, bit_or, ◌≢◌,
  leb, leb→le, Bool-cases,
}
use package.appoptics_apm_go.Base.Bits.{bit_or_step, bit_or-zero}

pub pow2_pos : (k : ℕ) → 1 ≤ 2 ^ k
pow2_pos k = one-le-pow k 2 (omega arith)

pub pow2_mono : (i j : ℕ) → i ≤ j → 2 ^ i ≤ 2 ^ j
pow2_mono i j h = pow-le-pow_right {n = 2} (omega arith) h

-- An exponent is known by its power.
pub pow2_reflects : (i j : ℕ) → 2 ^ i < 2 ^ j → i < j
pow2_reflects i j h = ground (arith, pow2_mono j i)

pub pow2_add : (i j : ℕ) → 2 ^ (i + j) ≡ 2 ^ i * 2 ^ j
pow2_add zero j = ground arith
pow2_add (suc i) j = grind (arith, pow-suc 2 (i + j), pow-suc 2 i, pow2_add i j)

pub pow2_suc : (k : ℕ) → 2 ^ suc k ≡ 2 ^ k * 2
pow2_suc k = pow-suc 2 k

-- `a | b` is at least each, and below each power of two above both.
bit_or-ge_below : (bound a b : ℕ) → a ≤ bound → b ≤ bound → (a ≤ bit_or a b) × (b ≤ bit_or a b)
bit_or-ge_below zero a b ha hb = (omega arith, omega arith)
bit_or-ge_below (suc bound) a b ha hb =
    let ih = bit_or-ge_below bound (a / 2) (b / 2) (omega arith) (omega arith) in
    (omega (arith, bit_or_step a b, ih.0), omega (arith, bit_or_step a b, ih.1))

pub bit_or-ge : (a b : ℕ) → (a ≤ bit_or a b) × (b ≤ bit_or a b)
bit_or-ge a b = bit_or-ge_below (a + b) a b (omega arith) (omega arith)

pub bit_or-lt : (k a b : ℕ) → a < 2 ^ k → b < 2 ^ k → bit_or a b < 2 ^ k
bit_or-lt zero zero zero ha hb = omega (arith, bit_or-zero 0)
bit_or-lt zero zero (suc b) ha hb = absurd (omega arith)
bit_or-lt zero (suc a) b ha hb = absurd (omega arith)
bit_or-lt (suc k) a b ha hb = omega (
  arith,
  bit_or_step a b,
  pow2_suc k,
  bit_or-lt k (a / 2) (b / 2) (omega (arith, pow2_suc k)) (omega (arith, pow2_suc k)),
)

pub pow2_cong : (i j : ℕ) → i ≡ j → 2 ^ i ≡ 2 ^ j
pow2_cong i j e = ap (λ (n : ℕ). 2 ^ n) e

pub le_or_lt : (a b : ℕ) → (a ≤ b) ⊎ (b < a)
le_or_lt a b = elim (Bool-cases (leb a b)) [
  | inl le ↦ inl (leb→le a b le)
  | inr gt ↦ inr (ground arith)
]

pub lt-pow2 : (n : ℕ) → n < 2 ^ n
lt-pow2 zero = omega arith
lt-pow2 (suc n) = omega (arith, lt-pow2 n, pow2_suc n)

-- A number in two digits to the base `2 ^ k`.
pub two_digits :
    (k q r : ℕ) → r < 2 ^ k → ((q * 2 ^ k + r) / 2 ^ k ≡ q) × ((q * 2 ^ k + r) % 2 ^ k ≡ r)
two_digits k q r h = (
  div-eq_of_lt-le (2 ^ k) (omega arith) (grind arith),
  ap (λ (n : ℕ). (n + r) % 2 ^ k) (mul_comm q (2 ^ k))
      ∙ mul-add-mod_self_left (2 ^ k) q r
      ∙ mod-eq_of_lt h,
)

pub lt_of_le_ne : (a b : ℕ) → a ≤ b → a ≢ b → a < b
lt_of_le_ne a b le ne = elim (le_or_lt b a) [ inl ge ↦ absurd (ne (omega arith)) | inr lt ↦ lt ]
