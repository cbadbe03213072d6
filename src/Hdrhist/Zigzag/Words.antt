-- ===== src/Hdrhist/Zigzag/Words.antt =====
-- The map between an int64 and its zigzag word.
use appoptics_apm_go.Base.{ℕ, ◌-◌, ◌*◌, ◌/◌, ◌%◌, ◌^◌, ◌≤◌, ◌<◌, ◌≡◌, ◌⊎◌, arith}
use appoptics_apm_go.Base.{inl, inr}
use appoptics_apm_go.Base.Bits.{bit_xor-zero, bit_xor-ones, bit_and-one}
use appoptics_apm_go.Hdrhist.Zigzag.{IsWord, zigzag, unzigzag}

-- A number from 0 up has twice its value, and a negative one, `i - 2^64`, the odd number
-- `2 * (2^64 - i) - 1`.
pub zigzag_low : (i : ℕ) → i < 2 ^ 63 → zigzag i ≡ i * 2
unfolding zigzag
zigzag_low i h = ground (arith, bit_xor-zero (i * 2 % 2 ^ 64))

pub zigzag_high : (i : ℕ) → 2 ^ 63 ≤ i → IsWord i → zigzag i ≡ 2 ^ 65 - 1 - i * 2
unfolding zigzag
zigzag_high i h w = ground (arith, bit_xor-ones 64 (i * 2 % 2 ^ 64))

sign_cases : (i : ℕ) → (i < 2 ^ 63) ⊎ (2 ^ 63 ≤ i)
sign_cases i = ground arith

pub zigzag-IsWord : (i : ℕ) → IsWord i → IsWord (zigzag i)
zigzag-IsWord i h = elim (sign_cases i) [
  | inl low ↦ omega (arith, zigzag_low i low)
  | inr high ↦ omega (arith, zigzag_high i high h)
]

pub unzigzag_even : (u : ℕ) → IsWord u → u % 2 ≡ 0 → unzigzag u ≡ u / 2
unfolding unzigzag
unzigzag_even u h e = ground (arith, bit_and-one u, bit_xor-zero (u / 2))

pub unzigzag_odd : (u : ℕ) → IsWord u → u % 2 ≡ 1 → unzigzag u ≡ 2 ^ 64 - 1 - u / 2
unfolding unzigzag
unzigzag_odd u h e = ground (arith, bit_and-one u, bit_xor-ones 64 (u / 2))

-- The last line of the decoder undoes the first of the encoder on every int64.
pub unzigzag-zigzag : (i : ℕ) → IsWord i → unzigzag (zigzag i) ≡ i
unzigzag-zigzag i h = elim (sign_cases i) [
  | inl low ↦
      rw (zigzag_low i low) (omega (arith, unzigzag_even (i * 2) (omega arith) (omega arith)))
  | inr high ↦
      rw (zigzag_high i high h)
        (omega (arith, unzigzag_odd (2 ^ 65 - 1 - i * 2) (omega arith) (omega arith)))
]
