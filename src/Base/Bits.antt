-- ===== src/Base/Bits.antt =====
-- Go's `|`, `&` and `^` on words as arithmetic: disjoint fields, low masks, and the word of ones.
use mathlib.Core.Path.{◌≡◌, refl, ap, ◌∙◌}
use Prim.Native.Nat.{ℕ, zero, suc, ◌+◌, ◌-◌, ◌*◌, ◌/◌, ◌%◌, ◌^◌, ◌≤◌, ◌<◌, min, max}
use package.appoptics_apm_go.Base.Tests.{◌==◌}
use mathlib.Core.Bool.{Bool, true, ◌&&◌}
use Prim.Native.Nat.{bit_and, bit_or, bit_xor, digits, differ, bitwise}
use Prim.Native.Nat.{bit_and-bitwise, bit_or-bitwise, bit_xor-bitwise}
use native.Mathlib.Nat.{
  pow-suc, one-le-pow, div-add-mod, mod-lt, mul-add-mod_self_left, mod-eq_of_lt,
}
use native.Mathlib.Omega.{arith}

-- What an operation computes digit by digit does not depend on spare rounds.
module _ (rest : ℕ → ℕ) (digit : ℕ → ℕ → ℕ) where
  round : ℕ → ℕ → ℕ → ℕ
  round = digits rest digit

  round_idle : (k a b : ℕ) → a ≤ k → round (suc k) a b ≡ round k a b
  unfolding round
  round_idle zero zero b _ = refl
  round_idle (suc k) zero b _ = refl
  round_idle zero (suc a) b few = absurd (omega arith)
  round_idle (suc k) (suc a) b few = omega (arith, round_idle k (suc a / 2) (b / 2) (omega arith))

  round_spare : (extra k a b : ℕ) → k ≡ extra + a → round k a b ≡ round a a b
  round_spare zero k a b e = ap (λ (n : ℕ). round n a b) (omega arith)
  round_spare (suc extra) zero a b e = absurd (omega arith)
  round_spare (suc extra) (suc k) a b e =
      round_idle k a b (omega arith) ∙ round_spare extra k a b (omega arith)

  -- An operation of this shape peels off its lowest digit.
  module _ (op : ℕ → ℕ → ℕ) (shape : (a b : ℕ) → op a b ≡ bitwise rest digit a b)
      (start : (b : ℕ) → rest b ≡ rest (b / 2) * 2 + digit 0 (b % 2)) where
    peel : (a b : ℕ) → op a b ≡ op (a / 2) (b / 2) * 2 + digit (a % 2) (b % 2)
    unfolding round
    peel zero b = omega (arith, shape 0 b, shape 0 (b / 2), start b)
    peel (suc a) b = omega (
      arith,
      shape (suc a) b,
      shape (suc a / 2) (b / 2),
      round_spare (a - suc a / 2) a (suc a / 2) (b / 2) (omega arith),
    )

differ-zero-left : (d : ℕ) → differ 0 d ≡ d
differ-zero-left zero = refl
differ-zero-left (suc d) = refl

pub bit_and_step : (a b : ℕ) → bit_and a b ≡ bit_and (a / 2) (b / 2) * 2 + min (a % 2) (b % 2)
bit_and_step = peel (λ b. zero) min bit_and bit_and-bitwise (λ b. omega arith)

pub bit_or_step : (a b : ℕ) → bit_or a b ≡ bit_or (a / 2) (b / 2) * 2 + max (a % 2) (b % 2)
bit_or_step = peel (λ b. b) max bit_or bit_or-bitwise (λ b. omega arith)

pub bit_xor_step : (a b : ℕ) → bit_xor a b ≡ bit_xor (a / 2) (b / 2) * 2 + differ (a % 2) (b % 2)
bit_xor_step =
    peel (λ b. b) differ bit_xor bit_xor-bitwise (λ b. omega (arith, differ-zero-left (b % 2)))

pub zero-bit_xor : (b : ℕ) → bit_xor 0 b ≡ b
zero-bit_xor = bit_xor-bitwise 0

-- What commutes with halving against 0 is settled on the whole number.
module _ (op goal : ℕ → ℕ) (op_half : (a : ℕ) → op a ≡ op (a / 2) * 2 + goal (a % 2))
    (goal_half : (a : ℕ) → goal a ≡ goal (a / 2) * 2 + goal (a % 2)) (op_none : op 0 ≡ goal 0) where
  by_halves_below : (bound a : ℕ) → a ≤ bound → op a ≡ goal a
  by_halves_below bound zero _ = op_none
  by_halves_below zero (suc a) under = absurd (omega arith)
  by_halves_below (suc bound) (suc a) under =
      omega
        (arith, op_half (suc a), goal_half (suc a), by_halves_below bound (suc a / 2) (omega arith))

  by_halves : (a : ℕ) → op a ≡ goal a
  by_halves a = by_halves_below a a (omega arith)

bit_and-zero : (a : ℕ) → bit_and a 0 ≡ 0
bit_and-zero =
    by_halves (λ a. bit_and a 0) (λ a. 0) (λ a. omega (arith, bit_and_step a 0)) (λ a. refl) refl

pub bit_or-zero : (a : ℕ) → bit_or a 0 ≡ a
bit_or-zero =
    by_halves (λ a. bit_or a 0) (λ a. a) (λ a. omega (arith, bit_or_step a 0)) (λ a. omega arith)
      refl

differ-zero : (d : ℕ) → differ d 0 ≡ d
differ-zero zero = refl
differ-zero (suc d) = refl

pub bit_xor-zero : (a : ℕ) → bit_xor a 0 ≡ a
bit_xor-zero =
    by_halves (λ a. bit_xor a 0) (λ a. a)
      (λ a. omega (arith, bit_xor_step a 0, differ-zero (a % 2))) (λ a. omega arith) refl

-- Both `low | (high << k)` and `(high << k) | low` add when `low` fits `k` bits.
module _ (high : ℕ) where
  shifted : (k : ℕ) → high * 2 ^ suc k ≡ high * 2 ^ k * 2
  shifted k = omega (arith, ap (λ (w : ℕ). high * w) (pow-suc 2 k))

  disjoint :
      (k low : ℕ)
      → low < 2 ^ k
      → (bit_or low (high * 2 ^ k) ≡ low + high * 2 ^ k)
        × (bit_or (high * 2 ^ k) low ≡ low + high * 2 ^ k)
  disjoint zero low fits = (ground (arith, bit_or-bitwise 0 high), ground (arith, bit_or-zero high))
  disjoint (suc k) low fits =
      let ih = disjoint k (low / 2) (omega (arith, pow-suc 2 k)) in
      (
        ground (arith, bit_or_step low (high * 2 ^ suc k), shifted k, pow-suc 2 k, ih.0),
        ground (arith, bit_or_step (high * 2 ^ suc k) low, shifted k, pow-suc 2 k, ih.1),
      )

pub bit_or_low : (k q r : ℕ) → r < 2 ^ k → bit_or r (q * 2 ^ k) ≡ r + q * 2 ^ k
bit_or_low k q r fits = (disjoint q k r fits).0

pub bit_or_high : (k q r : ℕ) → r < 2 ^ k → bit_or (q * 2 ^ k) r ≡ q * 2 ^ k + r
bit_or_high k q r fits = omega (arith, (disjoint q k r fits).1)

-- The remainder of a doubled number keeps the digit under it.
mod-double :
    (w half digit : ℕ) → 0 < w → digit < 2 → (half * 2 + digit) % (w * 2) ≡ half % w * 2 + digit
mod-double w half digit some_width bit =
    ap (λ (t : ℕ). t % (w * 2)) whole
    ∙ mul-add-mod_self_left (w * 2) (half / w) (half % w * 2 + digit)
    ∙ mod-eq_of_lt (omega (arith, mod-lt half some_width))
  where
    whole : half * 2 + digit ≡ w * 2 * (half / w) + (half % w * 2 + digit)
    whole = ground (arith, div-add-mod half w)

-- A remainder by a power of two, by the lowest bit.
mod-pow-suc : (k a : ℕ) → a % 2 ^ suc k ≡ a / 2 % 2 ^ k * 2 + a % 2
mod-pow-suc k a = omega (
  arith,
  mod-double (2 ^ k) (a / 2) (a % 2) (omega (arith, one-le-pow k 2)) (omega arith),
  ap (λ (t : ℕ). t % 2 ^ suc k) (halves a),
  ap (λ (w : ℕ). (a / 2 * 2 + a % 2) % w) (pow-suc 2 k),
)
  where
    halves : (a : ℕ) → a ≡ a / 2 * 2 + a % 2
    halves a = omega arith

-- The word of `k + 1` ones, by its lowest bit.
ones_suc : (k : ℕ) → 2 ^ suc k - 1 ≡ (2 ^ k - 1) * 2 + 1
ones_suc k = omega (arith, pow-suc 2 k, one-le-pow k 2)

-- `a & (2^k - 1)` is the remainder by `2^k`.
pub bit_and_mask : (k a : ℕ) → bit_and a (2 ^ k - 1) ≡ a % 2 ^ k
bit_and_mask zero a = omega (arith, bit_and-zero a)
bit_and_mask (suc k) a =
    ground
      (arith, bit_and_step a (2 ^ suc k - 1), ones_suc k, mod-pow-suc k a, bit_and_mask k (a / 2))

differ-one : (b : ℕ) → b < 2 → differ b 1 ≡ 1 - b
differ-one zero h = refl
differ-one (suc zero) h = refl
differ-one (suc (suc b)) h = absurd (omega arith)

-- `a ^ (2^k - 1)` turns every one of the `k` bits.
pub bit_xor-ones : (k a : ℕ) → a < 2 ^ k → bit_xor a (2 ^ k - 1) ≡ 2 ^ k - 1 - a
bit_xor-ones zero a h = omega (arith, bit_xor-zero a)
bit_xor-ones (suc k) a h = ground (
  arith,
  bit_xor_step a (2 ^ suc k - 1),
  ones_suc k,
  pow-suc 2 k,
  differ-one (a % 2),
  bit_xor-ones k (a / 2) (omega (arith, pow-suc 2 k)),
)

-- Over a small range, every value by evaluation.
agree_below : ℕ → (ℕ → ℕ) → (ℕ → ℕ) → Bool
agree_below zero f g = true
agree_below (suc n) f g = f n == g n && agree_below n f g

agree_below→eq : (n : ℕ) (f g : ℕ → ℕ) → agree_below n f g ≡ true → (i : ℕ) → i < n → f i ≡ g i
unfolding agree_below
agree_below→eq zero f g e i h = absurd (omega arith)
agree_below→eq (suc n) f g e i h = ground (arith, agree_below→eq n f g (ground arith) i)

-- The top bit of a byte, and setting it.
pub bit_and_top : (b : ℕ) → b < 256 → bit_and b 0x80 ≡ b / 128 * 128
unfolding agree_below
bit_and_top = agree_below→eq 256 _ _ refl

pub bit_or_top : (b : ℕ) → b < 128 → bit_or b 0x80 ≡ b + 128
unfolding agree_below
bit_or_top = agree_below→eq 128 _ _ refl

bit_or_even : (w m : ℕ) → bit_or w (m * 2) ≡ bit_or (w / 2) m * 2 + w % 2
bit_or_even w m = ground (arith, bit_or_step w (m * 2))

pub bit_or-one : (w : ℕ) → bit_or w 1 ≡ w / 2 * 2 + 1
bit_or-one w = omega (arith, bit_or_step w 1, bit_or-zero (w / 2))

-- `w | 0x80` at any width sets one bit.
pub bit_or_continue : (w : ℕ) → bit_or w 0x80 % 256 ≡ w % 128 + 128
bit_or_continue w = omega (
  arith,
  bit_or_even w 64,
  bit_or_even (w / 2) 32,
  bit_or_even (w / 2 / 2) 16,
  bit_or_even (w / 2 / 2 / 2) 8,
  bit_or_even (w / 2 / 2 / 2 / 2) 4,
  bit_or_even (w / 2 / 2 / 2 / 2 / 2) 2,
  bit_or_even (w / 2 / 2 / 2 / 2 / 2 / 2) 1,
  bit_or-one (w / 2 / 2 / 2 / 2 / 2 / 2 / 2),
)

pub bit_and_even : (a m : ℕ) → bit_and a (m * 2) ≡ bit_and (a / 2) m * 2
bit_and_even a m = ground (arith, bit_and_step a (m * 2))

-- A mask of ones that is one bit wide.
pub bit_and-one : (a : ℕ) → bit_and a 1 ≡ a % 2
bit_and-one a = bit_and_mask 1 a

-- `a & 8` keeps one bit.
pub bit_and_eight : (a : ℕ) → bit_and a 8 ≡ a / 8 % 2 * 8
bit_and_eight a = omega (
  arith,
  bit_and_even a 4,
  bit_and_even (a / 2) 2,
  bit_and_even (a / 2 / 2) 1,
  bit_and-one (a / 2 / 2 / 2),
)

-- `a ^ 1` turns the lowest bit.
pub bit_xor-one : (a : ℕ) → bit_xor a 1 ≡ a / 2 * 2 + (1 - a % 2)
bit_xor-one a =
    omega (arith, bit_xor_step a 1, bit_xor-zero (a / 2), differ-one (a % 2) (omega arith))
