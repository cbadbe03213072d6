-- ===== src/Hdrhist/Buckets/LeadingZeros.antt =====
-- The binary search of `leadingZeros` finds the highest bit.
use native.Mathlib.Nat.{div-div-eq-div-mul, div-lt_iff_lt-mul, le-div_iff_mul-le}
use package.appoptics_apm_go.Base.{
  ℕ, zero, suc, ◌+◌, ◌-◌, ◌*◌, ◌/◌, ◌^◌, ◌≤◌, ◌<◌, ◌≡◌, refl, ap, ◌∙◌, arith, ◌==◌, if_both, sym,
  ==_iff,
}
use package.appoptics_apm_go.Base.Powers.{pow2_pos, pow2_add, pow2_suc}
use package.appoptics_apm_go.Hdrhist.Buckets.{narrow, leading_zeros}

-- `x` is the word without its lowest `shift` bits, and is below `2 ^ width`.
record IsLeft (original width : ℕ) (s : ℕ × ℕ) : Type 0 where
  shift : ℕ
  total : s.0 + shift ≡ 64
  room : width ≤ s.0
  left : original / 2 ^ shift ≡ s.1
  below : s.1 < 2 ^ width
  kept : s.1 ≡ 0 → original ≡ 0

div-eq-zero : (x k : ℕ) → x / 2 ^ k ≡ 0 → x < 2 ^ k
div-eq-zero x k h = ground (arith, div-lt_iff_lt-mul {k = 2 ^ k} {x = x} {y = 1} (pow2_pos k))

div-below : (x k : ℕ) → x < 2 ^ (k + k) → x / 2 ^ k < 2 ^ k
div-below x k h =
    (div-lt_iff_lt-mul {k = 2 ^ k} {x = x} {y = 2 ^ k} (pow2_pos k)).1 (omega (arith, pow2_add k k))

narrow-IsLeft :
    (original width : ℕ) (s : ℕ × ℕ)
    → IsLeft original (width + width) s
    → IsLeft original width (narrow width s)
unfolding narrow
narrow-IsLeft original width (n, x) known =
    if_both (IsLeft original width) (x / 2 ^ width == 0)
      (λ none_above. record {
        shift = known.shift;
        total = known.total;
        room = omega (arith, known.room);
        left = known.left;
        below = div-eq-zero x width ((==_iff (x / 2 ^ width) 0).0 none_above);
        kept = known.kept;
      })
      (λ some_above. record {
        shift = known.shift + width;
        total = omega (arith, known.total, known.room);
        room = omega (arith, known.room);
        left = rw (pow2_add known.shift width) (
            sym (div-div-eq-div-mul original (2 ^ known.shift) (2 ^ width))
            ∙ ap (λ (t : ℕ). t / 2 ^ width) known.left);
        below = div-below x width known.below;
        kept = λ h. ground (arith, h, some_above);
      })

last-IsLeft :
    (x : ℕ)
    → x < 2 ^ 64
    → IsLeft x 1 (narrow 1 (narrow 2 (narrow 4 (narrow 8 (narrow 16 (narrow 32 (64, x)))))))
last-IsLeft x h = narrow-IsLeft x 1 _ (
    narrow-IsLeft x 2 _ (
      narrow-IsLeft x 4 _
        (narrow-IsLeft x 8 _ (narrow-IsLeft x 16 _ (narrow-IsLeft x 32 (64, x) start)))))
  where
    start : IsLeft x 64 (64, x)
    start = record {
      shift = 0;
      total = refl;
      room = omega arith;
      left = omega arith;
      below = h;
      kept = λ e. e;
    }

-- `x` has its highest bit at place `63 - leading_zeros x`.
pub record IsTopBit (x lz : ℕ) : Type 0 where
  pub few : lz < 64
  pub low : 2 ^ (63 - lz) ≤ x
  pub high : x < 2 ^ (64 - lz)

from_last : (x : ℕ) (s : ℕ × ℕ) → 0 < x → IsLeft x 1 s → IsTopBit x (s.0 - s.1)
from_last x (n, zero) some_bit last = absurd (omega (arith, last.kept refl))
from_last x (n, suc (suc y)) some_bit last = absurd (omega (arith, last.below))
from_last x (n, suc zero) some_bit last = record {
  few = omega (arith, last.total, last.room);
  low = rw exponent (omega (arith, one_above.0));
  high = rw exponent_suc (omega (arith, one_above.1, pow2_suc last.shift));
}
  where
    one_above : (1 * 2 ^ last.shift ≤ x) × (x < 2 * 2 ^ last.shift)
    one_above = (
      (le-div_iff_mul-le {k = 2 ^ last.shift} {x = 1} {y = x} (pow2_pos last.shift)).0
          (omega (arith, last.left)),
      (div-lt_iff_lt-mul {k = 2 ^ last.shift} {x = x} {y = 2} (pow2_pos last.shift)).0
          (omega (arith, last.left)),
    )

    exponent : 63 - (n - 1) ≡ last.shift
    exponent = omega (arith, last.total, last.room)

    exponent_suc : 64 - (n - 1) ≡ suc last.shift
    exponent_suc = omega (arith, last.total, last.room)

pub leading_zeros-IsTopBit : (x : ℕ) → 0 < x → x < 2 ^ 64 → IsTopBit x (leading_zeros x)
unfolding leading_zeros
leading_zeros-IsTopBit x some_bit h = from_last x _ some_bit (last-IsLeft x h)
