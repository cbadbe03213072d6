-- ===== src/Reporter/Sampling/Flags/Names.antt =====
-- Which flags a list of names sets.
use Prim.Native.Nat.{max}
use mathlib.Core.Path.{subst}
use appoptics_apm_go.Base.{
  ℕ, ◌≡◌, refl, ap, sym, ◌∙◌, Bool, true, false, List, [], ◌∷◌, bit_or, arith, Bool-cases, inl, inr,
  zero, suc, Option, none, some, ◌/◌,
}
use appoptics_apm_go.Base.Text.{Text, codes, text_eq, text_eq_iff}
use appoptics_apm_go.Base.Bits.{bit_or-zero}
use appoptics_apm_go.Base.Split.{split, named}
use appoptics_apm_go.Base.Digits.{digit, digit-bit_or, digit-zero}
use appoptics_apm_go.Reporter.Sampling.Flags.{add_flag, add_flags, flag_string_to_bin}

abbrev pub one_if : Bool → ℕ
one_if true = 1
one_if false = 0

-- The names of the digits that a settings reply can set; no name for the others.
abbrev pub flag_name : ℕ → Option Text
flag_name zero = none
flag_name (suc zero) = some (codes "OVERRIDE")
flag_name (suc (suc zero)) = some (codes "SAMPLE_START")
flag_name (suc (suc (suc zero))) = some (codes "SAMPLE_THROUGH")
flag_name (suc (suc (suc (suc zero)))) = some (codes "SAMPLE_THROUGH_ALWAYS")
flag_name (suc (suc (suc (suc (suc zero))))) = some (codes "TRIGGER_TRACE")
flag_name (suc (suc (suc (suc (suc (suc k)))))) = none

abbrev pub calls : Text → Option Text → Bool
calls s none = false
calls s (some name) = text_eq s name

abbrev pub listed : List Text → Option Text → Bool
listed fields none = false
listed fields (some name) = named name fields

-- A word of six bits that has the digits of a given field.
abbrev HasDigits : ℕ → Text → Type 0
HasDigits mask s =
    (digit 0 mask ≡ one_if (calls s (flag_name 0)))
    × (digit 1 mask ≡ one_if (calls s (flag_name 1)))
    × (digit 2 mask ≡ one_if (calls s (flag_name 2)))
    × (digit 3 mask ≡ one_if (calls s (flag_name 3)))
    × (digit 4 mask ≡ one_if (calls s (flag_name 4)))
    × (digit 5 mask ≡ one_if (calls s (flag_name 5)))
    × (mask / 2 / 2 / 2 / 2 / 2 / 2 ≡ 0)

every_digit :
    (mask : ℕ) (s : Text)
    → HasDigits mask s
    → (k : ℕ) → digit k mask ≡ one_if (calls s (flag_name k))
every_digit mask s h zero = h.0
every_digit mask s h (suc zero) = h.1
every_digit mask s h (suc (suc zero)) = h.2
every_digit mask s h (suc (suc (suc zero))) = h.3
every_digit mask s h (suc (suc (suc (suc zero)))) = h.4
every_digit mask s h (suc (suc (suc (suc (suc zero))))) = h.5
every_digit mask s h (suc (suc (suc (suc (suc (suc k)))))) = ap (digit k) h.6 ∙ digit-zero k

-- What one name adds.
module _ (flags : ℕ) where
  IsAdded : Text → Type 0
  IsAdded s =
      (k : ℕ) → digit k (add_flag flags s) ≡ max (digit k flags) (one_if (calls s (flag_name k)))

  add_mask :
      (mask : ℕ) (s : Text) → HasDigits mask s → add_flag flags s ≡ bit_or flags mask → IsAdded s
  unfolding IsAdded
  add_mask mask s h e k =
      omega (arith, ap (digit k) e, digit-bit_or k flags mask, every_digit mask s h k)

  add_name :
      (mask : ℕ) (name s : Text)
      → s ≡ name
      → HasDigits mask name
      → add_flag flags name ≡ bit_or flags mask
      → IsAdded s
  add_name mask name s e h step = subst IsAdded (sym e) (add_mask mask name h step)

  add_flag-IsAdded : (s : Text) → IsAdded s
  unfolding add_flag
  add_flag-IsAdded s = elim (Bool-cases (text_eq s (codes "OVERRIDE"))) [
    | inl e ↦
        add_name 2 (codes "OVERRIDE") s ((text_eq_iff s _).0 e)
          (refl, refl, refl, refl, refl, refl, refl) refl
    | inr d1 ↦ elim (Bool-cases (text_eq s (codes "SAMPLE_START"))) [
      | inl e ↦
          add_name 4 (codes "SAMPLE_START") s ((text_eq_iff s _).0 e)
            (refl, refl, refl, refl, refl, refl, refl) refl
      | inr d2 ↦ elim (Bool-cases (text_eq s (codes "SAMPLE_THROUGH"))) [
        | inl e ↦
            add_name 8 (codes "SAMPLE_THROUGH") s ((text_eq_iff s _).0 e)
              (refl, refl, refl, refl, refl, refl, refl) refl
        | inr d3 ↦ elim (Bool-cases (text_eq s (codes "SAMPLE_THROUGH_ALWAYS"))) [
          | inl e ↦
              add_name 16 (codes "SAMPLE_THROUGH_ALWAYS") s ((text_eq_iff s _).0 e)
                (refl, refl, refl, refl, refl, refl, refl) refl
          | inr d4 ↦ elim (Bool-cases (text_eq s (codes "TRIGGER_TRACE"))) [
            | inl e ↦
                add_name 32 (codes "TRIGGER_TRACE") s ((text_eq_iff s _).0 e)
                  (refl, refl, refl, refl, refl, refl, refl) refl
            | inr d5 ↦
                add_mask 0 s
                  (
                    refl,
                    ap one_if (sym d1),
                    ap one_if (sym d2),
                    ap one_if (sym d3),
                    ap one_if (sym d4),
                    ap one_if (sym d5),
                    refl,
                  )
                  (ground (arith, bit_or-zero flags))
          ]
        ]
      ]
    ]
  ]

listed_none : (name : Option Text) → listed [] name ≡ false
listed_none none = refl
listed_none (some name) = refl

listed_more :
    (s : Text) (fields : List Text) (name : Option Text)
    → one_if (listed (s ∷ fields) name) ≡ max (one_if (calls s name)) (one_if (listed fields name))
listed_more s fields none = refl
listed_more s fields (some name) = ground arith

digit-add_flags :
    (k flags : ℕ) (fields : List Text)
    → digit k (add_flags flags fields) ≡ max (digit k flags) (one_if (listed fields (flag_name k)))
unfolding add_flags IsAdded
digit-add_flags k flags [] = omega (arith, ap one_if (listed_none (flag_name k)))
digit-add_flags k flags (s ∷ fields) = omega (
  arith,
  digit-add_flags k (add_flag flags s) fields,
  add_flag-IsAdded flags s k,
  listed_more s fields (flag_name k),
)

-- `flagStringToBin` sets exactly the flags that the comma-separated list names.
pub flag_string_to_bin_lem :
    (flag_string : Text) (k : ℕ)
    → digit k (flag_string_to_bin flag_string)
      ≡ one_if (listed (split 44 flag_string) (flag_name k))
unfolding flag_string_to_bin add_flags add_flag
flag_string_to_bin_lem [] k = omega (arith, digit-add_flags k 0 ([] ∷ []), digit-zero k)
flag_string_to_bin_lem (c ∷ s) k =
    omega (arith, digit-add_flags k 0 (split 44 (c ∷ s)), digit-zero k)
