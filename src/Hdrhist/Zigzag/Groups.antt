-- ===== src/Hdrhist/Zigzag/Groups.antt =====
-- The groups of seven bits behind the first: what the encoder writes, and what the decoder makes
-- of it.
use native.Mathlib.Nat.{pow-le-pow_right, pow-suc, one-le-pow, div-add-mod}
use native.Mathlib.Numerals.{towards_suc}
use mathlib.Core.List.{append_assoc}
use appoptics_apm_go.Base.{ℕ, zero, suc, ◌+◌, ◌*◌, ◌/◌, ◌%◌, ◌^◌, ◌≤◌, ◌<◌, ◌≡◌, refl}
use appoptics_apm_go.Base.{ap, ◌∙◌, ◌⊎◌, inl, inr, arith, List, [], ◌∷◌, ◌++◌, some, none}
use appoptics_apm_go.Base.{length, length-append, get_elem?, All}
use appoptics_apm_go.Base.{bit_and, bit_or}
use appoptics_apm_go.Base.Bits.{bit_and_mask, bit_and_top, bit_or_low, bit_or_continue}
use appoptics_apm_go.Hdrhist.Zigzag.{IsByte, byte, encode_rest, decode_rest}

pub encode_rest-IsByte : (k w : ℕ) → All IsByte (encode_rest k w)
unfolding encode_rest
encode_rest-IsByte zero w = omega arith
encode_rest-IsByte (suc k) w = ground (arith, encode_rest-IsByte k (w / 2 ^ 7))

pub length-encode_rest :
    (k w : ℕ) → (1 ≤ length (encode_rest k w)) × (length (encode_rest k w) ≤ k + 1)
unfolding encode_rest
length-encode_rest zero w = omega arith
length-encode_rest (suc k) w = ground (arith, length-encode_rest k (w / 2 ^ 7))

pub get_elem?-middle {ℓ} :
    {A : Type ℓ} (pre : List A) (x : A) (post : List A) (n : ℕ)
    → length pre ≡ n
    → get_elem? (pre ++ (x ∷ post)) n ≡ some x
get_elem?-middle [] x post zero h = refl
get_elem?-middle [] x post (suc n) h = absurd (omega arith)
get_elem?-middle (y ∷ pre) x post zero h = absurd (omega arith)
get_elem?-middle (y ∷ pre) x post (suc n) h = get_elem?-middle pre x post n (omega arith)

-- One more group makes the value 128 times as wide.
shift_step : (n : ℕ) → 2 ^ (7 * (n + 1)) ≡ 128 * 2 ^ (7 * n)
shift_step n =
    let e : 7 * (n + 1) ≡ 7 * n + 7 = omega arith in rw e (simp towards_suc (omega arith))

shifted-lt : (n : ℕ) → n ≤ 8 → 2 ^ (7 * (n + 1)) ≤ 2 ^ 63
shifted-lt n h = pow-le-pow_right {n = 2} (omega arith) {i = 7 * (n + 1)} {j = 63} (omega arith)

-- The word that a group joins stays below 2^64.
group_width :
    (n g value : ℕ) → g < 128 → value < 2 ^ (7 * n) → value + g * 2 ^ (7 * n) < 2 ^ (7 * (n + 1))
group_width n g value hg hv = rw (shift_step n) (grind arith)

group_joins :
    (n g value : ℕ)
    → n ≤ 8
    → g < 128
    → value < 2 ^ (7 * n)
    → bit_or value (g * 2 ^ (7 * n) % 2 ^ 64) ≡ value + g * 2 ^ (7 * n)
group_joins n g value hn hg hv =
    ground (arith, bit_or_low (7 * n) g value, group_width n g value hg hv, shifted-lt n hn)

pub mask_group : (v : ℕ) → bit_and v 0x7f ≡ v % 128
mask_group v = bit_and_mask 7 v

-- One branch of the decoder on a last byte, and on a byte with the top bit set over a group.
module _ (k n v value : ℕ) (b : List ℕ) (hn : n ≤ 8) (hv : v < 128) (hw : value < 2 ^ (7 * n)) where
  decode_last :
      get_elem? b n ≡ some v → decode_rest (suc k) n value b ≡ some (value + v * 2 ^ (7 * n), n + 1)
  unfolding decode_rest
  decode_last e =
      ground (arith, mask_group v, bit_and_top v (omega arith), group_joins n v value hn hv hw)

  decode_more :
      get_elem? b n ≡ some (v + 128)
      → decode_rest (suc k) n value b ≡ decode_rest k (n + 1) (value + v * 2 ^ (7 * n)) b
  unfolding decode_rest
  decode_more e = ground (
    arith,
    mask_group (v + 128),
    bit_and_top (v + 128) (omega arith),
    group_joins n v value hn hv hw,
  )

-- The lowest group of `w` and the rest, both shifted.
split_group : (w n : ℕ) → w * 2 ^ (7 * n) ≡ w % 128 * 2 ^ (7 * n) + w / 128 * 2 ^ (7 * (n + 1))
split_group w n = omega (
  arith,
  ap (λ (t : ℕ). t * 2 ^ (7 * n)) (div-add-mod w 128),
  ap (λ (t : ℕ). w / 128 * t) (shift_step n),
)

encode_last : (k w : ℕ) → w < 128 → encode_rest (suc k) w ≡ w ∷ []
unfolding encode_rest
encode_last k w h = ground arith

encode_more :
    (k w : ℕ) → 128 ≤ w → encode_rest (suc k) w ≡ (w % 128 + 128) ∷ encode_rest k (w / 128)
unfolding encode_rest
encode_more k w h = ground (arith, bit_or_continue w)

pub group_cases : (w : ℕ) → (w < 128) ⊎ (128 ≤ w)
group_cases w = ground arith

-- Up to eight bytes the decoder reads back what the encoder wrote, whatever follows.
pub decode_rest-encode_rest :
    (k n w value : ℕ) (pre rest : List ℕ)
    → w < 128 ^ suc k
    → length pre ≡ n
    → n + k ≤ 7
    → value < 2 ^ (7 * n)
    → decode_rest (suc k) n value (pre ++ (encode_rest (suc k) w ++ rest))
      ≡ some (value + w * 2 ^ (7 * n), n + length (encode_rest (suc k) w))
decode_rest-encode_rest zero n w value pre rest hw hp hn hv =
    rw (encode_last 0 w hw)
      (decode_last 0 n w value _ (omega arith) hw hv (get_elem?-middle pre w rest n hp))
decode_rest-encode_rest (suc k) n w value pre rest hw hp hn hv = elim (group_cases w) [
  | inl small ↦
      rw (encode_last (suc k) w small)
        (decode_last (suc k) n w value _ (omega arith) small hv (get_elem?-middle pre w rest n hp))
  | inr large ↦ rw (encode_more (suc k) w large) (
      decode_more (suc k) n (w % 128) value _ (omega arith) (omega arith) hv
        (get_elem?-middle pre (w % 128 + 128) _ n hp)
      ∙ rw (← append_assoc pre ((w % 128 + 128) ∷ []) (encode_rest (suc k) (w / 128) ++ rest)) (
          decode_rest-encode_rest k (n + 1) (w / 128) (value + w % 128 * 2 ^ (7 * n))
            (pre ++ ((w % 128 + 128) ∷ [])) rest (omega (arith, pow-suc 128 (suc k)))
            (omega (arith, length-append pre ((w % 128 + 128) ∷ []))) (omega arith)
            (group_width n (w % 128) value (omega arith) hv)
          ∙ ground (arith, split_group w n)))
]

get_elem?-beyond {ℓ} : {A : Type ℓ} (xs : List A) (n : ℕ) → length xs ≤ n → get_elem? xs n ≡ none
get_elem?-beyond [] n h = refl
get_elem?-beyond (x ∷ xs) zero h = absurd (omega arith)
get_elem?-beyond (x ∷ xs) (suc n) h = get_elem?-beyond xs n (omega arith)

wide_group : (k w : ℕ) → 128 ^ suc k ≤ w → 128 ≤ w
wide_group k w h = omega (arith, pow-suc 128 k, one-le-pow k 128)

-- On a word of 2^56 or more all eight branches are passed, and `b[9]` lies behind the nine bytes.
pub decode_rest_wide :
    (k n w value : ℕ) (pre : List ℕ)
    → 128 ^ k ≤ w
    → length pre ≡ n
    → n + k ≡ 8
    → value < 2 ^ (7 * n)
    → decode_rest k n value (pre ++ encode_rest k w) ≡ none
unfolding decode_rest encode_rest
decode_rest_wide zero n w value pre hw hp hn hv =
    rw (get_elem?-beyond (pre ++ (byte w ∷ [])) 9 (omega (arith, length-append pre (byte w ∷ []))))
decode_rest_wide (suc k) n w value pre hw hp hn hv = rw (encode_more k w (wide_group k w hw)) (
    decode_more k n (w % 128) value _ (omega arith) (omega arith) hv
      (get_elem?-middle pre (w % 128 + 128) _ n hp)
    ∙ rw (← append_assoc pre ((w % 128 + 128) ∷ []) (encode_rest k (w / 128))) (
        decode_rest_wide k (n + 1) (w / 128) (value + w % 128 * 2 ^ (7 * n))
          (pre ++ ((w % 128 + 128) ∷ [])) (omega (arith, pow-suc 128 k))
          (omega (arith, length-append pre ((w % 128 + 128) ∷ []))) (omega arith)
          (group_width n (w % 128) value (omega arith) hv)))
