-- ===== src/Hdrhist/Zigzag/RoundTrip.antt =====
-- What the encoder writes, and what the decoder makes of it.
use appoptics_apm_go.Base.{ℕ, ◌+◌, ◌*◌, ◌/◌, ◌%◌, ◌^◌, ◌≤◌, ◌<◌, ◌≡◌, refl, ◌∙◌, inl, inr, arith}
use appoptics_apm_go.Base.{List, [], ◌∷◌, ◌++◌, Option, some, none, length, All}
use appoptics_apm_go.Base.Options.{◌>>=◌}
use appoptics_apm_go.Base.Bits.{bit_and_top, bit_or_top}
use appoptics_apm_go.Hdrhist.Zigzag.{
  IsWord, IsByte, zigzag, unzigzag, encode_rest, encode_zig_zag, decode_rest, decode_zig_zag_unsafe,
  decode_zig_zag, recovered, decoded, incomplete,
}
use appoptics_apm_go.Hdrhist.Zigzag.Words.{unzigzag-zigzag}
use appoptics_apm_go.Hdrhist.Zigzag.Groups.{
  encode_rest-IsByte, length-encode_rest, mask_group, group_cases, decode_rest-encode_rest,
  decode_rest_wide,
}

-- Every int64 is written as 1 to 9 bytes.
pub encode_shape :
    (i : ℕ)
    → All IsByte (encode_zig_zag i)
      × (1 ≤ length (encode_zig_zag i))
      × (length (encode_zig_zag i) ≤ 9)
unfolding encode_zig_zag
encode_shape i =
    ground (arith, encode_rest-IsByte 7 (zigzag i / 2 ^ 7), length-encode_rest 7 (zigzag i / 2 ^ 7))

-- The first byte, which is written and read outside the loop of groups.
encode_first_last : (i : ℕ) → zigzag i < 128 → encode_zig_zag i ≡ zigzag i ∷ []
unfolding encode_zig_zag
encode_first_last i h = ground arith

encode_first_more :
    (i : ℕ)
    → 128 ≤ zigzag i
    → encode_zig_zag i ≡ (zigzag i % 128 + 128) ∷ encode_rest 7 (zigzag i / 128)
unfolding encode_zig_zag
encode_first_more i h =
    ground (arith, mask_group (zigzag i), bit_or_top (zigzag i % 128) (omega arith))

module _ (v : ℕ) (rest : List ℕ) (hv : v < 128) where
  decode_first_last : decode_zig_zag (v ∷ rest) ≡ decoded (unzigzag v) 1
  unfolding decode_zig_zag decode_zig_zag_unsafe
  decode_first_last = ground (arith, mask_group v, bit_and_top v (omega arith))

  decode_first_more :
      (o : Option (ℕ × ℕ))
      → decode_rest 7 1 v ((v + 128) ∷ rest) ≡ o
      → decode_zig_zag ((v + 128) ∷ rest) ≡ recovered (o >>= λ p. some (unzigzag p.0, p.1))
  unfolding decode_zig_zag decode_zig_zag_unsafe
  decode_first_more o e = ground (arith, mask_group (v + 128), bit_and_top (v + 128) (omega arith))

-- For every int64 whose zigzag word fits 56 bits, that is, from -2^55 to 2^55 - 1, the decoder
-- returns the number that was encoded and the count of its bytes, whatever follows them.
pub decode-encode :
    (i : ℕ) (rest : List ℕ)
    → IsWord i
    → zigzag i < 2 ^ 56
    → decode_zig_zag (encode_zig_zag i ++ rest) ≡ decoded i (length (encode_zig_zag i))
decode-encode i rest h small = elim (group_cases (zigzag i)) [
  | inl one ↦
      rw (encode_first_last i one)
        (decode_first_last (zigzag i) rest one ∙ rw (unzigzag-zigzag i h))
  | inr more ↦ rw (encode_first_more i more) (
      decode_first_more (zigzag i % 128) _ (omega arith) _ (
        decode_rest-encode_rest 6 1 (zigzag i / 128) (zigzag i % 128) ((zigzag i % 128 + 128) ∷ [])
          rest (omega arith) refl (omega arith) (omega arith))
      ∙ rw (join, unzigzag-zigzag i h) (ground arith))
]
  where
    join : zigzag i % 128 + zigzag i / 128 * 128 ≡ zigzag i
    join = omega arith

-- For every other int64 the decoder fails on exactly what the encoder wrote.
pub decode-encode_wide :
    (i : ℕ) → IsWord i → 2 ^ 56 ≤ zigzag i → decode_zig_zag (encode_zig_zag i) ≡ incomplete
decode-encode_wide i h wide = rw (encode_first_more i (omega arith)) (
    decode_first_more (zigzag i % 128) _ (omega arith) none (
      decode_rest_wide 7 1 (zigzag i / 128) (zigzag i % 128) ((zigzag i % 128 + 128) ∷ [])
        (omega arith) refl refl (omega arith)))
