-- ===== src/Hdrhist/Zigzag/Runs.antt =====
-- Concrete runs of the codec, and its theorems at concrete inputs.
use appoptics_apm_go.Base.{ℕ, ◌-◌, ◌^◌, ◌≡◌, refl, arith, [], ◌∷◌, ◌++◌, length}
use appoptics_apm_go.Hdrhist.Zigzag.{
  zigzag, unzigzag, encode_rest, encode_zig_zag, decode_rest, decode_zig_zag_unsafe, decode_zig_zag,
  decoded, incomplete,
}
use appoptics_apm_go.Hdrhist.Zigzag.RoundTrip.{decode-encode, decode-encode_wide}

-- -3, as an int64.
abbrev minus_three : ℕ
minus_three = 2 ^ 64 - 3

encode_minus_three : encode_zig_zag minus_three ≡ 5 ∷ []
unfolding encode_zig_zag zigzag
encode_minus_three = refl

encode_300 : encode_zig_zag 300 ≡ 0xd8 ∷ 4 ∷ []
unfolding encode_zig_zag encode_rest zigzag
encode_300 = refl

decode_300 : decode_zig_zag (0xd8 ∷ 4 ∷ []) ≡ decoded 300 2
unfolding decode_zig_zag decode_zig_zag_unsafe decode_rest unzigzag
decode_300 = refl

-- The tenth byte takes the place of the ninth: 2^55 comes back as 0.
decode_tenth_byte : decode_zig_zag (encode_zig_zag (2 ^ 55) ++ (0 ∷ [])) ≡ decoded 0 9
unfolding decode_zig_zag decode_zig_zag_unsafe decode_rest unzigzag encode_zig_zag encode_rest
    zigzag
decode_tenth_byte = refl

decode-encode_example :
    decode_zig_zag (encode_zig_zag 300 ++ (7 ∷ [])) ≡ decoded 300 (length (encode_zig_zag 300))
unfolding zigzag
decode-encode_example = decode-encode 300 (7 ∷ []) (omega arith) (omega arith)

decode-encode_wide_example : decode_zig_zag (encode_zig_zag (2 ^ 55)) ≡ incomplete
unfolding zigzag
decode-encode_wide_example = decode-encode_wide (2 ^ 55) (omega arith) (omega arith)
