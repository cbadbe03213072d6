-- ===== src/Reporter/Metadata/RoundTrip.antt =====
-- The string form of the metadata, printed and read.
use appoptics_apm_go.Base.{
  ℕ, ◌+◌, ◌<◌, ◌≡◌, arith, List, [], ◌∷◌, Option, none, some, take-append, All, replicate,
  All-append,
}
use mathlib.Core.List.{append-nil}
use mathlib.Core.Path.{subst}
use mathlib.Core.Option.{some-injective}
use appoptics_apm_go.Base.Options.{>>=-eq-some}
use appoptics_apm_go.Base.Hex.{from_hex_char, hex_decode, hex_decode-encode, length-hex_encode}
use appoptics_apm_go.Base.Text.{Text}
use appoptics_apm_go.Reporter.Metadata.{
  OboeMetadata, MdError, unpack, validate, from_string, validated, printed, to_string, string,
  hex_upper,
}
use appoptics_apm_go.Reporter.Metadata.Packed.{
  IsWellFormed, wire, header_reads, length-wire, pack-wire,
}
use appoptics_apm_go.Reporter.Metadata.Unpacked.{unpack-wire, unpack-IsWellFormed}

wire-bytes : {md : OboeMetadata} → IsWellFormed md → All (λ b. b < 256) (wire md)
wire-bytes {md} w =
    let (_, _, _, h) = header_reads w.task_len_is w.op_len_is in
    (
      rw w.version_two h,
      All-append (λ (b : ℕ). b < 256) md.ids.task_id _ w.task_id_bytes
          (All-append (λ (b : ℕ). b < 256) md.ids.op_id _ w.op_id_bytes (w.flags_byte, tt)),
    )

-- The string is the layout in upper-case hexadecimal digits; the buffer of 64 bytes has room.
to_string-wire :
    {md : OboeMetadata} → IsWellFormed md → to_string md ≡ printed (hex_upper (wire md))
unfolding to_string
to_string-wire {md} w =
    rw (pack-wire (replicate 64 0) w (omega (arith, w.task_len_is, w.op_len_is)))
      (rw (take-append (md.task_len + md.op_len + 2) (wire md) _ (length-wire w)))

string-wire : {md : OboeMetadata} → IsWellFormed md → string md ≡ hex_upper (wire md)
unfolding string
string-wire w = rw (to_string-wire w)

-- `FromString` reads back what `String` prints, whatever the metadata held before.
pub from_string-string :
    {md : OboeMetadata} (md0 : OboeMetadata)
    → IsWellFormed md
    → from_string md0 (string md) ≡ (md, none)
unfolding from_string validate
from_string-string {md} md0 w =
    let read : unpack md0 (wire md) ≡ (md, none) = rw append-nil at (unpack-wire md0 [] w) in
    rw (string-wire w, hex_decode-encode (wire md) (wire-bytes w), read, w.not_all_zero)
      (ground (arith, length-hex_encode (wire md), length-wire w, w.task_len_is, w.op_len_is))

from_hex_char-lt : (c : ℕ) {n : ℕ} → from_hex_char c ≡ some n → n < 16
unfolding from_hex_char
from_hex_char-lt c e = ground arith

hex_decode-bytes : (s : Text) {b : List ℕ} → hex_decode s ≡ some b → All (λ b. b < 256) b
unfolding hex_decode
hex_decode-bytes [] e = subst (All (λ b. b < 256)) (some-injective _ _ e) tt
hex_decode-bytes (c ∷ []) e = cc
hex_decode-bytes (c ∷ d ∷ s) e =
    let (hi, he, e1) = >>=-eq-some (from_hex_char c) _ e in
    let (lo, le, e2) = >>=-eq-some (from_hex_char d) _ e1 in
    let (rest, re, e3) = >>=-eq-some (hex_decode s) _ e2 in
    subst (All (λ b. b < 256)) (some-injective _ _ e3)
      (omega (arith, from_hex_char-lt c he, from_hex_char-lt d le), hex_decode-bytes s re)

validated_ok :
    (r : OboeMetadata × Option MdError) (md : OboeMetadata)
    → validated r ≡ (md, none)
    → (r ≡ (md, none)) × (validate md.ids ≡ none)
validated_ok (m, none) md e = ground arith
validated_ok (m, some x) md e = ground arith

from_string_ok :
    (md0 md : OboeMetadata) (s : Text)
    → from_string md0 s ≡ (md, none)
    → (b : List ℕ) × (hex_decode s ≡ some b) × (validated (unpack md0 b) ≡ (md, none))
unfolding from_string
from_string_ok md0 md s e = ground arith

-- Every string that `FromString` accepts gives well-formed metadata: version 2, lengths that the
-- header can express, ID slices of these lengths, bytes, and a task ID that is not the one of 20
-- zero bytes.
pub from_string-IsWellFormed :
    (md0 md : OboeMetadata) (s : Text) → from_string md0 s ≡ (md, none) → IsWellFormed md
from_string-IsWellFormed md0 md s e =
    let (b, decoded, checked) = from_string_ok md0 md s e in
    let (read, valid) = validated_ok (unpack md0 b) md checked in
    unpack-IsWellFormed md0 md b (hex_decode-bytes s decoded) read valid

-- A string that was accepted may be printed again: reading the print gives the same metadata.
pub from_string_again :
    (md0 md1 md : OboeMetadata) (s : Text)
    → from_string md0 s ≡ (md, none)
    → from_string md1 (string md) ≡ (md, none)
from_string_again md0 md1 md s e = from_string-string md1 (from_string-IsWellFormed md0 md s e)
