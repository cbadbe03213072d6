-- ===== src/Hdrhist/Zigzag.antt =====
-- v1/ao/internal/hdrhist/zigzag.go: ZigZag-encoded LEB128-64b9B numbers. An int64 is its bit
-- pattern, a number below 2^64, and a byte slice is a list of numbers.
pub mod Words
pub mod Groups
pub mod RoundTrip
mod Runs
use appoptics_apm_go.Base.{ℕ, zero, suc, ◌+◌, ◌-◌, ◌*◌, ◌/◌, ◌%◌, ◌^◌, ◌<◌, List, [], ◌∷◌}
use appoptics_apm_go.Base.{Option, none, some, get_elem?, ltb, ◌==◌, if◌then◌else◌}
use appoptics_apm_go.Base.{bit_and, bit_or, bit_xor}
use appoptics_apm_go.Base.Options.{◌>>=◌}

-- The values of a word of 64 bits.
abbrev pub IsWord : ℕ → Type 0
IsWord v = v < 2 ^ 64

abbrev pub IsByte : ℕ → Type 0
IsByte b = b < 256

-- The conversion `byte(v)`.
abbrev pub byte : ℕ → ℕ
byte v = v % 256

-- `i >> 63` on an int64: all ones for a negative number.
abbrev pub sign_word : ℕ → ℕ
sign_word i = if ltb i (2 ^ 63) then 0 else 2 ^ 64 - 1

-- `uint64((i << 1) ^ (i >> 63))`
pub zigzag : ℕ → ℕ
zigzag i = bit_xor (i * 2 % 2 ^ 64) (sign_word i)

-- `int64((uint64(value) >> 1) ^ uint64(-(value & 1)))`
pub unzigzag : ℕ → ℕ
unzigzag value = bit_xor (value / 2) ((2 ^ 64 - bit_and value 1) % 2 ^ 64)

-- The bytes after the first: `w` is `value` shifted right by the groups that are written, and the
-- count is of the tests `value >> … == 0` still to come. The ninth byte is written whole.
pub encode_rest : ℕ → ℕ → List ℕ
encode_rest zero w = byte w ∷ []
encode_rest (suc k) w =
    if w / 2 ^ 7 == 0 then byte w ∷ [] else byte (bit_or w 0x80) ∷ encode_rest k (w / 2 ^ 7)

pub encode_zig_zag : ℕ → List ℕ
encode_zig_zag i =
    let value = zigzag i in
    if value / 2 ^ 7 == 0
    then byte value ∷ []
    else byte (bit_or (bit_and value 0x7f) 0x80) ∷ encode_rest 7 (value / 2 ^ 7)

-- The branch of `decodeZigZagUnsafe` that reads `b[n]`, for `n` from 1 to 7; then the innermost
-- one, which reads `b[9]`. `none` is the panic of an index out of range. The result is `value`
-- before the last line, and `vlen`.
pub decode_rest : ℕ → ℕ → ℕ → List ℕ → Option (ℕ × ℕ)
decode_rest zero n value b = do v ← get_elem? b 9; some (bit_or value (v * 2 ^ 56 % 2 ^ 64), n + 1)
decode_rest (suc k) n value b = do
  v ← get_elem? b n
  let value' = bit_or value (bit_and v 0x7f * 2 ^ (7 * n) % 2 ^ 64)
  let rest = decode_rest k (n + 1) value' b
  if bit_and v 0x80 == 0 then some (value', n + 1) else rest

pub decode_zig_zag_unsafe : List ℕ → Option (ℕ × ℕ)
decode_zig_zag_unsafe b = do
  v ← get_elem? b 0
  let value = bit_and v 0x7f
  (value', vlen) ← if bit_and v 0x80 == 0 then some (value, 1) else decode_rest 7 1 value b
  some (unzigzag value', vlen)

-- `decodeZigZag` recovers from the panic, and returns "got incomplete data".
pub data Decoded : Type 0 where
  decoded : ℕ → ℕ → Decoded
  incomplete : Decoded

abbrev pub recovered : Option (ℕ × ℕ) → Decoded
recovered none = incomplete
recovered (some (v, vlen)) = decoded v vlen

pub decode_zig_zag : List ℕ → Decoded
decode_zig_zag b = recovered (decode_zig_zag_unsafe b)
