-- ===== src/Base/Hex.antt =====
-- Go's `encoding/hex` and `strings.ToUpper` on the digits that it writes.
use Prim.Native.Nat.{ℕ, ◌+◌, ◌-◌, ◌*◌, ◌/◌, ◌%◌, ◌<◌}
use mathlib.Core.Path.{◌≡◌, refl}
use mathlib.Core.Bool.{◌&&◌}
use mathlib.Core.List.{List, [], ◌∷◌}
use mathlib.Core.Option.{Option, none, some}
use native.Mathlib.Omega.{arith}
use package.appoptics_apm_go.Base.Tests.{leb, ltb, if◌then◌else◌}
use package.appoptics_apm_go.Base.Options.{◌>>=◌}
use package.appoptics_apm_go.Base.Lists.{length, All}

unfoldable pub from_hex_char : ℕ → Option ℕ
from_hex_char c =
    if leb b'0' c && leb c b'9'
    then some (c - b'0')
    else if leb b'a' c && leb c b'f'
    then some (c - b'a' + 10)
    else if leb b'A' c && leb c b'F'
    then some (c - b'A' + 10)
    else none

-- `hex.Decode`; `none` where it returns an error. The caller compares the count as well.
unfoldable pub hex_decode : List ℕ → Option (List ℕ)
hex_decode [] = some []
hex_decode (c ∷ []) = none
hex_decode (c ∷ d ∷ s) = do
  a ← from_hex_char c
  b ← from_hex_char d
  rest ← hex_decode s
  some ((a * 16 + b) ∷ rest)

-- "0123456789abcdef"[n]
abbrev hex_digit : ℕ → ℕ
hex_digit n = if ltb n 10 then b'0' + n else b'a' + (n - 10)

unfoldable pub hex_encode : List ℕ → List ℕ
hex_encode [] = []
hex_encode (b ∷ bs) = hex_digit (b / 16) ∷ hex_digit (b % 16) ∷ hex_encode bs

abbrev pub to_upper_ascii : ℕ → ℕ
to_upper_ascii c = if leb b'a' c && leb c b'z' then c - 32 else c

unfoldable pub to_upper : List ℕ → List ℕ
to_upper [] = []
to_upper (c ∷ s) = to_upper_ascii c ∷ to_upper s

from_hex_char-upper : (n : ℕ) → n < 16 → from_hex_char (to_upper_ascii (hex_digit n)) ≡ some n
unfolding from_hex_char
from_hex_char-upper n h = ground arith

-- Bytes are read back from their upper-case digits.
pub hex_decode-encode :
    (bs : List ℕ) → All (λ b. b < 256) bs → hex_decode (to_upper (hex_encode bs)) ≡ some bs
unfolding hex_decode hex_encode to_upper
hex_decode-encode [] h = refl
hex_decode-encode (b ∷ bs) (h, hs) =
    rw
      (
        from_hex_char-upper (b / 16) (omega arith),
        from_hex_char-upper (b % 16) (omega arith),
        hex_decode-encode bs hs,
      )
      (ground arith)

pub length-hex_encode : (bs : List ℕ) → length (to_upper (hex_encode bs)) ≡ 2 * length bs
unfolding hex_encode to_upper
length-hex_encode [] = refl
length-hex_encode (b ∷ bs) = omega (arith, length-hex_encode bs)
