-- ===== src/Base/Words.antt =====
-- Go's `int64` and `uint64` as the bit pattern below `2 ^ 64`.
use package.appoptics_apm_go.Base.{
  ℕ, ◌+◌, ◌-◌, ◌%◌, ◌^◌, ◌<◌, ◌≤◌, ◌≡◌, Bool, true, false, arith, ltb, leb,
}

abbrev pub word : ℕ → ℕ
word n = n % 2 ^ 64

-- The difference wraps around.
abbrev pub word_sub : ℕ → ℕ → ℕ
word_sub a b = (a + 2 ^ 64 - b) % 2 ^ 64

abbrev pub is_negative : ℕ → Bool
is_negative a = leb (2 ^ 63) a

-- `a < b` on `int64`: the sign bit turned, patterns compare as numbers.
abbrev pub int64_lt : ℕ → ℕ → Bool
int64_lt a b = ltb (word (a + 2 ^ 63)) (word (b + 2 ^ 63))

pub int64_lt-ltb : (a b : ℕ) → a < 2 ^ 63 → b < 2 ^ 63 → int64_lt a b ≡ ltb a b
int64_lt-ltb a b ha hb = ground arith

pub is_negative-nonneg : (a : ℕ) → a < 2 ^ 63 → is_negative a ≡ false
is_negative-nonneg a h = ground arith

pub int64_lt→lt : (a b : ℕ) → a < 2 ^ 63 → b < 2 ^ 63 → int64_lt a b ≡ true → a < b
int64_lt→lt a b ha hb h = ground arith

pub int64_lt→ge : (a b : ℕ) → a < 2 ^ 63 → b < 2 ^ 63 → int64_lt a b ≡ false → b ≤ a
int64_lt→ge a b ha hb h = ground arith

pub lt→int64_lt : (a b : ℕ) → b < 2 ^ 63 → a < b → int64_lt a b ≡ true
lt→int64_lt a b hb h = ground arith

pub ge→int64_lt : (a b : ℕ) → a < 2 ^ 63 → b ≤ a → int64_lt a b ≡ false
ge→int64_lt a b ha h = ground arith
