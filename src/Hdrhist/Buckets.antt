-- ===== src/Hdrhist/Buckets.antt =====
-- v1/ao/internal/hdrhist/hist.go: the `buckets` of a histogram, and the arithmetic that takes a
-- value to its counter and back. An `int64` or `int` is its 64-bit pattern.
use package.appoptics_apm_go.Base.{
  ℕ, zero, suc, ◌+◌, ◌-◌, ◌*◌, ◌/◌, ◌%◌, ◌^◌, Bool, true, false, ◌||◌, bit_and, bit_or, List,
  Option, none, some, leb, ltb, ◌==◌, if◌then◌else◌, ◌≡◌, ◌≤◌, length,
}
use package.appoptics_apm_go.Base.Words.{word, word_sub, is_negative, int64_lt}
pub mod LeadingZeros
pub mod Located
pub mod Equivalents
pub mod Cover
pub mod Edges
pub mod Indices

pub record Buckets : Type 0 where
  pub counts : List ℕ
  pub sub_half_count : ℕ
  pub sub_half_count_mag : ℕ
  pub sub_mask : ℕ
  pub sub_count : ℕ
  pub bucket_count : ℕ
  pub unit_mag : ℕ
  pub lead_zero_count_base : ℕ

-- One test of `leadingZeros`: the count so far and what is left of the word.
unfoldable pub narrow : ℕ → ℕ × ℕ → ℕ × ℕ
narrow width (n, x) = if x / 2 ^ width == 0 then (n, x) else (n - width, x / 2 ^ width)

unfoldable pub leading_zeros : ℕ → ℕ
leading_zeros x =
    let last = narrow 1 (narrow 2 (narrow 4 (narrow 8 (narrow 16 (narrow 32 (64, x)))))) in
    last.0 - last.1

unfoldable pub bucket_index : ℕ → ℕ → ℕ → ℕ
bucket_index v sub_mask lead_zero_count_base =
    word_sub lead_zero_count_base (leading_zeros (bit_or v sub_mask))

-- A shift by 64 or more leaves 0, and so does the division.
unfoldable pub sub_bucket_index : ℕ → ℕ → ℕ → ℕ
sub_bucket_index v bi unit_mag = v / 2 ^ word (bi + unit_mag)

unfoldable pub counts_index : Buckets → ℕ → ℕ
counts_index b v =
    let bi = bucket_index v b.sub_mask b.lead_zero_count_base in
    let sbi = sub_bucket_index v bi b.unit_mag in
    let base = word (word (bi + 1) * 2 ^ b.sub_half_count_mag) in
    let offset = word_sub sbi b.sub_half_count in word (base + offset)

-- `bi` is negative where `i` is, or where `i` has no bit above the lowest `subHalfCountMag`.
unfoldable pub value_for : Buckets → ℕ → ℕ
value_for b i =
    let low = bit_and i (word_sub b.sub_half_count 1) in
    if is_negative i || i / 2 ^ b.sub_half_count_mag == 0
    then word (low * 2 ^ b.unit_mag)
    else word ((low + b.sub_half_count) * 2 ^ (i / 2 ^ b.sub_half_count_mag - 1 + b.unit_mag))

unfoldable pub size_of_equivalent_value_range : Buckets → ℕ → ℕ
size_of_equivalent_value_range b v =
    word (2 ^ word (b.unit_mag + bucket_index v b.sub_mask b.lead_zero_count_base))

unfoldable pub lowest_equiv : Buckets → ℕ → ℕ
lowest_equiv b v =
    let bi = bucket_index v b.sub_mask b.lead_zero_count_base in
    word (sub_bucket_index v bi b.unit_mag * 2 ^ word (bi + b.unit_mag))

-- The quotient is signed, and is taken of a power of two that is not negative below `2 ^ 63`.
unfoldable pub median_equiv : Buckets → ℕ → ℕ
median_equiv b v = word (lowest_equiv b v + size_of_equivalent_value_range b v / 2)

unfoldable pub highest_equiv : Buckets → ℕ → ℕ
highest_equiv b v = word_sub (lowest_equiv b v + size_of_equivalent_value_range b v) 1

unfoldable pub are_equiv : Buckets → ℕ → ℕ → Bool
are_equiv b v1 v2 = lowest_equiv b v1 == lowest_equiv b v2

-- The loop of `numBucketsToCoverVal`, `none` where the fuel ends first: `smallestUntrackable`
-- may shift to 0 and stay there.
unfoldable pub cover_from : ℕ → ℕ → ℕ → ℕ → Option ℕ
cover_from zero smallest v req = none
cover_from (suc fuel) smallest v req =
    let rest = cover_from fuel (word (smallest * 2)) v (req + 1) in
    if int64_lt smallest v
    then if int64_lt (2 ^ 62 - 1) smallest then some (req + 1) else rest
    else some req

unfoldable pub num_buckets_to_cover_val : ℕ → ℕ → ℕ → ℕ → Option ℕ
num_buckets_to_cover_val fuel v sub_count unit_mag =
    cover_from fuel (word (sub_count * 2 ^ unit_mag)) v 1

-- What `Init` sets up for values below `2 ^ 62`.
pub record IsShaped (b : Buckets) : Type 0 where
  pub half : b.sub_half_count ≡ 2 ^ b.sub_half_count_mag
  pub count : b.sub_count ≡ 2 ^ suc b.sub_half_count_mag
  pub mask : b.sub_mask ≡ (2 ^ suc b.sub_half_count_mag - 1) * 2 ^ b.unit_mag
  pub base : b.lead_zero_count_base + (b.unit_mag + suc b.sub_half_count_mag) ≡ 64
  pub fits : b.unit_mag + suc b.sub_half_count_mag ≤ 62
  pub sized : length b.counts ≡ (b.bucket_count + 1) * 2 ^ b.sub_half_count_mag
