-- ===== src/Hdrhist/Hist.antt =====
-- v1/ao/internal/hdrhist/hist.go: the histogram, from its set-up to the recording of values.
-- A panic of the code is a fault, and so is a loop that outlasts its fuel.
use package.appoptics_apm_go.Base.{
  ℕ, zero, suc, ◌+◌, ◌-◌, ◌*◌, ◌/◌, ◌%◌, ◌^◌, ◌≤◌, ◌<◌, ◌≡◌, Bool, true, false, not, ◌&&◌, ◌||◌,
  List, map, Option, none, some, leb, ltb, ◌==◌, if◌then◌else◌, length, get_elem?, set, replicate,
}
use package.appoptics_apm_go.Base.Words.{word, word_sub, is_negative, int64_lt}
use package.appoptics_apm_go.Base.Slices.{copy}
use package.appoptics_apm_go.Hdrhist.Buckets.{
  Buckets, counts_index, value_for, highest_equiv, num_buckets_to_cover_val,
}
pub mod Shapes
pub mod Recorded
pub mod Started
pub mod Totals
pub mod Corrected
pub mod Values
pub mod Merged
mod Runs

pub data Fault : Type 0 where
  lowest_too_small highest_too_small sig_figs_out_of_range : Fault
  value_too_large index_out_of_range other_too_large other_has_higher_count endless : Fault

pub data Result {ℓ} (A : Type ℓ) : Type ℓ where
  returned : A → Result A
  failed : Fault → Result A

infixl 5 ◌>>=◌
abbrev pub ◌>>=◌ {ℓ κ} : {A : Type ℓ} {B : Type κ} → Result A → (A → Result B) → Result B
returned a >>= f = f a
failed e >>= f = failed e

abbrev pub from_option {ℓ} : {A : Type ℓ} → Fault → Option A → Result A
from_option e none = failed e
from_option e (some a) = returned a

pub record Config : Type 0 where
  pub lowest_discernible : ℕ
  pub highest_trackable : ℕ
  pub sig_figs : ℕ
  pub auto_resize : Bool

-- An instant is its nanoseconds.
pub record Hist : Type 0 where
  pub b : Buckets
  pub cfg : Config
  pub total_count : ℕ
  pub start_time : Option ℕ
  pub end_time : Option ℕ

abbrev pub default_config : ℕ → Config
default_config sig_figs = record {
  lowest_discernible = 1;
  highest_trackable = 2;
  sig_figs = sig_figs;
  auto_resize = true;
}

-- The checks of `Init`, and the configuration that it keeps.
unfoldable pub checked : Config → Result Config
checked cfg =
    let lowest = cfg.lowest_discernible in
    let twice = word (2 * lowest) in
    if int64_lt lowest 1
    then failed Fault.lowest_too_small
    else if int64_lt cfg.highest_trackable twice && not cfg.auto_resize
    then failed Fault.highest_too_small
    else if ltb 5 cfg.sig_figs
    then failed Fault.sig_figs_out_of_range
    else if int64_lt cfg.highest_trackable twice
    then returned (record cfg { highest_trackable = twice })
    else returned cfg

-- The least power of two at or above `n`, for `Ceil(Log2(n))` on the six values of `SigFigs`.
ceil_log2 : ℕ → ℕ → ℕ → ℕ
ceil_log2 zero k n = k
ceil_log2 (suc fuel) k n = let rest = ceil_log2 fuel (k + 1) n in if leb n (2 ^ k) then k else rest

unfoldable pub half_count_mag : ℕ → ℕ
unfolding ceil_log2
half_count_mag sig_figs =
    let sub_count_mag = ceil_log2 20 0 (2 * 10 ^ sig_figs) in
    if ltb 1 sub_count_mag then sub_count_mag - 1 else 0

unfoldable pub shaped_buckets : ℕ → ℕ → ℕ → Buckets
shaped_buckets unit_mag half_mag bucket_count =
    let half = 2 ^ (half_mag + 1) / 2 in
    record {
      counts = replicate ((bucket_count + 1) * half) 0;
      sub_half_count = half;
      sub_half_count_mag = half_mag;
      sub_mask = word ((2 ^ (half_mag + 1) - 1) * 2 ^ unit_mag);
      sub_count = 2 ^ (half_mag + 1);
      bucket_count = bucket_count;
      unit_mag = unit_mag;
      lead_zero_count_base = word_sub 64 (unit_mag + half_mag + 1);
    }

-- The rounds that `numBucketsToCoverVal` can take before its variable is above `MaxInt64 / 2`.
abbrev pub cover_fuel : ℕ
cover_fuel = 64

-- `floor_log2` is `Floor(Log2(float64(v)))`.
module _ (floor_log2 : ℕ → ℕ) where
  unfoldable pub init : Config → Result Hist
  init cfg = do
    cfg ← checked cfg
    let unit_mag = floor_log2 cfg.lowest_discernible
    let half_mag = half_count_mag cfg.sig_figs
    bucket_count ←
        from_option Fault.endless
          (num_buckets_to_cover_val cover_fuel cfg.highest_trackable (2 ^ (half_mag + 1)) unit_mag)
    returned (record {
      b = shaped_buckets unit_mag half_mag bucket_count;
      cfg = cfg;
      total_count = 0;
      start_time = none;
      end_time = none;
    })

  unfoldable pub with_config : Config → Result Hist
  with_config cfg = init cfg

  unfoldable pub new : ℕ → Result Hist
  new sig_figs = with_config (default_config sig_figs)

unfoldable pub resized : Hist → ℕ → Hist
resized h bucket_count =
    let counts_len = (bucket_count + 1) * (h.b.sub_count / 2) in
    let b = record h.b {
      counts = copy (replicate counts_len 0) h.b.counts;
      bucket_count = bucket_count;
    } in
    let cfg = record h.cfg {
      highest_trackable = highest_equiv b (value_for b (word_sub counts_len 1));
    } in
    record h { b = b; cfg = cfg }

unfoldable pub resize : Hist → ℕ → Result Hist
resize h highest = do
  bucket_count ←
      from_option Fault.endless
        (num_buckets_to_cover_val cover_fuel highest h.b.sub_count h.b.unit_mag)
  returned (resized h bucket_count)

-- `h.b.counts[i] += count` and the total, with the panic of the runtime out of range.
unfoldable pub stored : Hist → ℕ → ℕ → Result Hist
stored h i count = do
  old ← from_option Fault.index_out_of_range (get_elem? h.b.counts i)
  returned (record h {
    b = record h.b { counts = set h.b.counts i (word (old + count)) };
    total_count = word (h.total_count + count);
  })

unfoldable pub grown : Hist → ℕ → ℕ → Result Hist
grown h v i = if int64_lt (length h.b.counts) i && h.cfg.auto_resize then resize h v else returned h

unfoldable pub stored_within : Hist → ℕ → ℕ → Result Hist
stored_within h i count =
    if int64_lt i 0 || int64_lt (length h.b.counts) i
    then failed Fault.value_too_large
    else stored h i count

unfoldable pub record_n : Hist → ℕ → ℕ → Result Hist
record_n h v count = do let i = counts_index h.b v; h ← grown h v i; stored_within h i count

unfoldable pub record_one : Hist → ℕ → Result Hist
record_one h v = record_n h v 1

unfoldable pub record_missing : ℕ → Hist → ℕ → ℕ → Result Hist
record_missing zero h missing interval = failed Fault.endless
record_missing (suc fuel) h missing interval = elim (int64_lt missing interval) [
  | true ↦ returned h
  | false ↦ do h ← record_n h missing 1; record_missing fuel h (word_sub missing interval) interval
]

unfoldable pub record_corrected : ℕ → Hist → ℕ → ℕ → Result Hist
record_corrected fuel h v interval = do
  h ← record_n h v 1
  record_missing fuel h (word_sub v interval) interval

unfoldable pub clear : Hist → Hist
clear h = record h {
  b = record h.b { counts = map (λ (c : ℕ). 0) h.b.counts };
  total_count = 0;
  start_time = none;
  end_time = none;
}
