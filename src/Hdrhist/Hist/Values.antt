-- ===== src/Hdrhist/Hist/Values.antt =====
-- v1/ao/internal/hdrhist/hist.go: what is read of a histogram. The arithmetic of `float64` is a
-- parameter.
use package.appoptics_apm_go.Base.{
  ℕ, ◌+◌, ◌*◌, Bool, ◌||◌, not, List, [], ◌∷◌, Option, none, some, ◌==◌, if◌then◌else◌, get_elem?,
  take,
}
use package.appoptics_apm_go.Base.Words.{word, is_negative, int64_lt}
use package.appoptics_apm_go.Hdrhist.Buckets.{
  Buckets, counts_index, value_for, lowest_equiv, median_equiv, highest_equiv,
}
use package.appoptics_apm_go.Hdrhist.Hist.{Hist}

pub record Arithmetic (F : Type 0) : Type 0 where
  pub zero_float : F
  pub half : F
  pub one : F
  pub hundred : F
  pub of_int64 : ℕ → F
  pub to_int64 : F → ℕ
  pub add : F → F → F
  pub sub : F → F → F
  pub mul : F → F → F
  pub div : F → F → F
  pub min : F → F → F
  pub max : F → F → F
  pub sqrt : F → F
  pub same : F → F → Bool

pub record HistVal (F : Type 0) : Type 0 where
  pub value : ℕ
  pub count : ℕ
  pub cum_count : ℕ
  pub percentile : F

-- The sum of counters as the loops take it, wrapping.
unfoldable pub summed : ℕ → List ℕ → ℕ
summed acc [] = acc
summed acc (c ∷ cs) = summed (word (acc + c)) cs

module _ {F : Type 0} (fl : Arithmetic F) where
  -- `100 * float64(part) / float64(whole)`
  abbrev pub percent : ℕ → ℕ → F
  percent part whole = fl.div (fl.mul fl.hundred (fl.of_int64 part)) (fl.of_int64 whole)

  -- The loop of `AllVals` from index `i` on, with the total so far.
  unfoldable pub all_vals_from : Hist → ℕ → ℕ → List ℕ → List (HistVal F)
  all_vals_from h i total [] = []
  all_vals_from h i total (count ∷ counts) =
      let skipped = all_vals_from h (i + 1) total counts in
      let total' = word (total + count) in
      let rest = all_vals_from h (i + 1) total' counts in
      if not (int64_lt total h.total_count)
      then []
      else if count == 0
      then skipped
      else record {
        value = highest_equiv h.b (value_for h.b i);
        count = count;
        cum_count = total';
        percentile = percent total' h.total_count;
      }
        ∷ rest

  unfoldable pub all_vals : Hist → List (HistVal F)
  all_vals h = all_vals_from h 0 0 h.b.counts

  -- `none` where the index is past the last counter.
  unfoldable pub val_at : Hist → ℕ → ℕ → Option ℕ → HistVal F
  val_at h v i none = record {
    value = v;
    count = 0;
    cum_count = h.total_count;
    percentile = fl.hundred;
  }
  val_at h v i (some at) =
      let count = summed 0 (take (i + 1) h.b.counts) in
      record {
        value = highest_equiv h.b v;
        count = at;
        cum_count = count;
        percentile = if h.total_count == 0 then fl.hundred else percent count h.total_count;
      }

  unfoldable pub val : Hist → ℕ → HistVal F
  val h v =
      let i = counts_index h.b v in
      if is_negative v || is_negative i
      then record { value = v; count = 0; cum_count = 0; percentile = fl.zero_float }
      else val_at h v i (get_elem? h.b.counts i)

  unfoldable pub desired_count : Hist → F → ℕ
  desired_count h p =
      let wanted =
        fl.to_int64 (fl.add (fl.mul (fl.div p fl.hundred) (fl.of_int64 h.total_count)) fl.half) in
      if int64_lt wanted 1 then 1 else wanted

  -- The loop of `PercentileVal` from index `i` on.
  unfoldable pub percentile_from : Hist → F → ℕ → ℕ → ℕ → List ℕ → HistVal F
  percentile_from h p desired i total [] = record {
    value = 0;
    count = 0;
    cum_count = 0;
    percentile = fl.zero_float;
  }
  percentile_from h p desired i total (count ∷ counts) =
      let total' = word (total + count) in
      let rest = percentile_from h p desired (i + 1) total' counts in
      let v = value_for h.b i in
      if int64_lt total' desired then rest else record {
        value = if fl.same p fl.zero_float then lowest_equiv h.b v else highest_equiv h.b v;
        count = count;
        cum_count = total';
        percentile = if h.total_count == 0 then fl.hundred else percent total' h.total_count;
      }

  unfoldable pub percentile_val : Hist → F → HistVal F
  percentile_val h p =
      let p = fl.min p fl.hundred in percentile_from h p (desired_count h p) 0 0 h.b.counts

  unfoldable pub max_val : Hist → ℕ
  max_val h = (percentile_val h fl.hundred).value

  unfoldable pub min_val : Hist → ℕ
  min_val h = (percentile_val h fl.zero_float).value

  unfoldable pub mean_total : Buckets → ℕ → ℕ → List ℕ → ℕ
  mean_total b i total [] = total
  mean_total b i total (count ∷ counts) =
      mean_total b (i + 1) (word (total + median_equiv b (value_for b i) * count)) counts

  unfoldable pub mean : Hist → F
  mean h =
      fl.div (fl.of_int64 (mean_total h.b 0 0 h.b.counts))
        (fl.max (fl.of_int64 h.total_count) fl.one)

  unfoldable pub deviations : Buckets → F → ℕ → F → List ℕ → F
  deviations b mu i sum [] = sum
  deviations b mu i sum (count ∷ counts) =
      let dev = fl.sub mu (fl.of_int64 (median_equiv b (value_for b i))) in
      deviations b mu (i + 1) (fl.add sum (fl.mul (fl.mul dev dev) (fl.of_int64 count))) counts

  unfoldable pub stdev : Hist → F
  stdev h = fl.sqrt (
      fl.div (deviations h.b (mean h) 0 fl.zero_float h.b.counts)
        (fl.max (fl.of_int64 h.total_count) fl.one))
