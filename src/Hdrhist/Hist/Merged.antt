-- ===== src/Hdrhist/Hist/Merged.antt =====
-- v1/ao/internal/hdrhist/hist.go: adding and subtracting histograms.
use package.appoptics_apm_go.Base.{
  ℕ, ◌+◌, Bool, true, false, ◌&&◌, List, [], ◌∷◌, Option, none, some, ltb, ◌==◌, if◌then◌else◌,
  length,
}
use package.appoptics_apm_go.Base.Words.{word, word_sub, int64_lt}
use package.appoptics_apm_go.Hdrhist.Buckets.{value_for, highest_equiv}
use package.appoptics_apm_go.Hdrhist.Hist.{
  Hist, Fault, Result, returned, failed, resize, record_n, ◌>>=◌,
}
use package.appoptics_apm_go.Hdrhist.Hist.Values.{Arithmetic, summed, max_val, val}

-- `h.b.counts[i] += count` for each counter of the other, in order.
unfoldable pub add_counts : List ℕ → List ℕ → Result (List ℕ)
add_counts cs [] = returned cs
add_counts [] (d ∷ ds) = failed Fault.index_out_of_range
add_counts (c ∷ cs) (d ∷ ds) = do rest ← add_counts cs ds; returned (word (c + d) ∷ rest)

-- The slow path: each counter of the other is recorded at its value.
unfoldable pub add_values : Hist → Hist → ℕ → List ℕ → Result Hist
add_values h o i [] = returned h
add_values h o i (count ∷ counts) = elim (int64_lt 0 count) [
  | true ↦ do h ← record_n h (value_for o.b i) count; add_values h o (i + 1) counts
  | false ↦ add_values h o (i + 1) counts
]

-- The earlier start, and the later end.
abbrev pub earlier : Option ℕ → Option ℕ → Option ℕ
earlier none o = o
earlier (some t) none = some t
earlier (some t) (some u) = if ltb u t then some u else some t

abbrev pub later : Option ℕ → Option ℕ → Option ℕ
later none o = o
later (some t) none = some t
later (some t) (some u) = if ltb t u then some u else some t

unfoldable pub with_times : Hist → Hist → Hist
with_times h o = record h {
  start_time = earlier h.start_time o.start_time;
  end_time = later h.end_time o.end_time;
}

unfoldable pub same_layout : Hist → Hist → Bool
same_layout h o =
    h.b.bucket_count == o.b.bucket_count
    && (h.b.sub_count == o.b.sub_count && h.b.unit_mag == o.b.unit_mag)

unfoldable pub merged : Hist → Hist → Result Hist
merged h o = elim (same_layout h o) [
  | true ↦ do
    counts ← add_counts h.b.counts o.b.counts
    returned (record h {
      b = record h.b { counts = counts };
      total_count = word (h.total_count + summed 0 o.b.counts);
    })
  | false ↦ add_values h o 0 o.b.counts
]

module _ {F : Type 0} (fl : Arithmetic F) where
  -- Room for the largest value of the other.
  unfoldable pub reaching : Hist → Hist → Result Hist
  reaching h o =
      let highest = highest_equiv h.b (value_for h.b (word_sub (length h.b.counts) 1)) in
      let largest = max_val fl o in
      if int64_lt highest largest
      then (if h.cfg.auto_resize then resize h largest else failed Fault.other_too_large)
      else returned h

  unfoldable pub add : Hist → Hist → Result Hist
  add h o = do h ← reaching h o; h ← merged h o; returned (with_times h o)

  unfoldable pub sub_values : Hist → Hist → ℕ → List ℕ → Result Hist
  sub_values h o i [] = returned h
  sub_values h o i (count ∷ counts) = elim (int64_lt 0 count) [
    | true ↦
        let v = value_for o.b i in
        elim (int64_lt (val fl h v).count count) [
          | true ↦ failed Fault.other_has_higher_count
          | false ↦ do h ← record_n h v (word_sub 0 count); sub_values h o (i + 1) counts
        ]
    | false ↦ sub_values h o (i + 1) counts
  ]

  unfoldable pub sub : Hist → Hist → Result Hist
  sub h o = do h ← reaching h o; sub_values h o 0 o.b.counts
