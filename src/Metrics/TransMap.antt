-- ===== src/Metrics/TransMap.antt =====
-- v1/ao/internal/metrics/metrics.go: the transaction names of a report cycle, up to a capacity. A
-- capacity is a positive int32, so that the number of names, which it bounds, is one too. The set
-- of names is a list; a method under the lock is one step. `Clone`,
-- whose copy shares the map of names, is left out.
pub mod Distinct
mod Runs
use appoptics_apm_go.Base.{
  ℕ, Bool, true, false, ltb, not, if◌then◌else◌, List, [], ◌∷◌, ◌++◌, length,
}
use appoptics_apm_go.Base.Text.{Text}
use appoptics_apm_go.Base.Split.{named}

pub record TransMap : Type 0 where
  pub transaction_names : List Text
  pub curr_cap : ℕ
  pub next_cap : ℕ
  pub overflow : Bool

unfoldable pub new_trans_map : ℕ → TransMap
new_trans_map cap = record {
  transaction_names = [];
  curr_cap = cap;
  next_cap = cap;
  overflow = false;
}

unfoldable pub set_cap : ℕ → TransMap → TransMap
set_cap cap t = record t { next_cap = cap }

unfoldable pub trans_cap : TransMap → ℕ
trans_cap t = t.curr_cap

unfoldable pub reset_names : TransMap → TransMap
reset_names t = record t { transaction_names = []; curr_cap = t.next_cap; overflow = false }

unfoldable pub is_within_limit : Text → TransMap → Bool × TransMap
is_within_limit name t =
    if not (named name t.transaction_names)
    then (if ltb (length t.transaction_names) t.curr_cap
        then (true, record t { transaction_names = t.transaction_names ++ (name ∷ []) })
        else (false, record t { overflow = true }))
    else (true, t)
