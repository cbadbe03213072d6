-- ===== src/Metrics/TransMap/Runs.antt =====
-- A cycle of transaction names, and the theorem at a concrete input.
use appoptics_apm_go.Base.{◌≡◌, refl, true, false, ltb, List, [], ◌∷◌, ◌++◌, length, take}
use appoptics_apm_go.Base.Text.{Text, codes}
use appoptics_apm_go.Base.Split.{named}
use appoptics_apm_go.Metrics.TransMap.{
  TransMap, new_trans_map, set_cap, reset_names, is_within_limit,
}
use appoptics_apm_go.Metrics.TransMap.Distinct.{distinct, record_all, is_within_limit_lem}

-- A map whose capacity is lowered from three to two at its next reset.
abbrev lowered : TransMap
lowered = set_cap 2 (new_trans_map 3)

abbrev names : List Text
names = codes "a" ∷ codes "b" ∷ codes "a" ∷ []

outcomes :
    ((is_within_limit (codes "b") (record_all names (reset_names lowered))).0 ≡ true)
    × ((is_within_limit (codes "c") (record_all names (reset_names lowered))).0 ≡ false)
    × ((is_within_limit (codes "c") (record_all names lowered)).0 ≡ true)
unfolding is_within_limit record_all reset_names set_cap new_trans_map
outcomes = (refl, refl, refl)

is_within_limit_lem_example :
    ((is_within_limit (codes "c") (record_all names (reset_names lowered))).0
      ≡ named (codes "c") (take lowered.next_cap (distinct (names ++ (codes "c" ∷ [])) [])))
    × ((record_all names (reset_names lowered)).overflow
        ≡ ltb lowered.next_cap (length (distinct names [])))
is_within_limit_lem_example = is_within_limit_lem lowered names (codes "c")
