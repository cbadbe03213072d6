-- ===== src/Hdrhist/Hist/Recorded.antt =====
-- `RecordN` on every value: which are counted, which resize, and which panic.
use native.Mathlib.Nat.{mul-le-mul_right}
use package.appoptics_apm_go.Base.{
  ◌≢◌, ℕ, zero, suc, ◌+◌, ◌-◌, ◌*◌, ◌^◌, ◌≤◌, ◌<◌, ◌≡◌, refl, sym, ap, ◌∙◌, arith, ◌⊎◌, List, [],
  ◌∷◌, length, set, get_elem?, none, some, true, false, Bool, if◌then◌else◌,
}
use package.appoptics_apm_go.Base.Words.{word, ge→int64_lt, lt→int64_lt}
use package.appoptics_apm_go.Base.Powers.{
  pow2_pos, pow2_mono, pow2_add, pow2_suc, pow2_cong, pow2_reflects, lt_of_le_ne,
}
use package.appoptics_apm_go.Hdrhist.Buckets.{Buckets, counts_index, num_buckets_to_cover_val}
use package.appoptics_apm_go.Hdrhist.Buckets.Indices.{value_for-counts_index}
use package.appoptics_apm_go.Hdrhist.Buckets.Edges.{index_at, index-gt, counts_index-lt}
use package.appoptics_apm_go.Hdrhist.Buckets.Cover.{num_buckets_to_cover_val_lem}
use package.appoptics_apm_go.Hdrhist.Hist.{
  Hist, Fault, returned, failed, stored, grown, stored_within, record_n, resized, resize,
}
use package.appoptics_apm_go.Hdrhist.Hist.Shapes.{IsSound, resized-IsSound}

-- What it is to count: `count` is added at one index.
abbrev pub add_at : List ℕ → ℕ → ℕ → List ℕ
add_at [] i count = []
add_at (c ∷ cs) zero count = word (c + count) ∷ cs
add_at (c ∷ cs) (suc i) count = c ∷ add_at cs i count

abbrev pub recorded : Hist → ℕ → ℕ → Hist
recorded h i count = record h {
  b = record h.b { counts = add_at h.b.counts i count };
  total_count = word (h.total_count + count);
}

-- The values under this have a counter.
abbrev pub limit : Buckets → ℕ
limit b = 2 ^ (b.bucket_count + (b.unit_mag + b.sub_half_count_mag))

found_at :
    (cs : List ℕ) (i count : ℕ)
    → i < length cs
    → (old : ℕ) × (get_elem? cs i ≡ some old) × (set cs i (word (old + count)) ≡ add_at cs i count)
found_at [] i count h = absurd (omega arith)
found_at (c ∷ cs) zero count h = (c, refl, refl)
found_at (c ∷ cs) (suc i) count h =
    let rest = found_at cs i count (omega arith) in (rest.0, rest.1, ap (◌∷◌ c) rest.2)

not_found : (cs : List ℕ) (i : ℕ) → length cs ≤ i → get_elem? cs i ≡ none
not_found [] i h = refl
not_found (c ∷ cs) zero h = absurd (omega arith)
not_found (c ∷ cs) (suc i) h = not_found cs i (omega arith)

pub stored_at :
    (h : Hist) (i count : ℕ)
    → i < length h.b.counts
    → stored h i count ≡ returned (recorded h i count)
unfolding stored
stored_at h i count within =
    let found = found_at h.b.counts i count within in
    rw (found.1) (
      ap
        (λ (cs : List ℕ).
          returned (record h {
            b = record h.b { counts = cs };
            total_count = word (h.total_count + count);
          }))
        found.2)

pub stored_outside :
    (h : Hist) (i count : ℕ)
    → length h.b.counts ≤ i
    → stored h i count ≡ failed Fault.index_out_of_range
unfolding stored
stored_outside h i count past = rw (not_found h.b.counts i past) refl

-- The number of counters is far from the bounds of `int`.
pub length-lt : (h : Hist) → IsSound h → length h.b.counts < 2 ^ 63
length-lt h sound = omega (
  arith,
  sound.shaped.sized,
  mul-le-mul_right {m = h.b.bucket_count + 1} {n = 64} (2 ^ h.b.sub_half_count_mag)
      (omega (arith, sound.in_int64)),
  pow2_mono h.b.sub_half_count_mag 17 sound.fine,
)

-- Within the counters, and just past them, nothing is resized and the index is used as it is.
module _ (h : Hist) (v count i : ℕ) (sound : IsSound h) (at : i ≡ counts_index h.b v)
    (in_int : i < 2 ^ 63) where
  unchanged : i ≤ length h.b.counts → grown h v i ≡ returned h
  unfolding grown
  unchanged within = rw (ge→int64_lt (length h.b.counts) i (length-lt h sound) within) refl

  stored_within_lem : i ≤ length h.b.counts → stored_within h i count ≡ stored h i count
  unfolding stored_within
  stored_within_lem within =
      rw
        (
          ge→int64_lt i 0 in_int (omega arith),
          ge→int64_lt (length h.b.counts) i (length-lt h sound) within,
        )
        refl

  refused : length h.b.counts < i → stored_within h i count ≡ failed Fault.value_too_large
  unfolding stored_within
  refused past =
      rw (ge→int64_lt i 0 in_int (omega arith), lt→int64_lt (length h.b.counts) i in_int past) refl

module _ (h : Hist) (v count : ℕ) (sound : IsSound h) (small : v < 2 ^ 63) where
  abbrev index : ℕ
  index = counts_index h.b v

  in_int : index < 2 ^ 63
  in_int = counts_index-lt h.b v sound.shaped small

  record_n-within : index ≤ length h.b.counts → record_n h v count ≡ stored h index count
  unfolding record_n
  record_n-within within =
      rw (unchanged h v count index sound refl in_int within)
        (stored_within_lem h v count index sound refl in_int within)

  pub index-within : v < limit h.b → index < length h.b.counts
  index-within low = ((value_for-counts_index h.b v sound.shaped small sound.some_bucket).1).1 low

-- A value under the limit is counted at its index, and nothing else changes.
pub record_n-tracked :
    (h : Hist) (v count : ℕ)
    → IsSound h
    → v < 2 ^ 63
    → v < limit h.b
    → record_n h v count ≡ returned (recorded h (counts_index h.b v) count)
record_n-tracked h v count sound small low =
    record_n-within h v count sound small (omega (arith, index-within h v count sound small low))
    ∙ stored_at h (counts_index h.b v) count (index-within h v count sound small low)

-- The values from the limit on that share the limit's counter panic with an index out of
-- range, whether or not the histogram resizes itself.
pub record_n-edge :
    (h : Hist) (v count : ℕ)
    → IsSound h
    → v < 2 ^ 63
    → limit h.b ≤ v
    → v < limit h.b + 2 ^ (h.b.bucket_count + h.b.unit_mag)
    → record_n h v count ≡ failed Fault.index_out_of_range
record_n-edge h v count sound small high near =
    record_n-within h v count sound small (omega (arith, at))
    ∙ stored_outside h (counts_index h.b v) count (omega (arith, at))
  where
    at : counts_index h.b v ≡ length h.b.counts
    at = omega (
      arith,
      index_at h.b v sound.shaped small h.b.bucket_count sound.some_bucket high near,
      sound.shaped.sized,
    )

past_end :
    (h : Hist) (v : ℕ)
    → IsSound h
    → v < 2 ^ 63
    → limit h.b + 2 ^ (h.b.bucket_count + h.b.unit_mag) ≤ v
    → length h.b.counts < counts_index h.b v
past_end h v sound small far = omega (
  arith,
  index-gt h.b v sound.shaped small h.b.bucket_count sound.some_bucket (omega arith) far,
  sound.shaped.sized,
)

-- Past the end, the setting decides.
grown_past :
    (h : Hist) (v i : ℕ) (auto : Bool)
    → i < 2 ^ 63
    → length h.b.counts < i
    → h.cfg.auto_resize ≡ auto
    → grown h v i ≡ (if auto then resize h v else returned h)
unfolding grown
grown_past h v i auto in_int past setting =
    rw (lt→int64_lt (length h.b.counts) i in_int past)
      (ap (λ (a : Bool). if a then resize h v else returned h) setting)

-- Larger values are refused by a histogram that does not resize itself.
pub record_n-refused :
    (h : Hist) (v count : ℕ)
    → IsSound h
    → v < 2 ^ 63
    → limit h.b + 2 ^ (h.b.bucket_count + h.b.unit_mag) ≤ v
    → h.cfg.auto_resize ≡ false
    → record_n h v count ≡ failed Fault.value_too_large
unfolding record_n
record_n-refused h v count sound small far fixed =
    rw (grown_past h v (counts_index h.b v) false in_int past fixed)
      (refused h v count (counts_index h.b v) sound refl in_int past)
  where
    in_int : counts_index h.b v < 2 ^ 63
    in_int = counts_index-lt h.b v sound.shaped small

    past : length h.b.counts < counts_index h.b v
    past = past_end h v sound small far

-- The sizes that a resize can choose for `v`: the least that reach it.
pub record IsRoom (h : Hist) (v n : ℕ) : Type 0 where
  pub is : resize h v ≡ returned (resized h n)
  pub reaches : v ≤ limit (resized h n).b
  pub sound : IsSound (resized h n)

pub resize-IsRoom :
    (h : Hist) (v : ℕ) → IsSound h → v < 2 ^ 63 → limit h.b ≤ v → (n : ℕ) × IsRoom h v n
unfolding resize resized
resize-IsRoom h v sound small high = (
  suc n,
  record {
    is = rw (cover.1) refl;
    reaches = omega (
      arith,
      cover.2,
      pow2_cong (first + n) (suc n + (h.b.unit_mag + h.b.sub_half_count_mag)) (omega arith),
    );
    sound = resized-IsSound h (suc n) sound more (omega (arith, cover.4));
  },
)
  where
    first : ℕ
    first = h.b.unit_mag + suc h.b.sub_half_count_mag

    start : h.b.sub_count * 2 ^ h.b.unit_mag ≡ 2 ^ first
    start =
        ap (λ (k : ℕ). k * 2 ^ h.b.unit_mag) sound.shaped.count
        ∙ sym (
            pow2_cong first (suc h.b.sub_half_count_mag + h.b.unit_mag) (omega arith)
            ∙ pow2_add (suc h.b.sub_half_count_mag) h.b.unit_mag)

    cover :
        (n : ℕ) × (num_buckets_to_cover_val 64 v h.b.sub_count h.b.unit_mag ≡ some (suc n))
        × (v ≤ 2 ^ (first + n))
        × ((n ≡ 0) ⊎ (2 ^ (first + (n - 1)) < v))
        × (first + n ≤ 63)
    cover =
        num_buckets_to_cover_val_lem 64 v h.b.sub_count h.b.unit_mag first (omega arith) small
          sound.shaped.fits start

    n : ℕ
    n = cover.0

    more : h.b.bucket_count ≤ suc n
    more = omega (
      arith,
      pow2_reflects (h.b.bucket_count + (h.b.unit_mag + h.b.sub_half_count_mag)) (suc (first + n))
          (omega (arith, high, cover.2, pow2_suc (first + n), pow2_pos (first + n))),
    )

index-resized : (h : Hist) (v n : ℕ) → counts_index h.b v ≡ counts_index (resized h n).b v
unfolding counts_index resized
index-resized h v n = refl

-- A histogram that resizes itself counts a larger value that is no power of two in as many
-- buckets as hold it, and is sound then too.
pub record_n-resized :
    (h : Hist) (v count : ℕ)
    → IsSound h
    → v < 2 ^ 63
    → limit h.b + 2 ^ (h.b.bucket_count + h.b.unit_mag) ≤ v
    → h.cfg.auto_resize ≡ true
    → ((k : ℕ) → v ≢ 2 ^ k)
    → (n : ℕ) × (v < limit (resized h n).b)
      × (record_n h v count ≡ returned (recorded (resized h n) (counts_index h.b v) count))
unfolding record_n
record_n-resized h v count sound small far auto no_power =
    let room = resize-IsRoom h v sound small (omega arith) in
    let within = below room.0 room.1 in
    (
      room.0,
      within,
      rw (grown_past h v (counts_index h.b v) true in_int past auto, room.1.is)
          (stored_within_lem (resized h room.0) v count (counts_index h.b v) room.1.sound
              (index-resized h v room.0) in_int (omega (arith, index_in room.0 room.1 within))
            ∙ stored_at (resized h room.0) (counts_index h.b v) count
                (index_in room.0 room.1 within)),
    )
  where
    in_int : counts_index h.b v < 2 ^ 63
    in_int = counts_index-lt h.b v sound.shaped small

    past : length h.b.counts < counts_index h.b v
    past = past_end h v sound small far

    below : (n : ℕ) → IsRoom h v n → v < limit (resized h n).b
    below n room = lt_of_le_ne v (limit (resized h n).b) room.reaches (no_power _)

    index_in :
        (n : ℕ)
        → IsRoom h v n
        → v < limit (resized h n).b
        → counts_index h.b v < length (resized h n).b.counts
    index_in n room within =
        rw (index-resized h v n) (index-within (resized h n) v count room.sound small within)
