-- ===== src/Hdrhist/Hist/Totals.antt =====
-- Recording keeps a histogram sound: the total is that of the counters.
use mathlib.Core.Path.{subst}
use package.appoptics_apm_go.Base.{
  ℕ, zero, suc, ◌+◌, ◌^◌, ◌≤◌, ◌<◌, ◌≡◌, refl, sym, ap, ◌∙◌, arith, inl, inr, List, [], ◌∷◌, length,
  true, false, Bool, Bool-cases, ◌&&◌, ◌||◌,
}
use package.appoptics_apm_go.Base.Words.{word, int64_lt, ge→int64_lt}
use package.appoptics_apm_go.Base.Powers.{le_or_lt}
use package.appoptics_apm_go.Hdrhist.Buckets.{counts_index}
use package.appoptics_apm_go.Hdrhist.Hist.{
  Hist, Fault, returned, failed, stored, grown, stored_within, record_n, resized,
}
use package.appoptics_apm_go.Hdrhist.Hist.Shapes.{IsSound, total}
use package.appoptics_apm_go.Hdrhist.Hist.Recorded.{
  add_at, recorded, stored_at, stored_outside, resize-IsRoom, limit, index-within, length-lt,
}

length-add_at : (cs : List ℕ) (i count : ℕ) → length (add_at cs i count) ≡ length cs
length-add_at [] i count = refl
length-add_at (c ∷ cs) zero count = refl
length-add_at (c ∷ cs) (suc i) count = ap suc (length-add_at cs i count)

total-add_at :
    (cs : List ℕ) (i count : ℕ)
    → i < length cs
    → word (total (add_at cs i count)) ≡ word (total cs + count)
total-add_at [] i count h = absurd (omega arith)
total-add_at (c ∷ cs) zero count h = omega arith
total-add_at (c ∷ cs) (suc i) count h = omega (arith, total-add_at cs i count (omega arith))

pub recorded-IsSound :
    (h : Hist) (i count : ℕ) → IsSound h → i < length h.b.counts → IsSound (recorded h i count)
recorded-IsSound h i count sound within = record {
  shaped = record {
    half = sound.shaped.half;
    count = sound.shaped.count;
    mask = sound.shaped.mask;
    base = sound.shaped.base;
    fits = sound.shaped.fits;
    sized = length-add_at h.b.counts i count ∙ sound.shaped.sized;
  };
  fine = sound.fine;
  some_bucket = sound.some_bucket;
  in_int64 = sound.in_int64;
  totalled = omega (arith, sound.totalled, total-add_at h.b.counts i count within);
}

returned-inj : (a b : Hist) → returned a ≡ returned b → a ≡ b
returned-inj a b e = grind arith

not_returned : (a : Hist) (e : Fault) → failed e ≡ returned a → ⊥
not_returned a e h = grind arith

true_not-false : true ≡ false → ⊥
true_not-false e = grind arith

stored-IsSound :
    (h : Hist) (i count : ℕ) {h' : Hist} → IsSound h → stored h i count ≡ returned h' → IsSound h'
stored-IsSound h i count {h'} sound e = elim (le_or_lt (length h.b.counts) i) [
  | inl past ↦
      absurd (not_returned h' Fault.index_out_of_range (sym (stored_outside h i count past) ∙ e))
  | inr within ↦
      subst IsSound (returned-inj (recorded h i count) h' (sym (stored_at h i count within) ∙ e))
        (recorded-IsSound h i count sound within)
]

stored_within-IsSound :
    (h : Hist) (i count : ℕ) {h' : Hist}
    → IsSound h
    → stored_within h i count ≡ returned h'
    → IsSound h'
unfolding stored_within
stored_within-IsSound h i count {h'} sound e =
    elim (Bool-cases (int64_lt i 0 || int64_lt (length h.b.counts) i)) [
      | inl outside ↦ absurd (not_returned h' Fault.value_too_large (rw outside at e))
      | inr inside ↦ stored-IsSound h i count sound (rw inside at e)
    ]

-- Whatever value of `int64` that is not negative `RecordN` counts, the histogram stays sound:
-- its total is that of its counters, and its layout fits its indices.
pub record_n-IsSound :
    (h : Hist) (v count : ℕ) (h' : Hist)
    → IsSound h
    → v < 2 ^ 63
    → record_n h v count ≡ returned h'
    → IsSound h'
unfolding record_n grown
record_n-IsSound h v count h' sound small e =
    elim (Bool-cases (int64_lt (length h.b.counts) (counts_index h.b v) && h.cfg.auto_resize)) [
      | inl grow ↦
          let room = resize-IsRoom h v sound small (high grow) in
          stored_within-IsSound (resized h room.0) (counts_index h.b v) count room.1.sound
            (rw (grow, room.1.is) at e)
      | inr same ↦ stored_within-IsSound h (counts_index h.b v) count sound (rw same at e)
    ]
  where
    high :
        (int64_lt (length h.b.counts) (counts_index h.b v) && h.cfg.auto_resize) ≡ true
        → limit h.b ≤ v
    high grow = elim (le_or_lt (limit h.b) v) [
      | inl le ↦ le
      | inr lt ↦ absurd (
          true_not-false (
            sym grow
            ∙ ap (λ (t : Bool). t && h.cfg.auto_resize)
                (ge→int64_lt (length h.b.counts) (counts_index h.b v) (length-lt h sound)
                  (omega (arith, index-within h v count sound small lt)))))
    ]
