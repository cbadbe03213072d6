-- ===== src/Reporter/SqlSanitizer/Context.antt =====
-- The loop as a function of its state alone, away from the dollar-quoted literals of PostgreSQL.
use appoptics_apm_go.Base.{
  ℕ, ◌+◌, ◌≤◌, ◌≡◌, refl, sym, ◌∙◌, inl, inr, arith, List, [], ◌∷◌, ◌++◌, length, true, false,
  Bool-cases,
}
use appoptics_apm_go.Base.Text.{text_eq}
use appoptics_apm_go.Reporter.SqlSanitizer.{
  Unicode, SqlSanitizer, Rune, FsmState, string_start, Scan, Input, postgresql, push, ellipsis,
}
use appoptics_apm_go.Reporter.SqlSanitizer.Machine.{
  step_string_start, step_string_body, step_string_end, step_number, step_identifier, drop_prefix,
  step_quoted_identifier, step_default, step_in, step, is_full, scan, input_of, initial, runes_of,
}
use appoptics_apm_go.Reporter.SqlSanitizer.Capacity.{scan-cap}

-- Away from PostgreSQL neither the offset nor the statement as a whole plays a part.
abbrev pub NoDollar : SqlSanitizer → Type 0
NoDollar san = text_eq san.db_type postgresql ≡ false

module _ (x : Input) (no_dollar : NoDollar x.sanitizer) where
  step_in-context :
      (sql : List ℕ) (q : FsmState) (i j r : ℕ) (s : Scan)
      → step_in (record x { sql = sql }) q i r s ≡ step_in x q j r s
  unfolding step_in step_string_start step_string_body step_string_end step_number step_identifier
      step_quoted_identifier step_default drop_prefix
  step_in-context sql string_start i j r s = ground arith
  step_in-context sql _ i j r s = ground arith

  step-context :
      (sql : List ℕ) (i j r : ℕ) (s : Scan) → step (record x { sql = sql }) i r s ≡ step x j r s
  step-context sql i j r s = step_in-context sql s.curr_state i j r s

  pub scan-context :
      (sql : List ℕ) (i j : ℕ) (rs : List Rune) (s : Scan)
      → scan (record x { sql = sql }) i rs s ≡ scan x j rs s
  unfolding scan
  scan-context sql i j [] s = refl
  scan-context sql i j (r ∷ rs) s = elim (Bool-cases (is_full x s)) [
    | inl full ↦ rw full
    | inr more ↦
        rw (more, step-context sql i j r.value s)
          (scan-context sql (i + r.width) (j + r.width) rs (step x j r.value s))
  ]

  pub scan_full :
      (i : ℕ) (r : Rune) (rs : List Rune) (s : Scan)
      → is_full x s ≡ true
      → scan x i (r ∷ rs) s ≡ push x.cap ellipsis s
  unfolding scan
  scan_full i r rs s full = rw full

  -- One iteration.
  pub scan_next :
      (i j : ℕ) (r : Rune) (rs : List Rune) (s : Scan) {t : Scan}
      → is_full x s ≡ false
      → step x i r.value s ≡ t
      → scan x i (r ∷ rs) s ≡ scan x j rs t
  unfolding scan
  scan_next i j r rs s more e = rw (more, e) (scan-context x.sql (i + r.width) j rs _)

  pub scan_full_append :
      (i : ℕ) (ys : List Rune) (q : Rune) (rest : List Rune) (s : Scan)
      → is_full x s ≡ true
      → scan x i (ys ++ (q ∷ rest)) s ≡ push x.cap ellipsis s
  scan_full_append i [] q rest s full = scan_full i q rest s full
  scan_full_append i (y ∷ ys) q rest s full = scan_full i y _ s full

-- A run on an input that is a part of a longer one, with a buffer for the longer one.
pub scan-input_of :
    (u : Unicode) (san : SqlSanitizer) (no_dollar : NoDollar san) (sql : List Rune) (n : ℕ)
    → length sql ≤ n
    → scan (input_of u san sql) 0 sql initial
      ≡ scan (record { unicode = u; sanitizer = san; sql = []; cap = n }) 0 sql initial
scan-input_of u san no_dollar sql n h =
    sym (scan-cap (input_of u san sql) n 0 sql initial (omega arith) (omega arith))
    ∙ scan-context (record { unicode = u; sanitizer = san; sql = []; cap = n }) no_dollar
        (runes_of sql) 0 0 sql initial
