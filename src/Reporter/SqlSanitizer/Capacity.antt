-- ===== src/Reporter/SqlSanitizer/Capacity.antt =====
-- The stack: an iteration adds one rune at most, so that the buffer of one rune for each of the
-- statement's is never short, and the result stays within the limit.
use appoptics_apm_go.Base.{
  ◌-◌, drop, length-drop, length-reverse, ℕ, ◌+◌, ◌≤◌, ◌<◌, ◌≡◌, refl, arith, List, [], ◌∷◌, length,
  inl, inr, Bool-cases,
}
use appoptics_apm_go.Reporter.SqlSanitizer.{
  Unicode, SqlSanitizer, max_sql_len, Rune, FsmState, string_start, Scan, Input,
}
use appoptics_apm_go.Reporter.SqlSanitizer.Machine.{
  step_string_start, step_string_body, step_string_end, step_number, drop_prefix, step_identifier,
  step_quoted_identifier, step_default, step_in, step, is_full, scan, sanitize, input_of, initial,
}

module _ (x : Input) where
  length-pop : (s : Scan) → length (drop_prefix x s).stack ≤ length s.stack
  unfolding drop_prefix
  length-pop s = ground (arith, length-drop 1 s.stack, length-drop 1 (drop 1 s.stack))

  length-step_in :
      (q : FsmState) (i r : ℕ) (s : Scan) → length (step_in x q i r s).stack ≤ length s.stack + 1
  unfolding step_in step_string_start step_string_body step_string_end step_number step_identifier
      step_quoted_identifier step_default
  length-step_in string_start i r s = ground arith
  length-step_in _ i r s = ground (arith, length-pop s)

  -- With room for one more rune the length of the buffer plays no part.
  step_in-cap :
      (cap : ℕ) (q : FsmState) (i r : ℕ) (s : Scan)
      → length s.stack < cap
      → length s.stack < x.cap
      → step_in (record x { cap = cap }) q i r s ≡ step_in x q i r s
  unfolding step_in step_string_start step_string_body step_string_end step_number step_identifier
      step_quoted_identifier step_default drop_prefix
  step_in-cap cap string_start i r s h k = ground arith
  step_in-cap cap _ i r s h k = ground arith

  step-cap :
      (cap i r : ℕ) (s : Scan)
      → length s.stack < cap
      → length s.stack < x.cap
      → step (record x { cap = cap }) i r s ≡ step x i r s
  step-cap cap i r s = step_in-cap cap s.curr_state i r s

  pub length-step : (i r : ℕ) (s : Scan) → length (step x i r s).stack ≤ length s.stack + 1
  length-step i r s = length-step_in s.curr_state i r s

  -- The loop gives the same with every buffer that has room for the runes that are left.
  pub scan-cap :
      (cap i : ℕ) (rs : List Rune) (s : Scan)
      → length s.stack + length rs ≤ cap
      → length s.stack + length rs ≤ x.cap
      → scan (record x { cap = cap }) i rs s ≡ scan x i rs s
  unfolding scan
  scan-cap cap i [] s h k = refl
  scan-cap cap i (r ∷ rs) s h k = elim (Bool-cases (is_full x s)) [
    | inl full ↦ rw full (ground arith)
    | inr more ↦
        rw (more, step-cap cap i r.value s (omega arith) (omega arith))
          (scan-cap cap (i + r.width) rs (step x i r.value s)
            (omega (arith, length-step i r.value s)) (omega (arith, length-step i r.value s)))
  ]

  length-scan :
      (i : ℕ) (rs : List Rune) (s : Scan)
      → length s.stack ≤ max_sql_len - 1
      → (length (scan x i rs s).stack ≤ max_sql_len)
        × (length (scan x i rs s).stack ≤ length s.stack + length rs)
  unfolding scan
  length-scan i [] s h = omega arith
  length-scan i (r ∷ rs) s h = elim (Bool-cases (is_full x s)) [
    | inl full ↦ rw full (ground arith)
    | inr more ↦ rw more (
        omega (
          arith,
          length-step i r.value s,
          length-scan (i + r.width) rs (step x i r.value s)
              (ground (arith, length-step i r.value s)),
        ))
  ]

-- A sanitized statement has at most 2048 runes, the closing '…' included, and at most as many as
-- the statement.
pub length-sanitize :
    (u : Unicode) (san : SqlSanitizer) (sql : List Rune)
    → (length (sanitize u san sql) ≤ max_sql_len) × (length (sanitize u san sql) ≤ length sql)
unfolding sanitize
length-sanitize u san sql = omega (
  arith,
  length-reverse (scan (input_of u san sql) 0 sql initial).stack,
  length-scan (input_of u san sql) 0 sql initial (omega arith),
)
