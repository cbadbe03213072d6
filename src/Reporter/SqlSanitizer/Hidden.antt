-- ===== src/Reporter/SqlSanitizer/Hidden.antt =====
-- A sanitized statement does not depend on what its literals hold.
use appoptics_apm_go.Base.{
  ℕ, ◌+◌, ◌≡◌, ◌≢◌, refl, sym, ap, ◌∙◌, ◌⊎◌, inl, inr, arith, List, [], ◌∷◌, ◌++◌, length,
  Bool-cases, some, length-append,
}
use mathlib.Core.List.{reverse}
use appoptics_apm_go.Reporter.SqlSanitizer.{
  Unicode, SqlSanitizer, Rune, FsmState, string_start, copy, identifier, Scan, Input, escape_rune,
  closing_of,
}
use appoptics_apm_go.Reporter.SqlSanitizer.Machine.{
  step_identifier, step_default, step_in, step, is_full, scan, sanitize, input_of, initial,
}
use appoptics_apm_go.Reporter.SqlSanitizer.Context.{
  NoDollar, scan-context, scan_full, scan_next, scan_full_append, scan-input_of,
}
use appoptics_apm_go.Reporter.SqlSanitizer.Literals.{IsBody, opened, scan_start, scan_start_full}

-- The states of the machine in which a quote opens a literal.
abbrev pub OpensLiteral : FsmState → Type 0
OpensLiteral q = (q ≡ copy) ⊎ (q ≡ identifier)

module _ (x : Input) (no_dollar : NoDollar x.sanitizer) where
  -- A common front makes no difference.
  scan_prefix :
      (i : ℕ) (pre ys zs : List Rune) (s : Scan)
      → (scan x 0 ys (scan x i pre s)).stack ≡ (scan x 0 zs (scan x i pre s)).stack
      → (scan x i (pre ++ ys) s).stack ≡ (scan x i (pre ++ zs) s).stack
  unfolding scan
  scan_prefix i [] ys zs s h =
      ap (λ (t : Scan). t.stack) (scan-context x no_dollar x.sql i 0 ys s)
      ∙ h
      ∙ ap (λ (t : Scan). t.stack) (scan-context x no_dollar x.sql 0 i zs s)
  scan_prefix i (r ∷ pre) ys zs s h = elim (Bool-cases (is_full x s)) [
    | inl full ↦ rw full
    | inr more ↦ rw more (scan_prefix (i + r.width) pre ys zs (step x i r.value s) (rw more at h))
  ]

  open_step :
      (i o c : ℕ) (s : Scan)
      → OpensLiteral s.curr_state
      → closing_of x.sanitizer.literal_quotes o ≡ some c
      → ((step x i o s).curr_state ≡ string_start) × ((step x i o s).closing_quote ≡ c)
  unfolding step_in step_identifier step_default
  open_step i o c s h k = ground arith

  -- Behind its opening quote.
  module _ (c : ℕ) (not_escape : c ≢ escape_rune) (not_dollar : c ≢ b'$') (body body' : List Rune)
      (hb : IsBody c body) (hb' : IsBody c body') (ne : body ≢ []) (ne' : body' ≢ []) (q : Rune)
      (rest : List Rune) where
    start_hidden :
        (s : Scan)
        → s.closing_quote ≡ c
        → s.curr_state ≡ string_start
        → (scan x 0 (body ++ (q ∷ rest)) s).stack ≡ (scan x 0 (body' ++ (q ∷ rest)) s).stack
    start_hidden s hc hs = elim (Bool-cases (is_full x s)) [
      | inl full ↦
          rw (scan_full_append x no_dollar 0 body q rest s full)
            (rw (scan_full_append x no_dollar 0 body' q rest s full))
      | inr more ↦ elim (Bool-cases (is_full x (opened x no_dollar s))) [
        | inl full ↦
            scan_start_full x no_dollar c not_escape not_dollar 0 q rest s hb ne more hc hs full
            ∙ sym (
                scan_start_full x no_dollar c not_escape not_dollar 0 q rest s hb' ne' more hc hs
                  full)
        | inr room ↦
            ap (λ (t : Scan). t.stack)
              (scan_start x no_dollar c not_escape not_dollar 0 q rest s hb ne more hc hs room
                ∙ sym (
                    scan_start x no_dollar c not_escape not_dollar 0 q rest s hb' ne' more hc hs
                      room))
      ]
    ]

    quote_hidden :
        (o : Rune) (s : Scan)
        → OpensLiteral s.curr_state
        → closing_of x.sanitizer.literal_quotes o.value ≡ some c
        → (scan x 0 (o ∷ (body ++ (q ∷ rest))) s).stack
          ≡ (scan x 0 (o ∷ (body' ++ (q ∷ rest))) s).stack
    quote_hidden o s h k = elim (Bool-cases (is_full x s)) [
      | inl full ↦
          rw (scan_full x no_dollar 0 o (body ++ (q ∷ rest)) s full)
            (rw (scan_full x no_dollar 0 o (body' ++ (q ∷ rest)) s full))
      | inr more ↦
          let (started, closing) = open_step 0 o.value c s h k in
          rw (scan_next x no_dollar 0 0 o (body ++ (q ∷ rest)) s more refl) (
            rw (scan_next x no_dollar 0 0 o (body' ++ (q ∷ rest)) s more refl)
              (start_hidden (step x 0 o.value s) closing started))
    ]

-- The state of the machine behind the runes `pre`.
abbrev pub state_after : Unicode → SqlSanitizer → List Rune → FsmState
state_after u san pre = (scan (input_of u san pre) 0 pre initial).curr_state

-- Away from PostgreSQL: where the quote `o` opens a literal that `c` closes (`c` neither a backslash
-- nor a dollar), two bodies of a literal that are not empty give the same sanitized statement, if
-- what stands before and behind them is the same.
pub sanitize_hides_literals :
    (u : Unicode) (san : SqlSanitizer) (pre body body' rest : List Rune) (o q : Rune) (c : ℕ)
    → NoDollar san
    → c ≢ escape_rune
    → c ≢ b'$'
    → closing_of san.literal_quotes o.value ≡ some c
    → OpensLiteral (state_after u san pre)
    → IsBody c body
    → IsBody c body'
    → body ≢ []
    → body' ≢ []
    → sanitize u san (pre ++ (o ∷ (body ++ (q ∷ rest))))
      ≡ sanitize u san (pre ++ (o ∷ (body' ++ (q ∷ rest))))
unfolding sanitize
sanitize_hides_literals u san pre body body' rest o q c no_dollar esc dol k opens hb hb' ne ne' =
    let one = pre ++ (o ∷ (body ++ (q ∷ rest))) in
    let two = pre ++ (o ∷ (body' ++ (q ∷ rest))) in
    let n = length one + length two in
    let x : Input = record { unicode = u; sanitizer = san; sql = []; cap = n } in
    ap (λ (t : Scan). reverse t.stack) (scan-input_of u san no_dollar one n (omega arith))
    ∙ ap reverse (
        scan_prefix x no_dollar 0 pre _ _ initial (
          quote_hidden x no_dollar c esc dol body body' hb hb' ne ne' q rest o _
            (rw
              (← scan-input_of u san no_dollar pre n
                (omega (arith, length-append pre (o ∷ (body ++ (q ∷ rest))))))
              opens)
            k))
    ∙ ap (λ (t : Scan). reverse t.stack) (sym (scan-input_of u san no_dollar two n (omega arith)))
