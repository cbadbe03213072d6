-- ===== src/Reporter/SqlSanitizer/Literals.antt =====
-- What stands between the quotes of a literal, step by step.
use appoptics_apm_go.Base.{
  ℕ, ◌≡◌, ◌≢◌, refl, ap, ◌∙◌, arith, List, [], ◌∷◌, ◌++◌, true, false, if◌then◌else◌, ◌==◌,
}
use appoptics_apm_go.Reporter.SqlSanitizer.{
  Rune, string_start, string_body, string_escape, string_end, Scan, Input, escape_rune, push, goto,
  ellipsis, replacement_rune,
}
use appoptics_apm_go.Reporter.SqlSanitizer.Machine.{
  step_string_start, step_string_body, step_string_end, step_in, step, is_full, scan,
}
use appoptics_apm_go.Reporter.SqlSanitizer.Context.{
  NoDollar, scan-context, scan_full, scan_next, scan_full_append,
}

-- What may stand between the quotes of a literal that `c` closes: escaped runes, and the quote
-- itself when it is doubled.
pub data IsBody (c : ℕ) : List Rune → Type 0 where
  done : IsBody c []
  plain :
      {r : Rune} {rs : List Rune}
      → r.value ≢ c
      → r.value ≢ escape_rune
      → IsBody c rs
      → IsBody c (r ∷ rs)
  escaped :
      {e r : Rune} {rs : List Rune} → e.value ≡ escape_rune → IsBody c rs → IsBody c (e ∷ r ∷ rs)
  doubled :
      {p r : Rune} {rs : List Rune}
      → p.value ≡ c
      → r.value ≡ c
      → IsBody c rs
      → IsBody c (p ∷ r ∷ rs)

module _ (x : Input) (no_dollar : NoDollar x.sanitizer) where
  -- The steps inside a literal that is closed by `c`.
  module _ (c : ℕ) (not_escape : c ≢ escape_rune) (not_dollar : c ≢ b'$') (i r : ℕ) (s : Scan)
      (hc : s.closing_quote ≡ c) where
    body_plain : s.curr_state ≡ string_body → r ≢ c → r ≢ escape_rune → step x i r s ≡ s
    unfolding step_in step_string_body
    body_plain hs h k = ground arith

    body_escape : s.curr_state ≡ string_body → r ≡ escape_rune → step x i r s ≡ goto string_escape s
    unfolding step_in step_string_body
    body_escape hs h = ground arith

    body_quote : s.curr_state ≡ string_body → r ≡ c → step x i r s ≡ goto string_end s
    unfolding step_in step_string_body
    body_quote hs h = ground arith

    escape_any : s.curr_state ≡ string_body → step x i r (goto string_escape s) ≡ s
    unfolding step_in
    escape_any hs = ground arith

    end_quote : s.curr_state ≡ string_body → r ≡ c → step x i r (goto string_end s) ≡ s
    unfolding step_in step_string_end
    end_quote hs h = ground arith

  module _ (c : ℕ) (not_escape : c ≢ escape_rune) (not_dollar : c ≢ b'$') where
    -- Inside a literal the stack stays as it is up to the closing quote.
    scan_body :
        {body : List Rune} (i j : ℕ) (q : Rune) (rest : List Rune) (s : Scan)
        → IsBody c body
        → is_full x s ≡ false
        → s.closing_quote ≡ c
        → s.curr_state ≡ string_body
        → scan x i (body ++ (q ∷ rest)) s ≡ scan x j (q ∷ rest) s
    scan_body i j q rest s done more hc hs = scan-context x no_dollar x.sql i j (q ∷ rest) s
    scan_body i j q rest s (plain {r} {rs} h k b) more hc hs =
        scan_next x no_dollar i j r _ s more
          (body_plain c not_escape not_dollar i r.value s hc hs h k)
        ∙ scan_body j j q rest s b more hc hs
    scan_body i j q rest s (escaped {e} {r} {rs} h b) more hc hs =
        scan_next x no_dollar i j e _ s more
          (body_escape c not_escape not_dollar i e.value s hc hs h)
        ∙ scan_next x no_dollar j j r _ (goto string_escape s) more
            (escape_any c not_escape not_dollar j r.value s hc hs)
        ∙ scan_body j j q rest s b more hc hs
    scan_body i j q rest s (doubled {p} {r} {rs} h k b) more hc hs =
        scan_next x no_dollar i j p _ s more
          (body_quote c not_escape not_dollar i p.value s hc hs h)
        ∙ scan_next x no_dollar j j r _ (goto string_end s) more
            (end_quote c not_escape not_dollar j r.value s hc hs k)
        ∙ scan_body j j q rest s b more hc hs

  -- The state behind the opening quote and one more rune, which stands for the whole literal.
  abbrev pub opened : Scan → Scan
  opened s = goto string_body (push x.cap replacement_rune s)

  start_step :
      (i r : ℕ) (s : Scan)
      → s.curr_state ≡ string_start
      → step x i r s
        ≡ goto
            (if r == s.closing_quote
              then string_end
              else if r == escape_rune
              then string_escape
              else string_body)
            (opened s)
  unfolding step_in step_string_start
  start_step i r s hs = ground arith

  module _ (c : ℕ) (not_escape : c ≢ escape_rune) (not_dollar : c ≢ b'$') where
    -- A literal that is not empty leaves one placeholder, whatever it holds.
    pub scan_start :
        {body : List Rune} (i : ℕ) (q : Rune) (rest : List Rune) (s : Scan)
        → IsBody c body
        → body ≢ []
        → is_full x s ≡ false
        → s.closing_quote ≡ c
        → s.curr_state ≡ string_start
        → is_full x (opened s) ≡ false
        → scan x i (body ++ (q ∷ rest)) s ≡ scan x 0 (q ∷ rest) (opened s)
    scan_start i q rest s done ne more hc hs room = absurd (ne refl)
    scan_start i q rest s (plain {r} {rs} h k b) ne more hc hs room =
        scan_next x no_dollar i 0 r _ s more (start_step i r.value s hs ∙ ground arith)
        ∙ scan_body c not_escape not_dollar 0 0 q rest (opened s) b room (ground arith) refl
    scan_start i q rest s (escaped {e} {r} {rs} h b) ne more hc hs room =
        scan_next x no_dollar i 0 e _ s {t = goto string_escape (opened s)} more
          (start_step i e.value s hs ∙ ground arith)
        ∙ scan_next x no_dollar 0 0 r _ (goto string_escape (opened s)) room
            (escape_any c not_escape not_dollar 0 r.value (opened s) (ground arith) refl)
        ∙ scan_body c not_escape not_dollar 0 0 q rest (opened s) b room (ground arith) refl
    scan_start i q rest s (doubled {p} {r} {rs} h k b) ne more hc hs room =
        scan_next x no_dollar i 0 p _ s {t = goto string_end (opened s)} more
          (start_step i p.value s hs ∙ ground arith)
        ∙ scan_next x no_dollar 0 0 r _ (goto string_end (opened s)) room
            (end_quote c not_escape not_dollar 0 r.value (opened s) (ground arith) refl k)
        ∙ scan_body c not_escape not_dollar 0 0 q rest (opened s) b room (ground arith) refl

    -- Where the placeholder fills the statement up, the rest of the literal is cut off.
    pub scan_start_full :
        {body : List Rune} (i : ℕ) (q : Rune) (rest : List Rune) (s : Scan)
        → IsBody c body
        → body ≢ []
        → is_full x s ≡ false
        → s.closing_quote ≡ c
        → s.curr_state ≡ string_start
        → is_full x (opened s) ≡ true
        → (scan x i (body ++ (q ∷ rest)) s).stack ≡ (push x.cap ellipsis (opened s)).stack
    scan_start_full i q rest s done ne more hc hs room = absurd (ne refl)
    scan_start_full i q rest s (plain {r} {rs} h k b) ne more hc hs room =
        ap (λ (t : Scan). t.stack)
          (scan_next x no_dollar i 0 r _ s more (start_step i r.value s hs ∙ ground arith)
            ∙ scan_full_append x no_dollar 0 rs q rest (opened s) room)
    scan_start_full i q rest s (escaped {e} {r} {rs} h b) ne more hc hs room =
        ap (λ (t : Scan). t.stack)
          (scan_next x no_dollar i 0 e _ s {t = goto string_escape (opened s)} more
              (start_step i e.value s hs ∙ ground arith)
            ∙ scan_full x no_dollar 0 r _ (goto string_escape (opened s)) room)
        ∙ ground arith
    scan_start_full i q rest s (doubled {p} {r} {rs} h k b) ne more hc hs room =
        ap (λ (t : Scan). t.stack)
          (scan_next x no_dollar i 0 p _ s {t = goto string_end (opened s)} more
              (start_step i p.value s hs ∙ ground arith)
            ∙ scan_full x no_dollar 0 r _ (goto string_end (opened s)) room)
        ∙ ground arith
