-- ===== src/Reporter/SqlSanitizer/Machine.antt =====
-- The loop of `Sanitize`, one function for each case of its switch, and the choice of a sanitizer.
use mathlib.Core.List.{reverse}
use appoptics_apm_go.Base.{
  ℕ, ◌+◌, ◌-◌, Bool, not, ◌&&◌, ◌||◌, List, [], ◌∷◌, ◌++◌, map, Option, none, some, leb, ◌==◌,
  if◌then◌else◌, length, take, drop,
}
use appoptics_apm_go.Base.Text.{Text, text_eq}
use appoptics_apm_go.Reporter.SqlSanitizer.{
  Unicode, Rune, disabled, postgresql, oracle, mysql, sybase, sql_server, default_db, FsmState,
  uninitialized, copy, copy_escape, string_start, string_body, string_escape, string_end, number,
  numeric_extension, identifier, quoted_identifier, quoted_identifier_escape, replacement_rune,
  escape_rune, max_sql_len, ellipsis, sql_operator_runes, contains, closing_of, SqlSanitizer,
  new_sql_sanitizer, Scan, push, pop, peek, goto, Input, is_dollar,
}

module _ (x : Input) where
  unfoldable pub step_string_start : ℕ → Scan → Scan
  step_string_start r s =
      if is_dollar x s
      then (let s' = if r == b'$' then push x.cap replacement_rune (goto string_body s) else s in
          record s' { tag = s'.tag ++ (r ∷ []) })
      else goto
          (if r == s.closing_quote
            then string_end
            else if r == escape_rune
            then string_escape
            else string_body)
          (push x.cap replacement_rune s)

  -- A '$' inside a dollar-quoted literal that is not followed by the rest of the tag. The slice
  -- bounds count runes, while `i` counts bytes.
  unfoldable pub is_inner_dollar : ℕ → Scan → Bool
  is_inner_dollar i s =
      is_dollar x s
      && leb (i + length s.tag) (length x.sql)
      && not (text_eq s.tag (take (length s.tag) (drop i x.sql)))

  unfoldable pub step_string_body : ℕ → ℕ → Scan → Scan
  unfolding is_inner_dollar
  step_string_body i r s =
      if r == s.closing_quote
      then (if is_inner_dollar i s
          then s
          else goto string_end (if is_dollar x s then record s { tag = b'$' ∷ [] } else s))
      else if r == escape_rune && not (s.closing_quote == b'$')
      then goto string_escape s
      else s

  unfoldable pub step_string_end : ℕ → Scan → Scan
  step_string_end r s =
      if is_dollar x s
      then (if r == b'$' then goto copy s else s)
      else if r == s.closing_quote
      then goto string_body s
      else push x.cap r (goto copy s)

  unfoldable pub step_number : ℕ → Scan → Scan
  step_number r s =
      if not (x.unicode.is_digit r)
      then (if r == b'.' || r == b'E' then goto numeric_extension s else push x.cap r (goto copy s))
      else s

  -- Takes the prefix of a literal such as X'FEFF' or U&'\0441' off the stack.
  unfoldable pub drop_prefix : Scan → Scan
  drop_prefix s =
      let top1 = x.unicode.to_upper (peek 1 s.stack) in
      let top2 = x.unicode.to_upper (peek 2 s.stack) in
      if top1 == b'X' || top1 == b'B' || top1 == b'U' || top1 == b'N'
      then pop s
      else if top1 == b'&' && top2 == b'U'
      then pop (pop s)
      else s

  unfoldable pub step_identifier : ℕ → Scan → Scan
  step_identifier r s = elim (closing_of x.sanitizer.literal_quotes r) [
    | some c ↦ record (drop_prefix s) { closing_quote = c; curr_state = string_start }
    | none ↦
        let s' = push x.cap r s in
        if x.unicode.is_space r || contains sql_operator_runes r then goto copy s' else s'
  ]

  unfoldable pub step_quoted_identifier : ℕ → Scan → Scan
  step_quoted_identifier r s =
      let s' = push x.cap r s in
      if r == s.closing_quote
      then goto copy s'
      else if r == escape_rune
      then goto quoted_identifier_escape s'
      else s'

  -- The runes of the default case that open no literal and no quoted identifier.
  unfoldable pub step_plain : ℕ → Scan → Scan
  step_plain r s =
      if r == escape_rune
      then goto copy_escape (push x.cap r s)
      else if x.unicode.is_letter r || r == b'_'
      then goto identifier (push x.cap r s)
      else if x.unicode.is_digit r
      then goto number (push x.cap replacement_rune s)
      else push x.cap r s

  unfoldable pub step_default : ℕ → Scan → Scan
  unfolding step_plain
  step_default r s = elim (closing_of x.sanitizer.literal_quotes r) [
    | some c ↦ record s { closing_quote = c; curr_state = string_start }
    | none ↦ elim (closing_of x.sanitizer.identifier_quotes r) [
      | some c ↦ record (push x.cap r s) { closing_quote = c; curr_state = quoted_identifier }
      | none ↦ step_plain r s
    ]
  ]

  -- The switch; `i` is the byte offset of the rune `r`.
  unfoldable pub step_in : FsmState → ℕ → ℕ → Scan → Scan
  step_in string_start i r s = step_string_start r s
  step_in string_body i r s = step_string_body i r s
  step_in string_escape i r s = goto string_body s
  step_in string_end i r s = step_string_end r s
  step_in copy_escape i r s = goto copy (push x.cap r s)
  step_in number i r s = step_number r s
  step_in numeric_extension i r s = goto number s
  step_in identifier i r s = step_identifier r s
  step_in quoted_identifier i r s = step_quoted_identifier r s
  step_in quoted_identifier_escape i r s = goto quoted_identifier (push x.cap r s)
  step_in uninitialized i r s = step_default r s
  step_in copy i r s = step_default r s

  abbrev pub step : ℕ → ℕ → Scan → Scan
  step i r s = step_in s.curr_state i r s

  abbrev pub is_full : Scan → Bool
  is_full s = leb (max_sql_len - 1) (length s.stack)

  -- The loop, from byte offset `i` on.
  unfoldable pub scan : ℕ → List Rune → Scan → Scan
  scan i [] s = s
  scan i (r ∷ rs) s =
      if is_full s then push x.cap ellipsis s else scan (i + r.width) rs (step i r.value s)

abbrev pub initial : Scan
initial = record { curr_state = copy; closing_quote = 0; stack = []; tag = b'$' ∷ [] }

abbrev pub runes_of : List Rune → List ℕ
runes_of [] = []
runes_of (r ∷ rs) = r.value ∷ runes_of rs

abbrev pub input_of : Unicode → SqlSanitizer → List Rune → Input
input_of u s sql = record { unicode = u; sanitizer = s; sql = runes_of sql; cap = length sql }

unfoldable pub sanitize : Unicode → SqlSanitizer → List Rune → List ℕ
sanitize u s sql = reverse (scan (input_of u s sql) 0 sql initial).stack

-- `initSanitizersMap`; `none` is the nil map.
abbrev pub Sanitizers : Type 0
Sanitizers = List (Text × SqlSanitizer)

unfoldable pub init_sanitizers_map : Unicode → ℕ → Option Sanitizers
init_sanitizers_map u flag =
    if flag == disabled
    then none
    else some (
        map (λ t. (t, new_sql_sanitizer u t flag))
          (postgresql ∷ oracle ∷ mysql ∷ sybase ∷ sql_server ∷ default_db ∷ []))

unfoldable pub sanitizer_of : Text → Sanitizers → Option SqlSanitizer
sanitizer_of t [] = none
sanitizer_of t ((k, s) ∷ m) = if text_eq k t then some s else sanitizer_of t m

-- `sqlSanitize`. The outer `none` is the nil dereference of a map without the default sanitizer.
unfoldable pub sql_sanitize : Unicode → Option Sanitizers → Text → List Rune → Option (List ℕ)
sql_sanitize u none db_type sql = some (runes_of sql)
sql_sanitize u (some ss) db_type sql = elim (sanitizer_of db_type ss) [
  | some s ↦ some (sanitize u s sql)
  | none ↦ elim (sanitizer_of default_db ss) [ some s ↦ some (sanitize u s sql) | none ↦ none ]
]
