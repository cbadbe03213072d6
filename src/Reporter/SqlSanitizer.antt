-- ===== src/Reporter/SqlSanitizer.antt =====
-- v1/ao/internal/reporter/sql_sanitizer.go: the state machine that takes literals out of a SQL
-- statement. A statement is the list of runes that `range sql` yields, each with its width in
-- bytes, so that text which is no valid UTF-8 is covered too.
pub mod Machine
pub mod Capacity
pub mod Context
pub mod Literals
pub mod Hidden
mod Runs
use appoptics_apm_go.Base.{
  ℕ, zero, suc, ◌+◌, Bool, true, false, not, ◌&&◌, ◌||◌, List, [], ◌∷◌, ◌++◌, map, Option, none,
  some, ltb, leb, ◌==◌, if◌then◌else◌, length, take, drop,
}
use appoptics_apm_go.Base.Text.{Text, codes, text_eq}

-- The tables of Go's package `unicode` that the sanitizer reads.
pub record Unicode : Type 0 where
  pub is_letter : ℕ → Bool
  pub is_digit : ℕ → Bool
  pub is_space : ℕ → Bool
  pub to_upper : ℕ → ℕ
  pub to_lower : ℕ → ℕ

pub record Rune : Type 0 where
  pub value : ℕ
  pub width : ℕ

abbrev pub disabled : ℕ
disabled = 0

abbrev pub enabled_auto : ℕ
enabled_auto = 1

abbrev pub enabled_drop_double_quoted : ℕ
enabled_drop_double_quoted = 2

abbrev pub enabled_keep_double_quoted : ℕ
enabled_keep_double_quoted = 3

abbrev pub postgresql : Text
postgresql = codes "postgresql"

abbrev pub oracle : Text
oracle = codes "oracle"

abbrev pub mysql : Text
mysql = codes "mysql"

abbrev pub sybase : Text
sybase = codes "sybase"

abbrev pub sql_server : Text
sql_server = codes "sqlserver"

abbrev pub default_db : Text
default_db = codes "default"

pub data FsmState : Type 0 where
  uninitialized copy copy_escape string_start string_body string_escape string_end : FsmState
  number numeric_extension identifier quoted_identifier quoted_identifier_escape : FsmState

abbrev pub replacement_rune : ℕ
replacement_rune = b'?'

abbrev pub escape_rune : ℕ
escape_rune = b'\\'

abbrev pub max_sql_len : ℕ
max_sql_len = 2048

-- '…'
abbrev pub ellipsis : ℕ
ellipsis = 0x2026

-- The keys of `SQLOperatorRunes`.
abbrev pub sql_operator_runes : List ℕ
sql_operator_runes = codes ".;(),+-*/|=!^><[]"

abbrev pub contains : List ℕ → ℕ → Bool
contains [] r = false
contains (x ∷ xs) r = x == r || contains xs r

-- A `map[rune]rune`; the constructor writes each key once.
abbrev pub Quotes : Type 0
Quotes = List (ℕ × ℕ)

abbrev pub closing_of : Quotes → ℕ → Option ℕ
closing_of [] r = none
closing_of ((k, v) ∷ m) r = if k == r then some v else closing_of m r

pub record SqlSanitizer : Type 0 where
  pub db_type : Text
  pub literal_quotes : Quotes
  pub identifier_quotes : Quotes

abbrev pair : ℕ → ℕ → Quotes
pair o c = (o, c) ∷ []

-- `NewSQLSanitizer`, with what each test adds to either map.
unfoldable pub new_sql_sanitizer : Unicode → Text → ℕ → SqlSanitizer
new_sql_sanitizer u db_type flag =
    let is = λ (t : Text). text_eq db_type t in
    let double_is_literal : Bool =
      if flag == enabled_drop_double_quoted
      then true
      else if flag == enabled_keep_double_quoted
      then false
      else not (is postgresql || is oracle) in
    let special : Quotes =
      if is mysql
      then pair b'`' b'`'
      else if is sybase || is sql_server
      then pair b'[' b']'
      else [] in
    let dollar : Quotes = if is postgresql then pair b'$' b'$' else [] in
    let double = λ (here : Bool). if here then pair b'"' b'"' else [] in
    record {
      db_type = map u.to_lower db_type;
      literal_quotes = pair b'\'' b'\'' ++ (double double_is_literal ++ dollar);
      identifier_quotes = double (not double_is_literal) ++ special;
    }

-- The variables of the loop in `Sanitize`. `stack` is `buffer[:runeCnt]`, its top first.
-- (`prevState` is written and never read.)
pub record Scan : Type 0 where
  pub curr_state : FsmState
  pub closing_quote : ℕ
  pub stack : List ℕ
  pub tag : List ℕ

-- `StackPush`: a push beyond the length of `buffer` is dropped.
abbrev pub push : ℕ → ℕ → Scan → Scan
push cap r s = if ltb (length s.stack) cap then record s { stack = r ∷ s.stack } else s

abbrev pub pop : Scan → Scan
pop s = record s { stack = drop 1 s.stack }

-- `StackPeek`: 0 where the stack is not that deep.
abbrev pub peek : ℕ → List ℕ → ℕ
peek d [] = 0
peek zero (x ∷ xs) = 0
peek (suc zero) (x ∷ xs) = x
peek (suc (suc d)) (x ∷ xs) = peek (suc d) xs

abbrev pub goto : FsmState → Scan → Scan
goto q s = record s { curr_state = q }

-- What an iteration sees besides its own state: the sanitizer, the statement as `[]rune(sql)`, and
-- the length of `buffer`.
pub record Input : Type 0 where
  pub unicode : Unicode
  pub sanitizer : SqlSanitizer
  pub sql : List ℕ
  pub cap : ℕ

abbrev pub is_dollar : Input → Scan → Bool
is_dollar x s = text_eq x.sanitizer.db_type postgresql && s.closing_quote == b'$'
