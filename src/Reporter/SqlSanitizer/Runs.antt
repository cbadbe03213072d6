-- ===== src/Reporter/SqlSanitizer/Runs.antt =====
-- Statements of the source's own tests, and the theorems at concrete inputs.
use appoptics_apm_go.Base.{ℕ, ◌≡◌, refl, arith, List, [], ◌∷◌, ◌++◌, ◌&&◌, ◌||◌, leb, ◌==◌}
use appoptics_apm_go.Base.{◌≤◌, length, inl, ◌-◌, if◌then◌else◌, ◌+◌}
use appoptics_apm_go.Base.Text.{codes}
use appoptics_apm_go.Reporter.SqlSanitizer.{
  Unicode, Rune, SqlSanitizer, new_sql_sanitizer, postgresql, mysql, enabled_auto,
}
use appoptics_apm_go.Reporter.SqlSanitizer.Machine.{
  sanitize, scan, step_in, step_default, step_string_start, step_string_body, step_string_end,
  step_identifier, drop_prefix, step_number, step_quoted_identifier,
}
use appoptics_apm_go.Reporter.SqlSanitizer.Capacity.{length-sanitize}
use appoptics_apm_go.Reporter.SqlSanitizer.Literals.{IsBody, done, plain, escaped, doubled}
use appoptics_apm_go.Reporter.SqlSanitizer.Hidden.{sanitize_hides_literals}

-- The tables at ASCII runes.
abbrev ascii : Unicode
ascii = record {
  is_letter = λ r. leb b'a' r && leb r b'z' || leb b'A' r && leb r b'Z';
  is_digit = λ r. leb b'0' r && leb r b'9';
  is_space = λ r. leb 9 r && leb r 13 || r == 32;
  to_upper = λ r. if leb b'a' r && leb r b'z' then r - 32 else r;
  to_lower = λ r. if leb b'A' r && leb r b'Z' then r + 32 else r;
}

abbrev runes : List ℕ → List Rune
runes [] = []
runes (c ∷ s) = record { value = c; width = 1 } ∷ runes s

abbrev mysql_sanitizer : SqlSanitizer
unfolding new_sql_sanitizer
mysql_sanitizer = new_sql_sanitizer ascii mysql enabled_auto

select_where :
    sanitize ascii mysql_sanitizer (runes (codes "select ssn from t where name=\"Chris O'Corner\""))
    ≡ codes "select ssn from t where name=?"
unfolding sanitize new_sql_sanitizer scan step_in step_default step_string_start step_string_body
    step_string_end step_identifier drop_prefix
select_where = refl

update_number :
    sanitize ascii mysql_sanitizer (runes (codes "update t set a=1234.5E10, `b\"`=X'FF' where c"))
    ≡ codes "update t set a=?, `b\"`=? where c"
unfolding sanitize new_sql_sanitizer scan step_in step_default step_string_start step_string_body
    step_string_end step_identifier drop_prefix step_number step_quoted_identifier
update_number = refl

postgres_dollar :
    sanitize ascii
      (new_sql_sanitizer ascii postgresql enabled_auto)
      (runes (codes "select $tag$ secret $tag$ from \"t\""))
    ≡ codes "select ? from \"t\""
unfolding sanitize new_sql_sanitizer scan step_in step_default step_string_start step_string_body
    step_string_end step_identifier drop_prefix step_quoted_identifier
postgres_dollar = refl

length-sanitize_example :
    (length (sanitize ascii mysql_sanitizer (runes (codes "a=1"))) ≤ 2048)
    × (length (sanitize ascii mysql_sanitizer (runes (codes "a=1"))) ≤ 3)
length-sanitize_example = length-sanitize ascii mysql_sanitizer (runes (codes "a=1"))

abbrev quote : Rune
quote = record { value = b'\''; width = 1 }

x-IsBody : IsBody b'\'' (runes (codes "x"))
x-IsBody = plain (omega arith) (omega arith) done

escaped-IsBody : IsBody b'\'' (runes (codes "\\'''"))
escaped-IsBody = escaped refl (doubled refl refl done)

sanitize_hides_literals_example :
    sanitize ascii mysql_sanitizer
      (runes (codes "a=") ++ (quote ∷ (runes (codes "x") ++ (quote ∷ []))))
    ≡ sanitize ascii mysql_sanitizer
        (runes (codes "a=") ++ (quote ∷ (runes (codes "\\'''") ++ (quote ∷ []))))
unfolding new_sql_sanitizer scan step_in step_default step_identifier
sanitize_hides_literals_example =
    sanitize_hides_literals ascii mysql_sanitizer (runes (codes "a=")) (runes (codes "x"))
      (runes (codes "\\'''")) [] quote quote b'\'' refl (omega arith) (omega arith) refl (inl refl)
      x-IsBody escaped-IsBody (λ e. cc) (λ e. cc)
