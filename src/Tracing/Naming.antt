-- ===== src/Tracing/Naming.antt =====
-- v1/ao/trace.go: the name of a transaction, and what its HTTP span takes from the arguments of
-- its end; v1/ao/internal/metrics/metrics.go: the name that a path gives.
pub mod Named
mod Runs
use package.appoptics_apm_go.Base.{
  ℕ, zero, suc, ◌+◌, ◌-◌, Bool, true, false, not, ◌&&◌, ◌||◌, List, [], ◌∷◌, ◌++◌, Option, none,
  some, leb, ltb, ◌==◌, if◌then◌else◌, length, take,
}
use package.appoptics_apm_go.Base.Text.{Text, codes, text_eq}
use package.appoptics_apm_go.Base.Split.{split}
use package.appoptics_apm_go.Base.Options.{◌>>=◌}
use package.appoptics_apm_go.Tracing.{Arg, HttpSpan, TraceHttpSpan}
use package.appoptics_apm_go.Tracing.Arg.{text, number, number_at, flag, other}

abbrev pub slash : ℕ
slash = 0x2f

abbrev pub is_empty : Text → Bool
is_empty [] = true
is_empty (c ∷ s) = false

abbrev pub join_slash : List Text → Text
join_slash [] = []
join_slash (field ∷ []) = field
join_slash (field ∷ next ∷ fields) = field ++ (slash ∷ join_slash (next ∷ fields))

abbrev pub max_path_len_for_transaction_name : ℕ
max_path_len_for_transaction_name = 3

unfoldable pub get_transaction_from_path : Text → Text
get_transaction_from_path path =
    if is_empty path || text_eq path (slash ∷ [])
    then slash ∷ []
    else join_slash (take max_path_len_for_transaction_name (split slash path))

-- `strings.HasPrefix` and `strings.HasSuffix` with "/".
abbrev pub starts_with_slash : Text → Bool
starts_with_slash [] = false
starts_with_slash (c ∷ s) = c == slash

abbrev pub ends_with_slash : Text → Bool
ends_with_slash [] = false
ends_with_slash (c ∷ []) = c == slash
ends_with_slash (c ∷ d ∷ s) = ends_with_slash (d ∷ s)

unfoldable pub prepend_domain_to_txn_name : Bool → Text → Text → Text
prepend_domain_to_txn_name prepend host name =
    if not prepend || is_empty host
    then name
    else if ends_with_slash host || starts_with_slash name
    then host ++ name
    else host ++ (slash ∷ name)

abbrev pub dotted : Text → Text → Text
dotted controller action = controller ++ (0x2e ∷ action)

-- The name by its sources, in order of precedence; `kept` is the span's own name where none has one.
unfoldable pub chosen_name : Text → TraceHttpSpan → Text → Text → Text
chosen_name custom http controller action =
    if not (is_empty custom)
    then custom
    else if not (is_empty http.controller) && not (is_empty http.action)
    then dotted http.controller http.action
    else if not (is_empty controller) && not (is_empty action)
    then dotted controller action
    else if not (is_empty http.span.path)
    then get_transaction_from_path http.span.path
    else http.span.transaction

-- `config_name` and `prepend` are settings of the configuration, `context_name` the name that the
-- context has.
unfoldable pub finalize_txn_name :
    Text → Bool → Text → Text → TraceHttpSpan → Text → Text → TraceHttpSpan
finalize_txn_name config_name prepend context_name layer http controller action =
    let custom = if is_empty config_name then context_name else config_name in
    let chosen = chosen_name custom http controller action in
    let name = if is_empty chosen then codes "custom-" ++ layer else chosen in
    record http {
      span = record http.span {
        transaction = prepend_domain_to_txn_name prepend http.span.host name;
      };
    }

-- What the loop over the end arguments has found: the status, the controller and the action.
pub record Found : Type 0 where
  pub status : ℕ
  pub controller : Text
  pub action : Text

abbrev pub status_of : ℕ → Arg → Option ℕ
status_of status (text s) = some status
status_of status (number n) = some n
status_of status (number_at none) = none
status_of status (number_at (some n)) = some n
status_of status (flag b) = some status
status_of status (other n) = some status

-- A type assertion to `string`, with its panic.
abbrev pub asserted : Arg → Option Text
asserted (text s) = some s
asserted (number n) = none
asserted (number_at n) = none
asserted (flag b) = none
asserted (other n) = none

abbrev pub is_key : Text → Arg → Bool
is_key key (text s) = text_eq s key
is_key key (number n) = false
is_key key (number_at n) = false
is_key key (flag b) = false
is_key key (other n) = false

pub data Key : Type 0 where
  status_key controller_key action_key other_key : Key

abbrev pub key_of : Arg → Key
key_of k =
    if is_key (codes "Status") k
    then Key.status_key
    else if is_key (codes "Controller") k
    then Key.controller_key
    else if is_key (codes "Action") k
    then Key.action_key
    else Key.other_key

-- The first three pairs with one of the keys count; `none` is a panic.
unfoldable pub find_in : ℕ → List Arg → Found → Option Found
find_in zero args found = some found
find_in (suc num) [] found = some found
find_in (suc num) (k ∷ []) found = some found
find_in (suc num) (k ∷ v ∷ args) found = elim (key_of k) [
  | status_key ↦ do
    status ← status_of found.status v
    find_in num args (record found { status = status })
  | controller_key ↦ do
    s ← asserted v
    find_in num args (record found { controller = found.controller ++ s })
  | action_key ↦ do s ← asserted v; find_in num args (record found { action = found.action ++ s })
  | other_key ↦ find_in (suc num) args found
]

abbrev pub with_status : TraceHttpSpan → ℕ → TraceHttpSpan
with_status http status = record http { span = record http.span { status = status } }

abbrev pub with_error : TraceHttpSpan → TraceHttpSpan
with_error http =
    if leb 500 http.span.status && ltb http.span.status 600
    then record http { span = record http.span { has_error = true } }
    else http
