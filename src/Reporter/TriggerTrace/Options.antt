-- ===== src/Reporter/TriggerTrace/Options.antt =====
-- v1/ao/internal/reporter/context.go: the loop over the options, and the mode that they ask for.
use appoptics_apm_go.Base.{
  ℕ, Bool, true, false, not, ◌&&◌, ◌||◌, ◌==◌, leb, if◌then◌else◌, List, [], ◌∷◌, ◌++◌, Option,
  none, some,
}
use mathlib.Core.List.{reverse}
use appoptics_apm_go.Base.Text.{Text, codes, text_eq}
use appoptics_apm_go.Base.Split.{split, named}
use appoptics_apm_go.Reporter.Sampling.Settings.{SettingsMap}
use appoptics_apm_go.Reporter.Sampling.Request.{TriggerTraceMode}
use appoptics_apm_go.Reporter.Sampling.Request.TriggerTraceMode.{
  not_present, invalid_trigger, relaxed_trigger, strict_trigger,
}
use appoptics_apm_go.Reporter.TriggerTrace.{AuthError, validate_signature}

-- Go's map from strings to strings.
abbrev pub Kvs : Type 0
Kvs = List (Text × Text)

unfoldable pub kvs_get : Text → Kvs → Option Text
kvs_get key [] = none
kvs_get key (kv ∷ kvs) = if text_eq key kv.0 then some kv.1 else kvs_get key kvs

unfoldable pub kvs_delete : Text → Kvs → Kvs
kvs_delete key [] = []
kvs_delete key (kv ∷ kvs) =
    let rest = kvs_delete key kvs in if text_eq key kv.0 then rest else kv ∷ rest

unfoldable pub kvs_set : Text → Text → Kvs → Kvs
kvs_set key value kvs = (key, value) ∷ kvs_delete key kvs

-- `strings.SplitN(s, "=", 2)`: the part before the sign, and the part after it if there is one.
unfoldable pub split_key : Text → Text × Option Text
split_key [] = ([], none)
split_key (c ∷ text) =
    let rest = split_key text in if c == 61 then ([], some text) else (c ∷ rest.0, rest.1)

-- The characters of `" \t\n\v\f\r"`.
abbrev pub ascii_space : ℕ → Bool
ascii_space c = c == 32 || (leb 9 c && leb c 13)

-- `unicode.IsSpace`
unfoldable pub is_space : ℕ → Bool
is_space c =
    ascii_space c
    || c == 0x85
    || c == 0xA0
    || c == 0x1680
    || (leb 0x2000 c && leb c 0x200a)
    || c == 0x2028
    || c == 0x2029
    || c == 0x202f
    || c == 0x205f
    || c == 0x3000

unfoldable pub trim_left : Text → Text
trim_left [] = []
trim_left (c ∷ text) = let rest = trim_left text in if is_space c then rest else c ∷ text

unfoldable pub trim_space : Text → Text
trim_space text = reverse (trim_left (reverse (trim_left text)))

unfoldable pub has_space : Text → Bool
has_space [] = false
has_space (c ∷ text) = ascii_space c || has_space text

unfoldable pub has_prefix : Text → Text → Bool
has_prefix [] text = true
has_prefix (p ∷ prefix) [] = false
has_prefix (p ∷ prefix) (c ∷ text) = p == c && has_prefix prefix text

-- The variables of the loop. `seen` is the map that removes duplicates.
pub record Parsed : Type 0 where
  pub kvs : Kvs
  pub ignored : List Text
  pub ts : Text
  pub seen : List Text

unfoldable pub known_key : Text → Bool
known_key k =
    has_prefix (codes "custom-") k
    || text_eq k (codes "pd-keys")
    || text_eq k (codes "trigger-trace")
    || text_eq k (codes "ts")

abbrev pub ignore : Text → Parsed → Parsed
ignore k p = record p { ignored = p.ignored ++ (k ∷ []) }

-- The key under which an option is kept.
abbrev pub kept_key : Text → Text
kept_key k = if text_eq k (codes "pd-keys") then codes "PDKeys" else k

-- A key that has not been seen.
unfoldable pub keep : Text → Text → Parsed → Parsed
keep k v p =
    let q = record p { seen = k ∷ p.seen } in
    if not (text_eq k (codes "ts"))
    then record q { kvs = kvs_set k v q.kvs }
    else record q { ts = v }

-- A key with its value, after the check for a dangling key.
unfoldable pub add_option : Text → Text → Parsed → Parsed
add_option k v p =
    if has_space k
    then ignore k p
    else if not (known_key k)
    then ignore k p
    else if named (kept_key k) p.seen
    then p
    else keep (kept_key k) v p

unfoldable pub parse_split : Text × Option Text → Parsed → Parsed
parse_split (k, some v) p = add_option (trim_space k) (trim_space v) p
parse_split (k, none) p =
    if not (text_eq k (codes "trigger-trace"))
    then ignore (trim_space k) p
    else add_option (trim_space k) [] p

unfoldable pub parse_options : List Text → Parsed → Parsed
parse_options [] p = p
parse_options (opt ∷ opts) p = parse_options opts (parse_split (split_key opt) p)

pub record TriggerTrace : Type 0 where
  pub mode : TriggerTraceMode
  pub kvs : Kvs
  pub ignored : List Text
  pub auth_err : Option AuthError

-- The mode by the signature, and the options that it leaves.
unfoldable pub authenticated : Parsed → Option AuthError → TriggerTrace
authenticated p none = record {
  mode = relaxed_trigger;
  kvs = p.kvs;
  ignored = p.ignored;
  auth_err = none;
}
authenticated p (some e) = record {
  mode = invalid_trigger;
  kvs = [];
  ignored = [];
  auth_err = some e;
}

unfoldable pub requested_mode : Text → Parsed → Option AuthError → TriggerTrace
requested_mode [] p validity = record {
  mode = strict_trigger;
  kvs = p.kvs;
  ignored = p.ignored;
  auth_err = none;
}
requested_mode (c ∷ sig) p validity = authenticated p validity

unfoldable pub mode_of_flag : Option Text → Text → Parsed → Option AuthError → TriggerTrace
mode_of_flag none sig p validity = record {
  mode = not_present;
  kvs = p.kvs;
  ignored = p.ignored;
  auth_err = none;
}
mode_of_flag (some []) sig p validity =
    requested_mode sig (record p { kvs = kvs_delete (codes "trigger-trace") p.kvs }) validity
mode_of_flag (some (c ∷ value)) sig p validity = record {
  mode = not_present;
  kvs = p.kvs;
  ignored = p.ignored ++ (codes "trigger-trace" ∷ []);
  auth_err = none;
}

abbrev pub no_options : Parsed
no_options = record { kvs = []; ignored = []; ts = []; seen = [] }

unfoldable pub parse_trigger_trace_flag :
    (List ℕ → Text → Text) → SettingsMap → ℕ → Text → Text → TriggerTrace
parse_trigger_trace_flag hmac_hash settings now [] sig = record {
  mode = not_present;
  kvs = [];
  ignored = [];
  auth_err = none;
}
parse_trigger_trace_flag hmac_hash settings now (c ∷ opts) sig =
    let p = parse_options (split 59 (c ∷ opts)) no_options in
    mode_of_flag (kvs_get (codes "trigger-trace") p.kvs) sig p
      (validate_signature hmac_hash settings now sig p.ts (c ∷ opts))
