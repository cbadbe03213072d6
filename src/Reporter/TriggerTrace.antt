-- ===== src/Reporter/TriggerTrace.antt =====
-- v1/ao/internal/reporter/context.go: the X-Trace-Options header, `parseTriggerTraceFlag`, and the
-- authentication of its signature. The hash of `HmacHash` is a parameter; `now` is the clock's
-- reading in nanoseconds since 1970. A nil map or slice is an empty one.
pub mod Options
pub mod Authentic
pub mod Keys
mod Runs
use appoptics_apm_go.Base.{
  ℕ, ◌+◌, ◌*◌, ◌-◌, ◌^◌, Bool, true, false, not, ◌&&◌, ◌||◌, ◌==◌, ltb, leb, if◌then◌else◌, List,
  [], ◌∷◌, ◌++◌, Option, none, some, length,
}
use appoptics_apm_go.Base.Options.{◌>>=◌}
use appoptics_apm_go.Base.Text.{Text, codes, text_eq}
use appoptics_apm_go.Reporter.Sampling.Settings.{OboeSettings, SettingsMap}
use appoptics_apm_go.Reporter.Sampling.Settings.Update.{get_setting}

pub data AuthError : Type 0 where
  bad_timestamp no_signature_key bad_signature : AuthError

-- `strconv.ParseInt(s, 10, 64)`: the sign and the magnitude.
unfoldable pub parse_digits : ℕ → Text → Option ℕ
parse_digits n [] = some n
parse_digits n (c ∷ text) =
    let rest = parse_digits (10 * n + (c - 48)) text in if leb 48 c && leb c 57 then rest else none

unfoldable pub in_int64 : Bool → ℕ → Option (Bool × ℕ)
in_int64 negative n =
    if leb n (if negative then 2 ^ 63 else 2 ^ 63 - 1) then some (negative, n) else none

unfoldable pub parse_magnitude : Bool → Text → Option (Bool × ℕ)
parse_magnitude negative [] = none
parse_magnitude negative (c ∷ digits) = parse_digits 0 (c ∷ digits) >>= in_int64 negative

unfoldable pub parse_int : Text → Option (Bool × ℕ)
parse_int [] = none
parse_int (c ∷ text) =
    if c == 43
    then parse_magnitude false text
    else if c == 45
    then parse_magnitude true text
    else parse_magnitude false (c ∷ text)

abbrev pub five_minutes : ℕ
five_minutes = 300000000000

-- Not before `now` less five minutes, and not after `now` and five minutes.
unfoldable pub near : ℕ → Bool × ℕ → Bool
near now (false, ts) =
    not (ltb (ts * 1000000000 + five_minutes) now)
    && not (ltb (now + five_minutes) (ts * 1000000000))
near now (true, ts) = not (ltb five_minutes (now + ts * 1000000000))

unfoldable pub ts_in_scope : ℕ → Text → Option (Bool × ℕ)
ts_in_scope now ts_str = parse_int ts_str >>= λ ts. if near now ts then some ts else none

unfoldable pub nonempty_token : Option (List ℕ) → Option (List ℕ)
nonempty_token none = none
nonempty_token (some []) = none
nonempty_token (some (b ∷ token)) = some (b ∷ token)

unfoldable pub get_trigger_trace_token : SettingsMap → Option (List ℕ)
get_trigger_trace_token settings =
    get_setting settings >>= λ setting. nonempty_token setting.trigger_token

-- No error means that the signature is valid.
unfoldable pub validate_with_token :
    (List ℕ → Text → Text) → Text → Text → Option (List ℕ) → Option AuthError
validate_with_token hmac_hash signature text none = some AuthError.no_signature_key
validate_with_token hmac_hash signature text (some token) =
    if text_eq (hmac_hash token text) signature then none else some AuthError.bad_signature

unfoldable pub validate_at :
    (List ℕ → Text → Text) → SettingsMap → Text → Text → Option (Bool × ℕ) → Option AuthError
validate_at hmac_hash settings signature text none = some AuthError.bad_timestamp
validate_at hmac_hash settings signature text (some ts) =
    validate_with_token hmac_hash signature text (get_trigger_trace_token settings)

unfoldable pub validate_signature :
    (List ℕ → Text → Text) → SettingsMap → ℕ → Text → Text → Text → Option AuthError
validate_signature hmac_hash settings now signature ts text =
    validate_at hmac_hash settings signature text (ts_in_scope now ts)
