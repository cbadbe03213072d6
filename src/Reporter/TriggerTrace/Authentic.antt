-- ===== src/Reporter/TriggerTrace/Authentic.antt =====
-- Who is sampled by the relaxed bucket, and what a rejected signature leaves.
use appoptics_apm_go.Base.{
  ℕ, ◌+◌, ◌*◌, ◌≤◌, ◌≡◌, ◌≢◌, refl, Bool, true, false, if◌then◌else◌, List, [], ◌∷◌, Option, none,
  some, arith,
}
use mathlib.Core.Path.{subst}
use appoptics_apm_go.Base.Options.{◌>>=◌}
use appoptics_apm_go.Base.Text.{Text, text_eq_iff}
use appoptics_apm_go.Base.Split.{split}
use appoptics_apm_go.Reporter.Sampling.Settings.{OboeSettings, SettingsMap}
use appoptics_apm_go.Reporter.Sampling.Settings.Update.{get_setting}
use appoptics_apm_go.Reporter.Sampling.Request.TriggerTraceMode.{invalid_trigger, relaxed_trigger}
use appoptics_apm_go.Reporter.TriggerTrace.{
  AuthError, get_trigger_trace_token, nonempty_token, parse_int, near, ts_in_scope,
  validate_with_token, validate_at, validate_signature,
}
use appoptics_apm_go.Reporter.TriggerTrace.Options.{
  Parsed, parse_options, no_options, authenticated, requested_mode, mode_of_flag,
  parse_trigger_trace_flag,
}

-- A time in seconds since 1970, negative or not, at most 300 seconds away from `now`, which is in
-- nanoseconds.
abbrev pub IsNear : ℕ → Bool × ℕ → Type 0
IsNear now (false, ts) =
    (now ≤ (ts + 300) * 1000000000) × (ts * 1000000000 ≤ now + 300 * 1000000000)
IsNear now (true, ts) = now + ts * 1000000000 ≤ 300 * 1000000000

-- The token of the settings: a byte and what follows it.
pub record IsToken (settings : SettingsMap) (token : List ℕ) : Type 0 where
  pub setting : OboeSettings
  pub found : get_setting settings ≡ some setting
  pub its_token : setting.trigger_token ≡ some token
  pub not_empty : token ≢ []

near-IsNear : (now : ℕ) (time : Bool × ℕ) → near now time ≡ true → IsNear now time
unfolding near
near-IsNear now (false, ts) e = ground arith
near-IsNear now (true, ts) e = ground arith

if_some :
    {A : Type 0} (b : Bool) (a c : A)
    → (if b then some a else none) ≡ some c
    → (b ≡ true) × (some a ≡ some c)
if_some true a c e = (refl, e)
if_some false a c e = absurd (ground arith)

some-inj : {A : Type 0} {a c : A} → some a ≡ some c → a ≡ c
some-inj e = grind arith

scoped-IsNear :
    (now : ℕ) (o : Option (Bool × ℕ)) (time : Bool × ℕ)
    → (o >>= λ ts. if near now ts then some ts else none) ≡ some time
    → (o ≡ some time) × IsNear now time
scoped-IsNear now none time e = absurd (ground arith)
scoped-IsNear now (some ts) time e =
    let (is_near, same) = if_some (near now ts) ts time e in
    (same, subst (λ (t : Bool × ℕ). IsNear now t) (some-inj same) (near-IsNear now ts is_near))

ts_in_scope-IsNear :
    (now : ℕ) (ts : Text) (time : Bool × ℕ)
    → ts_in_scope now ts ≡ some time
    → (parse_int ts ≡ some time) × IsNear now time
unfolding ts_in_scope
ts_in_scope-IsNear now ts time e = scoped-IsNear now (parse_int ts) time e

nonempty_token-some :
    (o : Option (List ℕ)) (token : List ℕ)
    → nonempty_token o ≡ some token
    → (o ≡ some token) × (token ≢ [])
unfolding nonempty_token
nonempty_token-some none token e = absurd (ground arith)
nonempty_token-some (some []) token e = absurd (ground arith)
nonempty_token-some (some (b ∷ o)) token e = (e, λ empty. ground (arith, empty))

nonempty_token-IsToken :
    (settings : SettingsMap) (token : List ℕ) (found : Option OboeSettings)
    → get_setting settings ≡ found
    → (found >>= λ setting. nonempty_token setting.trigger_token) ≡ some token
    → IsToken settings token
nonempty_token-IsToken settings token none same e = absurd (ground arith)
nonempty_token-IsToken settings token (some setting) same e =
    let (its, some_byte) = nonempty_token-some setting.trigger_token token e in
    record { setting = setting; found = same; its_token = its; not_empty = some_byte }

module _ (hmac_hash : List ℕ → Text → Text) (settings : SettingsMap) (now : ℕ) where
  -- What a valid signature of `text` is: a timestamp within five minutes, and the hash under the
  -- token of the collector's settings.
  pub record IsAuthentic (signature ts text : Text) : Type 0 where
    pub time : Bool × ℕ
    pub is_time : parse_int ts ≡ some time
    pub current : IsNear now time
    pub token : List ℕ
    pub known : IsToken settings token
    pub signed : hmac_hash token text ≡ signature

  signed_by :
      (signature text : Text) (o : Option (List ℕ))
      → validate_with_token hmac_hash signature text o ≡ none
      → (token : List ℕ) × (o ≡ some token) × (hmac_hash token text ≡ signature)
  unfolding validate_with_token
  signed_by signature text none e = absurd (ground arith)
  signed_by signature text (some token) e =
      (token, refl, (text_eq_iff (hmac_hash token text) signature).0 (ground arith))

  validate_at-IsAuthentic :
      (signature ts text : Text) (o : Option (Bool × ℕ))
      → ts_in_scope now ts ≡ o
      → validate_at hmac_hash settings signature text o ≡ none
      → IsAuthentic signature ts text
  unfolding validate_at get_trigger_trace_token
  validate_at-IsAuthentic signature ts text none same e = absurd (ground arith)
  validate_at-IsAuthentic signature ts text (some time) same e =
      let (token, known, signed) = signed_by signature text (get_trigger_trace_token settings) e in
      let (is_time, current) = ts_in_scope-IsNear now ts time same in
      record {
        time = time;
        is_time = is_time;
        current = current;
        token = token;
        known = nonempty_token-IsToken settings token (get_setting settings) refl known;
        signed = signed;
      }

  validate_signature-IsAuthentic :
      (signature ts text : Text)
      → validate_signature hmac_hash settings now signature ts text ≡ none
      → IsAuthentic signature ts text
  unfolding validate_signature
  validate_signature-IsAuthentic signature ts text e =
      validate_at-IsAuthentic signature ts text (ts_in_scope now ts) refl e

relaxed-valid :
    (flag : Option Text) (sig : Text) (p : Parsed) (validity : Option AuthError)
    → (mode_of_flag flag sig p validity).mode ≡ relaxed_trigger
    → validity ≡ none
unfolding mode_of_flag requested_mode authenticated
relaxed-valid none sig p validity e = absurd (ground arith)
relaxed-valid (some (c ∷ value)) sig p validity e = absurd (ground arith)
relaxed-valid (some []) [] p validity e = absurd (ground arith)
relaxed-valid (some []) (c ∷ sig) p none e = refl
relaxed-valid (some []) (c ∷ sig) p (some err) e = absurd (ground arith)

-- Only a request whose options carry a timestamp that is at most 300 seconds away from the clock,
-- and whose signature is the hash of the options under the token of the default settings, which is
-- not empty, is a relaxed trigger trace.
pub relaxed-IsAuthentic :
    (hmac_hash : List ℕ → Text → Text) (settings : SettingsMap) (now : ℕ) (opts sig : Text)
    → (parse_trigger_trace_flag hmac_hash settings now opts sig).mode ≡ relaxed_trigger
    → IsAuthentic hmac_hash settings now sig (parse_options (split 59 opts) no_options).ts opts
unfolding parse_trigger_trace_flag
relaxed-IsAuthentic hmac_hash settings now [] sig e = absurd (ground arith)
relaxed-IsAuthentic hmac_hash settings now (c ∷ opts) sig e =
    validate_signature-IsAuthentic hmac_hash settings now sig _ (c ∷ opts)
      (relaxed-valid _ sig _ _ e)

invalid_drops :
    (flag : Option Text) (sig : Text) (p : Parsed) (validity : Option AuthError)
    → (mode_of_flag flag sig p validity).mode ≡ invalid_trigger
    → ((mode_of_flag flag sig p validity).kvs ≡ [])
      × ((mode_of_flag flag sig p validity).ignored ≡ [])
      × ((mode_of_flag flag sig p validity).auth_err ≡ validity)
unfolding mode_of_flag requested_mode authenticated
invalid_drops none sig p validity e = absurd (ground arith)
invalid_drops (some (c ∷ value)) sig p validity e = absurd (ground arith)
invalid_drops (some []) [] p validity e = absurd (ground arith)
invalid_drops (some []) (c ∷ sig) p none e = absurd (ground arith)
invalid_drops (some []) (c ∷ sig) p (some err) e = (refl, refl, refl)

-- A trigger trace whose signature is rejected keeps none of its options and reports no ignored
-- keys, and its error is that of the signature check.
pub invalid_options :
    (hmac_hash : List ℕ → Text → Text) (settings : SettingsMap) (now : ℕ) (opts sig : Text)
    → (parse_trigger_trace_flag hmac_hash settings now opts sig).mode ≡ invalid_trigger
    → ((parse_trigger_trace_flag hmac_hash settings now opts sig).kvs ≡ [])
      × ((parse_trigger_trace_flag hmac_hash settings now opts sig).ignored ≡ [])
      × ((parse_trigger_trace_flag hmac_hash settings now opts sig).auth_err
          ≡ validate_signature hmac_hash settings now sig
              (parse_options (split 59 opts) no_options).ts
              opts)
unfolding parse_trigger_trace_flag
invalid_options hmac_hash settings now [] sig e = absurd (ground arith)
invalid_options hmac_hash settings now (c ∷ opts) sig e = invalid_drops _ sig _ _ e
