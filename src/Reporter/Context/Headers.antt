-- ===== src/Reporter/Context/Headers.antt =====
-- v1/ao/internal/reporter/context.go: the X-Trace-Options-Response header that `NewContext` builds.
use appoptics_apm_go.Base.{ℕ, List, [], ◌∷◌, ◌++◌, Option, none, some}
use appoptics_apm_go.Base.Text.{Text, codes}
use appoptics_apm_go.Reporter.Sampling.Request.{TriggerTraceMode, relaxed_trigger}
use appoptics_apm_go.Reporter.TriggerTrace.{
  AuthError, bad_timestamp, no_signature_key, bad_signature,
}
use appoptics_apm_go.Reporter.TriggerTrace.Options.{TriggerTrace}

unfoldable pub join_text : ℕ → List Text → Text
join_text sep [] = []
join_text sep (s ∷ []) = s
join_text sep (s ∷ t ∷ ss) = s ++ (sep ∷ join_text sep (t ∷ ss))

abbrev pub auth_text : AuthError → Text
auth_text bad_timestamp = codes "bad-timestamp"
auth_text no_signature_key = codes "no-signature-key"
auth_text bad_signature = codes "bad-signature"

unfoldable pub auth_part : TriggerTraceMode → Option AuthError → List Text
auth_part relaxed_trigger err = codes "auth=ok" ∷ []
auth_part mode none = []
auth_part mode (some err) = (codes "auth=" ++ auth_text err) ∷ []

unfoldable pub trigger_part : Text → List Text
trigger_part [] = []
trigger_part (c ∷ rsp) = (codes "trigger-trace=" ++ (c ∷ rsp)) ∷ []

-- `SetHeaders`
unfoldable pub set_headers : Text → TriggerTrace → Text → Option Text → Option Text
set_headers [] tt rsp headers = headers
set_headers (c ∷ opts) tt rsp headers =
    some (join_text 59 (trigger_part rsp ++ auth_part tt.mode tt.auth_err))

-- The deferred function: a write to the nil map panics, which gives no result.
unfoldable pub add_ignored : List Text → Option Text → Option (Option Text)
add_ignored [] headers = some headers
add_ignored (k ∷ ks) none = none
add_ignored (k ∷ ks) (some []) = some (some (codes "ignored=" ++ join_text 44 (k ∷ ks)))
add_ignored (k ∷ ks) (some (c ∷ rsp)) =
    some (some ((c ∷ rsp) ++ codes ";ignored=" ++ join_text 44 (k ∷ ks)))
