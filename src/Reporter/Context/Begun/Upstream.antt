-- ===== src/Reporter/Context/Begun/Upstream.antt =====
-- What `NewContext` keeps of a valid X-Trace ID that it is called with.
use package.appoptics_apm_go.Base.{ℕ, ◌≡◌, ◌⊎◌, true, false, List, Option, some}
use package.appoptics_apm_go.Base.Text.{Text}
use package.appoptics_apm_go.Reporter.Sampling.Settings.{SettingsMap}
use package.appoptics_apm_go.Reporter.Metadata.{OboeMetadata, is_sampled}
use package.appoptics_apm_go.Reporter.TriggerTrace.Options.{TriggerTrace, parse_trigger_trace_flag}
use package.appoptics_apm_go.Reporter.Context.{OboeContext, Context, null_context, oboe_context}
use package.appoptics_apm_go.Reporter.Context.Begun.{
  Agent, NewOptions, Begun, EntryKvs, report_failed,
}

-- A context of the trace of `md`, which is sampled at most where `md` is.
pub record IsUpstream (md : OboeMetadata) (ctx : Context) : Type 0 where
  pub its : OboeContext
  pub is_its : ctx ≡ oboe_context its
  pub task_same : its.metadata.ids.task_id ≡ md.ids.task_id
  pub sampled_only : is_sampled its.metadata ≡ true → is_sampled md ≡ true

-- The call returns, with such a context.
pub Returns : {S : Type 0} → OboeMetadata → Option (Begun S) → Type 0
Returns {S} md result = (r : Begun S) × (result ≡ some r) × IsUpstream md r.ctx

-- The report of an entry event failed; if the call returns, then with the null context and false.
pub record IsRefused {F V S : Type 0} (agent : Agent F V S) (result : Option (Begun S))
    : Type 0 where
  pub ctx : OboeContext
  pub kvs : EntryKvs F V
  pub state : S
  pub failed : (agent.report_entry ctx true kvs state).0 ≡ report_failed
  pub null : (r : Begun S) → result ≡ some r → (r.ctx ≡ null_context) × (r.ok ≡ false)

module _ {F V S : Type 0} (agent : Agent F V S) (hmac_hash : List ℕ → Text → Text)
    (settings : SettingsMap) (now : ℕ) (md : OboeMetadata) where
  module _ (opts : NewOptions V) where
    Results : Option (Begun S) → Type 0
    Results result = Returns md result ⊎ IsRefused agent result

    tt_of : TriggerTrace
    tt_of =
        parse_trigger_trace_flag hmac_hash settings now opts.x_trace_options
          opts.x_trace_options_signature
