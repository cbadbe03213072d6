-- ===== src/Reporter/Context/Begun.antt =====
-- v1/ao/internal/reporter/context.go: `NewContext`, which starts a trace or continues one. The
-- sampler and the reporting of the entry event, for the layer, the URL and the overrides of the
-- call, are an interface.
pub mod Upstream
mod Runs
use package.appoptics_apm_go.Base.{
  ℕ, Bool, true, false, not, ◌&&◌, ◌==◌, if◌then◌else◌, List, [], ◌∷◌, Option, none, some,
}
use package.appoptics_apm_go.Base.Slices.{copy}
use package.appoptics_apm_go.Base.Text.{Text, codes, text_eq}
use package.appoptics_apm_go.Reporter.Sampling.Flags.{SampleSource}
use package.appoptics_apm_go.Reporter.Sampling.Flags.SampleSource.{source_none}
use package.appoptics_apm_go.Reporter.Sampling.Settings.{SettingsMap}
use package.appoptics_apm_go.Reporter.Sampling.Request.{
  TriggerTraceMode, SampleDecision, trigger_enabled, trigger_requested,
}
use package.appoptics_apm_go.Reporter.Metadata.{MdError, xtr_current_version}
use package.appoptics_apm_go.Reporter.Metadata.Random.{Reads}
use package.appoptics_apm_go.Reporter.TriggerTrace.Options.{
  Kvs, TriggerTrace, parse_trigger_trace_flag,
}
use package.appoptics_apm_go.Reporter.Context.Headers.{set_headers, add_ignored}
use package.appoptics_apm_go.Reporter.Context.{
  OboeContext, Context, null_context, oboe_context, Heap, new_context,
  new_context_from_metadata_string, context_is_sampled, set_context_sampled, set_enabled,
  get_version,
}

-- The values of an entry event: those of the callback, those of X-Trace-Options, the sampling
-- rate and source, a number printed with `%f`, and a flag.
pub data EntryValue (F V : Type 0) : Type 0 where
  from_callback : V → EntryValue F V
  from_options : Text → EntryValue F V
  sample_rate : ℕ → EntryValue F V
  sample_source : SampleSource → EntryValue F V
  formatted : F → EntryValue F V
  flagged : Bool → EntryValue F V

abbrev pub EntryKvs : Type 0 → Type 0 → Type 0
EntryKvs F V = List (Text × EntryValue F V)

unfoldable pub put_kv : {F V : Type 0} → Text → EntryValue F V → EntryKvs F V → EntryKvs F V
put_kv key value [] = (key, value) ∷ []
put_kv key value ((k, v) ∷ kvs) =
    let rest = put_kv key value kvs in if text_eq k key then (key, value) ∷ kvs else (k, v) ∷ rest

-- What the report of the entry event does: an error, or none; in the latter case `prepareEvent` has
-- written the event's operation ID to the context, unless the event is not sent.
pub data EntryReport : Type 0 where
  report_failed : EntryReport
  report_made : Option (List ℕ) → EntryReport

-- `setOpID`, and a report's effect on the context.
unfoldable pub set_op_id : List ℕ → OboeContext → OboeContext
set_op_id op_id ctx = record ctx {
  metadata = record ctx.metadata {
    ids = record ctx.metadata.ids { op_id = copy ctx.metadata.ids.op_id op_id };
  };
}

abbrev pub after_report : Option (List ℕ) → OboeContext → OboeContext
after_report none ctx = ctx
after_report (some op_id) ctx = set_op_id op_id ctx

-- What a call takes from the sampler (`shouldTraceRequestWithURL`, and the enabled flag of the
-- merged settings where there are settings) and from the event reporting.
pub record Agent (F V S : Type 0) : Type 0 where
  pub zero_float : F
  pub should_trace_request : Bool → TriggerTraceMode → S → SampleDecision F × S
  pub enabled_by_settings : S → Option Bool
  pub report_entry : OboeContext → Bool → EntryKvs F V → S → EntryReport × S

pub record NewOptions (V : Type 0) : Type 0 where
  pub report_entry : Bool
  pub md_str : Text
  pub explicit_md_str : Text
  pub x_trace_options : Text
  pub x_trace_options_signature : Text
  pub cb : Option (List (Text × V))

-- What `NewContext` returns, where `none` is the nil map of headers, with the state it leaves.
pub record Begun (S : Type 0) : Type 0 where
  pub ctx : Context
  pub ok : Bool
  pub headers : Option Text
  pub heap : Heap
  pub state : S

abbrev pub with_headers : {S : Type 0} → Begun S → Option (Option Text) → Option (Begun S)
with_headers r none = none
with_headers r (some headers) = some (record r { headers = headers })

unfoldable pub deferred : {S : Type 0} → TriggerTrace → Begun S → Option (Begun S)
deferred tt r = with_headers r (add_ignored tt.ignored r.headers)

-- What the X-Trace ID of a call says: nothing that is valid, or a context that is sampled or not.
pub data Incoming : Type 0 where
  invalid_id : Incoming
  sampled_id unsampled_id : OboeContext → Incoming

abbrev pub incoming_of : OboeContext × Option MdError → Incoming
incoming_of (ctx, some err) = invalid_id
incoming_of (ctx, none) =
    if not (get_version ctx == xtr_current_version)
    then invalid_id
    else if context_is_sampled ctx
    then sampled_id ctx
    else unsampled_id ctx

abbrev pub context_set_enabled : Bool → Context → Heap → Heap
context_set_enabled enabled null_context heap = heap
context_set_enabled enabled (oboe_context ctx) heap = set_enabled enabled ctx heap

abbrev pub context_set_sampled : Bool → Context → Context
context_set_sampled sampled null_context = null_context
context_set_sampled sampled (oboe_context ctx) = oboe_context (set_context_sampled sampled ctx)

module _ {F V S : Type 0} (agent : Agent F V S) (opts : NewOptions V) (tt : TriggerTrace) where
  unfoldable pub callback_kvs : Option (List (Text × V)) → EntryKvs F V
  callback_kvs none = []
  callback_kvs (some []) = []
  callback_kvs (some ((k, v) ∷ kvs)) = put_kv k (from_callback v) (callback_kvs (some kvs))

  unfoldable pub option_kvs : Kvs → EntryKvs F V → EntryKvs F V
  option_kvs [] into = into
  option_kvs ((k, v) ∷ kvs) into = option_kvs kvs (put_kv k (from_options v) into)

  unfoldable pub decision_kvs : Bool → SampleDecision F → EntryKvs F V → EntryKvs F V
  decision_kvs true d into = into
  decision_kvs false d into = put_kv (codes "BucketRate") (formatted d.bucket_rate) (
      put_kv (codes "BucketCapacity") (formatted d.bucket_cap) (
        put_kv (codes "SampleSource") (sample_source d.source)
          (put_kv (codes "SampleRate") (sample_rate d.rate) into)))

  unfoldable pub triggered_kvs : Bool → EntryKvs F V → EntryKvs F V
  triggered_kvs traced into =
      if trigger_enabled tt.mode && not traced
      then put_kv (codes "TriggeredTrace") (flagged true) into
      else into

  unfoldable pub entry_kvs_of : Bool → Bool → SampleDecision F → EntryKvs F V
  entry_kvs_of traced continued d =
      triggered_kvs traced (decision_kvs continued d (option_kvs tt.kvs (callback_kvs opts.cb)))

  -- The return after the headers are set, and the one of a null context.
  unfoldable pub answer : Context → Bool → Text → Heap → S → Begun S
  answer ctx ok rsp heap s = record {
    ctx = ctx;
    ok = ok;
    headers = set_headers opts.x_trace_options tt rsp none;
    heap = heap;
    state = s;
  }

  unfoldable pub unset : Context → Bool → Heap → S → Begun S
  unset ctx ok heap s = record { ctx = ctx; ok = ok; headers = none; heap = heap; state = s }

  unfoldable pub entry_reported : OboeContext → SampleDecision F → Heap → EntryReport × S → Begun S
  entry_reported ctx d heap (report_failed, s) = unset null_context false heap s
  entry_reported ctx d heap (report_made op_id, s) =
      answer (oboe_context (after_report op_id ctx)) true d.x_trace_opts_rsp heap s

  unfoldable pub report_entry_of : Bool → Bool → Context → SampleDecision F → Heap → S → Begun S
  report_entry_of traced continued null_context d heap s = unset null_context false heap s
  report_entry_of traced continued (oboe_context ctx) d heap s =
      entry_reported ctx d heap
        (agent.report_entry ctx continued (entry_kvs_of traced continued d) s)

  -- The part of `NewContext` behind the decision.
  unfoldable pub after_decision : Bool → Bool → Context → Heap → SampleDecision F × S → Begun S
  after_decision traced continued ctx heap (d, s) =
      let heap = context_set_enabled d.enabled ctx heap in
      if not d.trace
      then answer (context_set_sampled false ctx) true d.x_trace_opts_rsp heap s
      else if opts.report_entry
      then report_entry_of traced continued ctx d heap s
      else answer ctx true d.x_trace_opts_rsp heap s

  -- A new trace, where there is no valid X-Trace ID.
  unfoldable pub begin_new : Reads → Heap → S → Begun S
  begin_new reads heap s =
      let (ctx, heap) = new_context true reads heap in
      after_decision false false ctx heap (agent.should_trace_request false tt.mode s)

  -- `SampleDecision{trace: true}`
  unfoldable pub explicit_decision : SampleDecision F
  explicit_decision = record {
    trace = true;
    rate = 0;
    source = source_none;
    enabled = false;
    x_trace_opts_rsp = [];
    bucket_cap = agent.zero_float;
    bucket_rate = agent.zero_float;
  }

  -- An X-Trace ID that is valid and not sampled.
  unfoldable pub pass_on : OboeContext → Heap → S → Option Bool → Begun S
  pass_on ctx heap s none = answer (oboe_context ctx) false (codes "settings-not-available") heap s
  pass_on ctx heap s (some enabled) =
      answer (oboe_context ctx) true
        (if trigger_requested tt.mode then codes "ignored" else codes "not-requested")
        (set_enabled enabled ctx heap) s

  unfoldable pub continue_from : Incoming → Reads → Heap → S → Begun S
  continue_from invalid_id reads heap s = begin_new reads heap s
  continue_from (sampled_id ctx) reads heap s =
      after_decision true true (oboe_context ctx) heap (agent.should_trace_request true tt.mode s)
  continue_from (unsampled_id ctx) reads heap s = pass_on ctx heap s (agent.enabled_by_settings s)

  unfoldable pub obey : Incoming → Reads → Heap → S → Begun S
  obey invalid_id reads heap s = begin_new reads heap s
  obey (sampled_id ctx) reads heap s =
      after_decision true false (oboe_context ctx) heap (explicit_decision, s)
  obey (unsampled_id ctx) reads heap s = unset (oboe_context ctx) true heap s

  unfoldable pub begun_of : Text → Text → Reads → Heap → S → Begun S
  begun_of (c ∷ md_str) explicit reads heap s =
      let (read, heap) = new_context_from_metadata_string (c ∷ md_str) heap in
      continue_from (incoming_of read) reads heap s
  begun_of [] (c ∷ explicit) reads heap s =
      let (read, heap) = new_context_from_metadata_string (c ∷ explicit) heap in
      obey (incoming_of read) reads heap s
  begun_of [] [] reads heap s = begin_new reads heap s

-- `NewContext`; a panic gives no result.
unfoldable pub new_context_with_options :
    {F V S : Type 0}
    → Agent F V S
    → (List ℕ → Text → Text)
    → SettingsMap
    → ℕ
    → NewOptions V
    → Reads
    → Heap
    → S
    → Option (Begun S)
new_context_with_options agent hmac_hash settings now opts reads heap s =
    let tt =
      parse_trigger_trace_flag hmac_hash settings now opts.x_trace_options
        opts.x_trace_options_signature in
    deferred tt (begun_of agent opts tt opts.md_str opts.explicit_md_str reads heap s)
