-- ===== src/Tracing/Trace.antt =====
-- v1/ao/trace.go: the root span of a trace.
use package.appoptics_apm_go.Base.{
  ℕ, Bool, true, false, not, ◌&&◌, ◌||◌, List, [], ◌∷◌, ◌++◌, Option, none, some, ltb, ◌==◌,
  if◌then◌else◌, length, get_elem?, take, drop,
}
use package.appoptics_apm_go.Base.Text.{Text, codes}
use package.appoptics_apm_go.Base.Words.{word_sub}
use package.appoptics_apm_go.Base.Options.{◌>>=◌}
use package.appoptics_apm_go.Tracing.{
  Label, Arg, Overrides, HttpSpan, TraceHttpSpan, Root, Parent, Span, World, Called, ContextOptions,
  Contexts, SpanValue,
}
use package.appoptics_apm_go.Tracing.Arg.{text}
use package.appoptics_apm_go.Tracing.Spans.{
  no_overrides, edge_args, add_kvs_from_opts, put, logged, closed, fresh_span, even_args,
  set_span_transaction_name, span_metadata_string,
}
use package.appoptics_apm_go.Tracing.Naming.{
  Found, find_in, finalize_txn_name, with_status, with_error, is_empty,
}

-- A map's entries, a later one first; each string of the list is a key of the argument behind it.
unfoldable pub from_kvs : List Arg → List (Text × Arg)
from_kvs [] = []
from_kvs (k ∷ []) = []
from_kvs (text k ∷ v ∷ args) = from_kvs (v ∷ args) ++ ((k, v) ∷ [])
from_kvs (_ ∷ v ∷ args) = from_kvs (v ∷ args)

abbrev pub empty_http_span : TraceHttpSpan
empty_http_span = record {
  span = record {
    transaction = [];
    duration = 0;
    path = [];
    status = 0;
    host = [];
    method = [];
    has_error = false;
  };
  start = 0;
  end_time = 0;
  controller = [];
  action = [];
}

abbrev pub new_root : {E : Type 0} → ℕ → List (Text × Text) → Root E
new_root now headers = record {
  exit_event = none;
  http_span = record empty_http_span { start = now };
  http_rsp_headers = headers;
  overrides = no_overrides;
}

-- What `reportExit` reads of the configuration and of the clock.
pub record Settings : Type 0 where
  pub transaction_name : Text
  pub prepend_domain : Bool
  pub now : ℕ

pub record SpanOptions : Type 0 where
  pub with_back_trace : Bool
  pub context_options : ContextOptions
  pub cb : Option (List (Text × Arg))
  pub transaction_name : Text

abbrev pub called_back : Option (List (Text × Arg)) → List (Text × Arg)
called_back none = []
called_back (some kvs) = kvs

-- The pairs of the entry event: those of the callback, overwritten by those of the options.
abbrev pub entry_kvs : SpanOptions → Text → List (Text × Arg)
entry_kvs opts stack =
    from_kvs (add_kvs_from_opts opts.with_back_trace stack []) ++ called_back opts.cb

module _ {C E : Type 0} where
  abbrev pub pair_root : Span C E → Option (Root E) → Option (Span C E × Root E)
  pair_root s none = none
  pair_root s (some root) = some (s, root)

  -- A span that is there and is a trace.
  abbrev pub found_root : Option (Span C E) → Option (Span C E × Root E)
  found_root none = none
  found_root (some s) = pair_root s s.root

  abbrev pub from_root : {A : Type 0} → Option (Span C E × Root E) → A → (Span C E → Root E → A) → A
  from_root none a step = a
  from_root (some (s, root)) a step = step s root

module _ {C E W : Type 0} (api : Contexts C E W) where
  unfoldable pub started_trace :
      World C E W
      → Text
      → Text
      → ℕ
      → Option (C × List (Text × Text)) × W
      → SpanValue C × World C E W
  started_trace w name transaction_name now (none, shared) =
      (SpanValue.null_span, record w { shared = shared })
  started_trace w name transaction_name now (some (ctx, headers), shared) =
      let r = length w.spans in
      let w' = record w {
        spans =
            w.spans ++ (fresh_span ctx name Parent.no_parent (some (new_root now headers)) ∷ []);
        shared = shared;
      } in
      (
        SpanValue.span_at r,
        if is_empty transaction_name
            then w'
            else (set_span_transaction_name api w' r transaction_name).1,
      )

  -- `is_closed` is whether the agent has been shut down.
  unfoldable pub new_trace_with_options :
      World C E W → Bool → Text → SpanOptions → Text → ℕ → SpanValue C × World C E W
  new_trace_with_options w is_closed name opts stack now =
      if is_closed || is_empty name
      then (SpanValue.null_span, w)
      else started_trace w name opts.transaction_name now
          (api.new_context name opts.context_options (entry_kvs opts stack) w.shared)

  abbrev pub at_end : TraceHttpSpan → ℕ → TraceHttpSpan
  at_end http now =
      let end_time = if http.end_time == 0 then now else http.end_time in
      record http { span = record http.span { duration = word_sub end_time http.start } }

  abbrev pub with_http_span : Span C E → Root E → TraceHttpSpan → Span C E
  with_http_span s root http = record s { root = some (record root { http_span = http }) }

  abbrev pub key_transaction_name : Text
  key_transaction_name = codes "TransactionName"

  abbrev pub finalized : Settings → W → Span C E → TraceHttpSpan → Found → TraceHttpSpan
  finalized cfg shared s http found = with_error (
      finalize_txn_name cfg.transaction_name cfg.prepend_domain
        (api.get_transaction_name s.ao_ctx shared) s.name (with_status http found.status)
        found.controller found.action)

  -- The span message is sent, and the name joins the end arguments.
  abbrev pub http_recorded : W → Span C E → Root E → TraceHttpSpan → Span C E × W
  http_recorded shared s root http = (
    record (with_http_span s root http) {
      end_args = s.end_args ++ (text key_transaction_name ∷ text http.span.transaction ∷ []);
    },
    api.report_span http.span shared,
  )

  abbrev pub found_at_start : TraceHttpSpan → Found
  found_at_start http = record { status = http.span.status; controller = []; action = [] }

  -- `recordHTTPSpan`.
  unfoldable pub record_http_span :
      Settings → W → Span C E → Root E → TraceHttpSpan → Option (Span C E × W)
  record_http_span cfg shared s root http = do
    found ← find_in 3 s.end_args (found_at_start http)
    some (http_recorded shared s root (finalized cfg shared s http found))

  unfoldable pub recorded_span : Settings → W → Span C E → Root E → Option (Span C E × W)
  recorded_span cfg shared s root =
      let recorded = record_http_span cfg shared s root (at_end root.http_span cfg.now) in
      if not (root.http_span.start == 0) && api.get_enabled s.ao_ctx shared
      then recorded
      else some (s, shared)

  -- The exit event that `ExitMetadata` has made, or one of now.
  unfoldable pub exit_call : Span C E → Root E → List Arg → W → Called C W
  exit_call s root args shared = elim root.exit_event [
    | some e ↦ api.report_context e s.ao_ctx true args shared
    | none ↦ api.report_event s.ao_ctx Label.exit s.name root.overrides args shared
  ]

  unfoldable pub exited : World C E W → ℕ → Root E → Span C E × W → World C E W
  exited w r root (s, shared) =
      let args = s.end_args ++ edge_args s.child_edges in
      let called = exit_call s root args shared in
      put (logged w r s Label.exit args (api.metadata_string called.ctx) called.shared) r
        (closed api s called.ctx)

  -- `reportExit` of an open trace; `none` is a panic in the reading of the arguments.
  unfoldable pub report_exit : Settings → World C E W → ℕ → Span C E → Root E → Option (World C E W)
  report_exit cfg w r s root = do
    recorded ← recorded_span cfg w.shared s root
    some (exited w r root recorded)

  -- The step where `r` is an open trace.
  unfoldable pub with_trace :
      World C E W → ℕ → (Span C E → Root E → Option (World C E W)) → Option (World C E W)
  with_trace w r step =
      from_root (found_root (get_elem? w.spans r)) (some w)
        λ s root. if s.ended then some w else step s root

  abbrev pub more_end_args : Span C E → List Arg → Span C E
  more_end_args s args = record s { end_args = s.end_args ++ even_args api args }

  -- `End`, `EndWithOverrides`, and `EndCallback` with the pairs that the callback gives.
  unfoldable pub end_trace : Settings → World C E W → ℕ → List Arg → Option (World C E W)
  end_trace cfg w r args = with_trace w r λ s root. report_exit cfg w r (more_end_args s args) root

  unfoldable pub end_trace_with_overrides :
      Settings → World C E W → ℕ → Overrides → List Arg → Option (World C E W)
  end_trace_with_overrides cfg w r overrides args =
      with_trace w r
        λ s root. report_exit cfg w r (more_end_args s args) (record root { overrides = overrides })

  abbrev pub pair_args : List (Text × Arg) → List Arg
  pair_args [] = []
  pair_args ((k, v) ∷ kvs) = text k ∷ v ∷ pair_args kvs

  unfoldable pub end_callback :
      Settings → World C E W → ℕ → Option (List (Text × Arg)) → Option (World C E W)
  end_callback cfg w r cb =
      with_trace w r
        λ s root. report_exit cfg w r (more_end_args s (pair_args (called_back cb))) root

  abbrev pub put_root : World C E W → ℕ → Span C E → Root E → World C E W
  put_root w r s root = put w r (record s { root = some root })

  -- The setters write to the root whether or not the trace has ended.
  unfoldable pub change_root : World C E W → ℕ → (Root E → Root E) → World C E W
  change_root w r change =
      from_root (found_root (get_elem? w.spans r)) w λ s root. put_root w r s (change root)

  abbrev pub change_message : World C E W → ℕ → (HttpSpan → HttpSpan) → World C E W
  change_message w r change = change_root w r λ root. record root {
    http_span = record root.http_span { span = change root.http_span.span };
  }

  unfoldable pub set_method : World C E W → ℕ → Text → World C E W
  set_method w r method = change_message w r λ m. record m { method = method }

  unfoldable pub set_path : World C E W → ℕ → Text → World C E W
  set_path w r path = change_message w r λ m. record m { path = path }

  unfoldable pub set_host : World C E W → ℕ → Text → World C E W
  set_host w r host = change_message w r λ m. record m { host = host }

  unfoldable pub set_status : World C E W → ℕ → ℕ → World C E W
  set_status w r status = change_message w r λ m. record m { status = status }

  unfoldable pub set_trace_start : World C E W → ℕ → ℕ → World C E W
  set_trace_start w r t =
      change_root w r λ root. record root { http_span = record root.http_span { start = t } }

  unfoldable pub set_trace_end : World C E W → ℕ → ℕ → World C E W
  set_trace_end w r t =
      change_root w r λ root. record root { http_span = record root.http_span { end_time = t } }

  abbrev pub exit_event_of : World C E W → ℕ → Span C E → Root E → Option E → Text × World C E W
  exit_event_of w r s root (some e) = (api.event_metadata_string e, w)
  exit_event_of w r s root none =
      let made = api.new_event s.ao_ctx Label.exit s.name false w.shared in
      (
        api.event_metadata_string made.0,
        put_root (record w { shared = made.1 }) r s (record root { exit_event = some made.0 }),
      )

  -- `ExitMetadata` makes the exit event the first time, and keeps it.
  unfoldable pub exit_metadata : World C E W → ℕ → Text × World C E W
  exit_metadata w r =
      from_root (found_root (get_elem? w.spans r)) ([], w)
        λ s root. exit_event_of w r s root root.exit_event

  -- An ended trace is sampled where its context is.
  unfoldable pub trace_is_sampled : World C E W → ℕ → Bool
  trace_is_sampled w r = elim (get_elem? w.spans r) [
    | none ↦ false
    | some s ↦ api.is_sampled s.ao_ctx
  ]

  -- `md[2:42]` and the flag.
  unfoldable pub loggable_trace_id : World C E W → ℕ → Text
  loggable_trace_id w r =
      let sampled_flag = if trace_is_sampled w r then codes "-1" else codes "-0" in
      let md_str = span_metadata_string api w r in
      if ltb (length md_str) 60
      then md_str ++ sampled_flag
      else take 40 (drop 2 md_str) ++ sampled_flag
