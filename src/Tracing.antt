-- ===== src/Tracing.antt =====
-- v1/ao/layer.go, v1/ao/trace.go and v1/ao/context.go: the spans and traces that a program opens
-- and ends. A `*layerSpan` or `*aoTrace` is its position among those that have been started, and
-- the interface `reporter.Context` is a record of operations on contexts `C`, events `E` and what
-- the reporter shares, `W`.
pub mod Spans
pub mod Naming
pub mod Trace
pub mod Step
use package.appoptics_apm_go.Base.{ℕ, Bool, List, Option}
use package.appoptics_apm_go.Base.Text.{Text}

pub data Label : Type 0 where
  entry exit info error : Label

-- An argument of the variadic functions: a string, an `int`, a `*int`, a `bool`, or something else.
pub data Arg : Type 0 where
  text : Text → Arg
  number : ℕ → Arg
  number_at : Option ℕ → Arg
  flag : Bool → Arg
  other : ℕ → Arg

-- A time is its nanoseconds, and 0 the zero time.
pub record Overrides : Type 0 where
  pub explicit_ts : ℕ
  pub explicit_md_str : Text

pub record HttpSpan : Type 0 where
  pub transaction : Text
  pub duration : ℕ
  pub path : Text
  pub status : ℕ
  pub host : Text
  pub method : Text
  pub has_error : Bool

-- `traceHTTPSpan`
pub record TraceHttpSpan : Type 0 where
  pub span : HttpSpan
  pub start : ℕ
  pub end_time : ℕ
  pub controller : Text
  pub action : Text

-- What an `aoTrace` has beside its span.
pub record Root (E : Type 0) : Type 0 where
  pub exit_event : Option E
  pub http_span : TraceHttpSpan
  pub http_rsp_headers : List (Text × Text)
  pub overrides : Overrides

-- A `contextSpan` as a parent keeps no edges.
pub data Parent : Type 0 where
  no_parent : Parent
  span_parent : ℕ → Parent
  context_parent : Parent

-- No code calls `addProfile`, so the list of child profiles is always empty.
pub record Span (C E : Type 0) : Type 0 where
  pub name : Text
  pub ao_ctx : C
  pub parent : Parent
  pub child_edges : List Text
  pub end_args : List Arg
  pub ended : Bool
  pub root : Option (Root E)

-- A call of `ReportEvent`, with the metadata string of the context after it.
pub record Report : Type 0 where
  pub span : ℕ
  pub parent : Parent
  pub label : Label
  pub layer : Text
  pub args : List Arg
  pub metadata : Text

pub record World (C E W : Type 0) : Type 0 where
  pub spans : List (Span C E)
  pub reports : List Report
  pub shared : W

-- The result of a call: the context's new state, the shared state, and whether it failed.
pub record Called (C W : Type 0) : Type 0 where
  pub ctx : C
  pub shared : W
  pub failed : Bool

pub record ContextOptions : Type 0 where
  pub md_str : Text
  pub url : Text
  pub overrides : Overrides

pub record Contexts (C E W : Type 0) : Type 0 where
  pub copy : C → C
  pub report_event : C → Label → Text → Overrides → List Arg → W → Called C W
  pub metadata_string : C → Text
  pub is_sampled : C → Bool
  pub get_enabled : C → W → Bool
  pub set_transaction_name : C → Text → W → W
  pub get_transaction_name : C → W → Text
  pub new_event : C → Label → Text → Bool → W → E × W
  pub report_context : E → C → Bool → List Arg → W → Called C W
  pub event_metadata_string : E → Text
  pub report_span : HttpSpan → W → W
  pub new_context :
      Text → ContextOptions → List (Text × Arg) → W → Option (C × List (Text × Text)) × W

-- A value of the interface `Span`.
pub data SpanValue (C : Type 0) : Type 0 where
  null_span : SpanValue C
  span_at : ℕ → SpanValue C
  context_span : C → SpanValue C
