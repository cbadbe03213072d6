-- ===== src/Tracing/Step.antt =====
-- v1/ao/layer.go and v1/ao/trace.go as a machine: the calls of a program on its spans, in any
-- order, one after another. A step is a whole call: what concurrent calls on spans of one trace do
-- between each other's locks is not modelled.
pub mod Lookups
pub mod Ledger
pub mod Edges
pub mod Faithful
pub mod Kept
pub mod Traces
pub mod Account
mod Runs
use package.appoptics_apm_go.Base.{ℕ, Bool, List, [], Option, none, some, ◌≡◌, get_elem?}
use package.appoptics_apm_go.Base.Text.{Text}
use package.appoptics_apm_go.Tracing.{Arg, Overrides, Root, Span, World, Contexts, SpanValue, Label}
use package.appoptics_apm_go.Tracing.Spans.{
  end_with_overrides, add_end_args, info_with_overrides, span_error, set_span_transaction_name,
  begin_span_with_overrides,
}
use package.appoptics_apm_go.Tracing.Trace.{
  Settings, SpanOptions, new_trace_with_options, end_trace, end_trace_with_overrides, end_callback,
  change_root, exit_metadata,
}

abbrev pub empty_world : {C E W : Type 0} → W → World C E W
empty_world shared = record { spans = []; reports = []; shared = shared }

-- `end_span` is the end of a span that is no trace, which the trace's own methods replace.
pub data Step {C E W : Type 0} (api : Contexts C E W) (w : World C E W) : World C E W → Type 0 where
  begin_trace :
      (is_closed : Bool) (name : Text) (opts : SpanOptions) (stack : Text) (now : ℕ)
      → Step api w (new_trace_with_options api w is_closed name opts stack now).1
  begin_span :
      (parent : SpanValue C) (name : Text) (overrides : Overrides) (with_back_trace : Bool)
      (stack : Text) (args : List Arg)
      → Step api w
          (begin_span_with_overrides api w parent name overrides with_back_trace stack args).1
  end_span :
      (r : ℕ) (s : Span C E) (overrides : Overrides) (args : List Arg)
      → get_elem? w.spans r ≡ some s
      → s.root ≡ none
      → Step api w (end_with_overrides api w r overrides args)
  end_of_trace :
      (cfg : Settings) (r : ℕ) (overrides : Overrides) (args : List Arg) (w' : World C E W)
      → end_trace_with_overrides api cfg w r overrides args ≡ some w'
      → Step api w w'
  end_plain :
      (cfg : Settings) (r : ℕ) (args : List Arg) (w' : World C E W)
      → end_trace api cfg w r args ≡ some w'
      → Step api w w'
  end_called_back :
      (cfg : Settings) (r : ℕ) (cb : Option (List (Text × Arg))) (w' : World C E W)
      → end_callback api cfg w r cb ≡ some w'
      → Step api w w'
  more_args : (r : ℕ) (args : List Arg) → Step api w (add_end_args api w r args)
  inform :
      (r : ℕ) (overrides : Overrides) (with_back_trace : Bool) (stack : Text) (args : List Arg)
      → Step api w (info_with_overrides api w r overrides with_back_trace stack args)
  report_error : (r : ℕ) (class msg stack : Text) → Step api w (span_error api w r class msg stack)
  name_transaction : (r : ℕ) (name : Text) → Step api w (set_span_transaction_name api w r name).1
  set_root : (r : ℕ) (change : Root E → Root E) → Step api w (change_root api w r change)
  ask_exit_metadata : (r : ℕ) → Step api w (exit_metadata api w r).1

pub data Reached {C E W : Type 0} (api : Contexts C E W) (shared : W) : World C E W → Type 0 where
  at_start : Reached api shared (empty_world shared)
  after : {w w' : World C E W} → Reached api shared w → Step api w w' → Reached api shared w'
