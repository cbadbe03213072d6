-- ===== src/Tracing/Step/Runs.antt =====
-- A trace with two children, on contexts that are numbers and count their events.
use package.appoptics_apm_go.Base.{
  ℕ, ◌+◌, ◌≡◌, refl, Bool, true, false, List, [], ◌∷◌, ◌++◌, none, some, get_elem?,
}
use package.appoptics_apm_go.Base.Text.{Text, codes}
use package.appoptics_apm_go.Tracing.{Label, Parent, Span, World, Contexts, SpanValue}
use package.appoptics_apm_go.Tracing.Spans.{
  no_overrides, edge_args, begin_span_with_overrides, end_with_overrides, new_span, end_open,
  add_child_edge,
}
use package.appoptics_apm_go.Tracing.Trace.{SpanOptions, new_trace_with_options, started_trace}
use package.appoptics_apm_go.Tracing.Step.{Step, Reached, empty_world}
use package.appoptics_apm_go.Tracing.Step.Ledger.{exits, joined}
use package.appoptics_apm_go.Tracing.Step.Account.{reached_spans, end_reports_children}

abbrev counting : Contexts ℕ ℕ ℕ
counting = record {
  copy = λ c. c;
  report_event =
      λ c label layer overrides args w. record { ctx = w + 1; shared = w + 1; failed = false };
  metadata_string = λ c. c ∷ [];
  is_sampled = λ c. true;
  get_enabled = λ c w. true;
  set_transaction_name = λ c name w. w;
  get_transaction_name = λ c w. [];
  new_event = λ c label layer edge w. (w + 1, w + 1);
  report_context = λ e c edge args w. record { ctx = e; shared = w; failed = false };
  event_metadata_string = λ e. e ∷ [];
  report_span = λ span w. w;
  new_context = λ name opts kvs w. (some (w + 1, []), w + 1);
}

abbrev plain_options : SpanOptions
plain_options = record {
  with_back_trace = false;
  context_options = record { md_str = []; url = []; overrides = no_overrides };
  cb = none;
  transaction_name = [];
}

abbrev traced : World ℕ ℕ ℕ
traced = (new_trace_with_options counting (empty_world 0) false (codes "root") plain_options [] 5).1

abbrev first_child : World ℕ ℕ ℕ
first_child =
    (begin_span_with_overrides counting traced (SpanValue.span_at 0) (codes "a") no_overrides false
      [] []).1

abbrev second_child : World ℕ ℕ ℕ
second_child =
    (begin_span_with_overrides counting first_child (SpanValue.span_at 1) (codes "b") no_overrides
      false [] []).1

abbrev second_ended : World ℕ ℕ ℕ
second_ended = end_with_overrides counting second_child 2 no_overrides []

traced-Reached : Reached counting 0 traced
traced-Reached =
    Reached.after Reached.at_start (Step.begin_trace false (codes "root") plain_options [] 5)

-- Each span of the trace as it is in the end.
abbrev child_span : Text → ℕ → ℕ → List Text → Bool → Span ℕ ℕ
child_span name ctx parent edges ended = record {
  name = name;
  ao_ctx = ctx;
  parent = Parent.span_parent parent;
  child_edges = edges;
  end_args = [];
  ended = ended;
  root = none;
}

inner_is : get_elem? second_child.spans 2 ≡ some (child_span (codes "b") 3 1 [] false)
unfolding new_trace_with_options started_trace begin_span_with_overrides new_span
inner_is = refl

outer_is : get_elem? second_ended.spans 1 ≡ some (child_span (codes "a") 2 0 ((4 ∷ []) ∷ []) false)
unfolding new_trace_with_options started_trace begin_span_with_overrides new_span end_with_overrides
    end_open add_child_edge
outer_is = refl

first_child-Reached : Reached counting 0 first_child
first_child-Reached =
    Reached.after traced-Reached
      (Step.begin_span (SpanValue.span_at 0) (codes "a") no_overrides false [] [])

second_ended-Reached : Reached counting 0 second_ended
second_ended-Reached =
    Reached.after
      (Reached.after first_child-Reached
        (Step.begin_span (SpanValue.span_at 1) (codes "b") no_overrides false [] []))
      (Step.end_span 2 (child_span (codes "b") 3 1 [] false) no_overrides [] inner_is refl)

reached_spans_example :
    (exits 1 second_ended.reports ≡ 0) × ((4 ∷ []) ∷ [] ≡ joined 1 second_ended.reports)
reached_spans_example =
    reached_spans counting 0 second_ended 1 (child_span (codes "a") 2 0 ((4 ∷ []) ∷ []) false)
      second_ended-Reached outer_is

end_reports_children_example :
    (md : Text) × ((end_with_overrides counting second_ended 1 no_overrides []).reports
      ≡ second_ended.reports
        ++ (record {
          span = 1;
          parent = Parent.span_parent 0;
          label = Label.exit;
          layer = codes "a";
          args = edge_args (joined 1 second_ended.reports);
          metadata = md;
        }
            ∷ []))
end_reports_children_example =
    end_reports_children counting 0 second_ended 1
      (child_span (codes "a") 2 0 ((4 ∷ []) ∷ []) false) no_overrides [] second_ended-Reached
      outer_is refl

-- Two calls of `End` that have both found the span open, as they may before either has the lock: the
-- second call's body reports an exit event again.
ended_is : get_elem? second_ended.spans 2 ≡ some (child_span (codes "b") 4 1 [] true)
unfolding new_trace_with_options started_trace begin_span_with_overrides new_span end_with_overrides
    end_open add_child_edge
ended_is = refl

double_exit :
    exits 2
      (end_open counting second_ended 2 no_overrides []
        (child_span (codes "b") 4 1 [] true)).reports
    ≡ 2
unfolding new_trace_with_options started_trace begin_span_with_overrides new_span end_with_overrides
    end_open add_child_edge
double_exit = refl
