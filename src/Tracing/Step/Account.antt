-- ===== src/Tracing/Step/Account.antt =====
-- Every sequence of calls keeps the account, and an exit carries it.
use package.appoptics_apm_go.Base.{
  ℕ, ◌≡◌, refl, ap, ◌∙◌, arith, Bool, false, List, [], ◌∷◌, ◌++◌, Option, none, some, if◌then◌else◌,
  length, get_elem?, ◌||◌, if_both, Option-cases, inl, inr,
}
use package.appoptics_apm_go.Base.Text.{Text}
use package.appoptics_apm_go.Tracing.{
  Label, Arg, Overrides, Parent, Span, Report, World, Contexts, SpanValue,
}
use package.appoptics_apm_go.Tracing.Naming.{is_empty}
use package.appoptics_apm_go.Tracing.Spans.{
  fresh_span, end_with_overrides, end_open, add_child_edge, edge_args,
}
use package.appoptics_apm_go.Tracing.Trace.{
  SpanOptions, new_root, started_trace, new_trace_with_options, entry_kvs,
}
use package.appoptics_apm_go.Tracing.Step.{Step, Reached}
use package.appoptics_apm_go.Tracing.Step.Ledger.{exits, joined}
use package.appoptics_apm_go.Tracing.Step.Faithful.{IsFaithful, fresh-IsFaithful}
use package.appoptics_apm_go.Tracing.Step.Kept.{
  shared-IsFaithful, end_with_overrides-IsFaithful, add_end_args-IsFaithful,
  info_with_overrides-IsFaithful, span_error-IsFaithful, set_span_transaction_name-IsFaithful,
  begin_span_with_overrides-IsFaithful,
}
use package.appoptics_apm_go.Tracing.Step.Traces.{
  change_root-IsFaithful, exit_metadata-IsFaithful, end_trace-IsFaithful,
  end_trace_with_overrides-IsFaithful, end_callback-IsFaithful,
}

module _ {C E W : Type 0} (api : Contexts C E W) where
  started_trace-IsFaithful :
      (w : World C E W) (name transaction_name : Text) (now : ℕ)
      (made : Option (C × List (Text × Text)) × W)
      → IsFaithful w
      → IsFaithful (started_trace api w name transaction_name now made).1
  unfolding started_trace
  started_trace-IsFaithful w name transaction_name now (none, shared) known =
      shared-IsFaithful w shared known
  started_trace-IsFaithful w name transaction_name now (some (ctx, headers), shared) known =
      if_both (λ (w : World C E W). IsFaithful w) (is_empty transaction_name) (λ _. begun)
        (λ _. set_span_transaction_name-IsFaithful api _ (length w.spans) transaction_name begun)
    where
      begun : IsFaithful (record w {
        spans =
            w.spans ++ (fresh_span ctx name Parent.no_parent (some (new_root now headers)) ∷ []);
        shared = shared;
      })
      begun = fresh-IsFaithful w _ shared known refl refl tt refl

  new_trace-IsFaithful :
      (w : World C E W) (is_closed : Bool) (name : Text) (opts : SpanOptions) (stack : Text)
      (now : ℕ)
      → IsFaithful w
      → IsFaithful (new_trace_with_options api w is_closed name opts stack now).1
  unfolding new_trace_with_options
  new_trace-IsFaithful w is_closed name opts stack now known =
      if_both (λ (t : SpanValue C × World C E W). IsFaithful t.1) (is_closed || is_empty name)
        (λ _. known)
        (λ _.
          started_trace-IsFaithful w name opts.transaction_name now
            (api.new_context name opts.context_options (entry_kvs opts stack) w.shared) known)

  Step-IsFaithful : {w w' : World C E W} → Step api w w' → IsFaithful w → IsFaithful w'
  Step-IsFaithful (Step.begin_trace is_closed name opts stack now) known =
      new_trace-IsFaithful _ is_closed name opts stack now known
  Step-IsFaithful (Step.begin_span parent name overrides bt stack args) known =
      begin_span_with_overrides-IsFaithful api _ parent name overrides bt stack args known
  Step-IsFaithful (Step.end_span r s overrides args found no_root) known =
      end_with_overrides-IsFaithful api _ r overrides args known
  Step-IsFaithful (Step.end_of_trace cfg r overrides args w' e) known =
      end_trace_with_overrides-IsFaithful api cfg _ r overrides args w' known e
  Step-IsFaithful (Step.end_plain cfg r args w' e) known =
      end_trace-IsFaithful api cfg _ r args w' known e
  Step-IsFaithful (Step.end_called_back cfg r cb w' e) known =
      end_callback-IsFaithful api cfg _ r cb w' known e
  Step-IsFaithful (Step.more_args r args) known = add_end_args-IsFaithful api _ r args known
  Step-IsFaithful (Step.inform r overrides bt stack args) known =
      info_with_overrides-IsFaithful api _ r overrides bt stack args known
  Step-IsFaithful (Step.report_error r class msg stack) known =
      span_error-IsFaithful api _ r class msg stack known
  Step-IsFaithful (Step.name_transaction r name) known =
      set_span_transaction_name-IsFaithful api _ r name known
  Step-IsFaithful (Step.set_root r change) known = change_root-IsFaithful api _ r change known
  Step-IsFaithful (Step.ask_exit_metadata r) known = exit_metadata-IsFaithful api _ r known

  pub Reached-IsFaithful : {shared : W} {w : World C E W} → Reached api shared w → IsFaithful w
  Reached-IsFaithful Reached.at_start = record {
    accounted = λ r s e. absurd (ground arith);
    within = tt;
  }
  Reached-IsFaithful (Reached.after reached step) =
      Step-IsFaithful step (Reached-IsFaithful reached)

-- In every world that the calls of a program can reach, made one after another in any order, a span
-- or trace has reported exactly one exit event if it has ended, and none before; and an open one
-- keeps, in order, the metadata strings of its children that have exited, an ended one none.
pub reached_spans :
    {C E W : Type 0} (api : Contexts C E W) (shared : W) (w : World C E W) (r : ℕ) (s : Span C E)
    → Reached api shared w
    → get_elem? w.spans r ≡ some s
    → (exits r w.reports ≡ (if s.ended then 1 else 0))
      × (s.child_edges ≡ (if s.ended then [] else joined r w.reports))
reached_spans api shared w r s reached found =
    let account = (Reached-IsFaithful api reached).accounted r s found in
    (account.exited, account.edges)

add_child_edge-reports :
    {C E W : Type 0} (w : World C E W) (p : Parent) (md : Text)
    → (add_child_edge w p md).reports ≡ w.reports
unfolding add_child_edge
add_child_edge-reports w Parent.no_parent md = refl
add_child_edge-reports w Parent.context_parent md = refl
add_child_edge-reports {C} {E} {W} w (Parent.span_parent p) md =
    elim (Option-cases (get_elem? w.spans p)) [
      | inl missing ↦ rw (missing) refl
      | inr (s, found) ↦
          rw (found)
            (if_both (λ (w' : World C E W). w'.reports ≡ w.reports) s.ended (λ _. refl) (λ _. refl))
    ]

module _ {C E W : Type 0} (api : Contexts C E W) (w : World C E W) (r : ℕ) (s : Span C E)
    (overrides : Overrides) (args : List Arg) where
  abbrev exit_report : List Text → Text → Report
  exit_report edges md = record {
    span = r;
    parent = s.parent;
    label = Label.exit;
    layer = s.name;
    args = (args ++ s.end_args) ++ edge_args edges;
    metadata = md;
  }

  end_open-reports :
      (md : Text) × ((end_open api w r overrides args s).reports
        ≡ w.reports ++ (exit_report s.child_edges md ∷ []))
  unfolding end_open
  end_open-reports = (_, add_child_edge-reports _ s.parent _)

  end_is_open :
      get_elem? w.spans r ≡ some s
      → s.ended ≡ false
      → end_with_overrides api w r overrides args ≡ end_open api w r overrides args s
  unfolding end_with_overrides
  end_is_open found still =
      rw (found) (ap (λ (b : Bool). if b then w else end_open api w r overrides args s) still)

-- The end of an open span, in a world that such calls reach, and while no other call runs, reports
-- one exit event, whose arguments are those of the call, those that were added before, and an Edge
-- for every child that has exited, in order.
pub end_reports_children :
    {C E W : Type 0} (api : Contexts C E W) (shared : W) (w : World C E W) (r : ℕ) (s : Span C E)
    (overrides : Overrides) (args : List Arg)
    → Reached api shared w
    → get_elem? w.spans r ≡ some s
    → s.ended ≡ false
    → (md : Text) × ((end_with_overrides api w r overrides args).reports
        ≡ w.reports
          ++ (record {
            span = r;
            parent = s.parent;
            label = Label.exit;
            layer = s.name;
            args = (args ++ s.end_args) ++ edge_args (joined r w.reports);
            metadata = md;
          }
              ∷ []))
end_reports_children api shared w r s overrides args reached found still =
    let reported = end_open-reports api w r s overrides args in
    (
      reported.0,
      ap (λ (w : World _ _ _). w.reports) (end_is_open api w r s overrides args found still)
          ∙ reported.1
          ∙ ap
              (λ (edges : List Text).
                w.reports ++ (exit_report api w r s overrides args edges reported.0 ∷ []))
              (rw still at ((Reached-IsFaithful api reached).accounted r s found).edges),
    )
