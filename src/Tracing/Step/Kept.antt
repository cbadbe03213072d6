-- ===== src/Tracing/Step/Kept.antt =====
-- Every step keeps the account.
use package.appoptics_apm_go.Base.{
  ℕ, suc, ◌≡◌, refl, arith, inl, inr, Bool, false, List, [], ◌∷◌, ◌++◌, Option, none, some, ◌==◌,
  ◌||◌, ltb, length, get_elem?, Option-cases, if_both,
}
use package.appoptics_apm_go.Base.Text.{Text}
use package.appoptics_apm_go.Tracing.{
  Label, Arg, Overrides, Parent, Span, Report, World, Contexts, SpanValue,
}
use package.appoptics_apm_go.Tracing.Spans.{
  when_ok, end_open, end_with_overrides, report, add_end_args, info_with_overrides, span_error,
  set_span_transaction_name, named_at, new_span, fresh_span, begin_span_with_overrides,
}
use package.appoptics_apm_go.Tracing.Step.Ledger.{is_exit, Behind}
use package.appoptics_apm_go.Tracing.Step.Lookups.{get_elem?-lt, length-append_one}
use package.appoptics_apm_go.Tracing.Step.Faithful.{
  IsFaithful, Rootless, changed-IsFaithful, reported-IsFaithful, fresh-IsFaithful,
}
use package.appoptics_apm_go.Tracing.Step.Edges.{told, Behind-mono}

module _ {C E W : Type 0} where
  pub shared-IsFaithful :
      (w : World C E W) (shared : W) → IsFaithful w → IsFaithful (record w { shared = shared })
  shared-IsFaithful w shared known = record { accounted = known.accounted; within = known.within }

  -- A span more, and the report of its entry.
  started-IsFaithful :
      (w : World C E W) (s : Span C E) (x : Report) (shared : W)
      → IsFaithful w
      → s.ended ≡ false
      → s.child_edges ≡ []
      → Behind (length w.spans) s.parent
      → Rootless s.root s.parent
      → is_exit x.label ≡ false
      → x.span ≡ length w.spans
      → x.parent ≡ s.parent
      → IsFaithful (record w {
        spans = w.spans ++ (s ∷ []);
        reports = w.reports ++ (x ∷ []);
        shared = shared;
      })
  started-IsFaithful w s x shared known new no_edges before rootless other of_span of_parent =
      reported-IsFaithful (record w { spans = w.spans ++ (s ∷ []) }) x shared
        (fresh-IsFaithful w s w.shared known new no_edges before rootless) other
        (record {
          span_within = omega (arith, of_span, length-append_one w.spans s);
          parent_within =
              rw (of_parent, length-append_one w.spans s)
                (Behind-mono (length w.spans) (suc (length w.spans)) s.parent (omega arith) before);
        })

  when_ok-IsFaithful :
      (w : World C E W) (r : ℕ) (step : Span C E → World C E W)
      → IsFaithful w
      → ((s : Span C E) → get_elem? w.spans r ≡ some s → s.ended ≡ false → IsFaithful (step s))
      → IsFaithful (when_ok w r step)
  when_ok-IsFaithful w r step known stepped = elim (Option-cases (get_elem? w.spans r)) [
    | inl missing ↦ rw (missing) known
    | inr (s, found) ↦ rw (found) (
        if_both (λ (w : World C E W). IsFaithful w) s.ended (λ _. known)
          (λ still. stepped s found still))
  ]

module _ {C E W : Type 0} (api : Contexts C E W) where
  report-IsFaithful :
      (w : World C E W) (r : ℕ) (label : Label) (overrides : Overrides) (args : List Arg)
      (s : Span C E)
      → is_exit label ≡ false
      → IsFaithful w
      → get_elem? w.spans r ≡ some s
      → IsFaithful (report api w r label overrides args s)
  unfolding report
  report-IsFaithful w r label overrides args s other known found =
      changed-IsFaithful _ r s _ _
        (reported-IsFaithful w _ w.shared known other (record {
          span_within = get_elem?-lt w.spans r found;
          parent_within =
              Behind-mono r (length w.spans) s.parent (get_elem?-lt w.spans r found)
                ((known.accounted r s found).before);
        }))
        found
        (record {
          same_ended = refl;
          same_edges = refl;
          same_parent = refl;
          same_root = (known.accounted r s found).rootless;
        })

  end_open-IsFaithful :
      (w : World C E W) (r : ℕ) (overrides : Overrides) (args : List Arg) (s : Span C E)
      → IsFaithful w
      → get_elem? w.spans r ≡ some s
      → s.ended ≡ false
      → IsFaithful (end_open api w r overrides args s)
  unfolding end_open
  end_open-IsFaithful w r overrides args s known found still =
      told w r s _ _ _ known found still refl refl refl ((known.accounted r s found).rootless) refl
        refl refl s.parent refl

  pub end_with_overrides-IsFaithful :
      (w : World C E W) (r : ℕ) (overrides : Overrides) (args : List Arg)
      → IsFaithful w
      → IsFaithful (end_with_overrides api w r overrides args)
  unfolding end_with_overrides
  end_with_overrides-IsFaithful w r overrides args known =
      when_ok-IsFaithful w r _ known
        λ s found still. end_open-IsFaithful w r overrides args s known found still

  pub add_end_args-IsFaithful :
      (w : World C E W) (r : ℕ) (args : List Arg)
      → IsFaithful w
      → IsFaithful (add_end_args api w r args)
  unfolding add_end_args
  add_end_args-IsFaithful w r args known = when_ok-IsFaithful w r _ known λ s found still.
      changed-IsFaithful w r s _ w.shared known found (record {
        same_ended = refl;
        same_edges = refl;
        same_parent = refl;
        same_root = (known.accounted r s found).rootless;
      })

  pub info_with_overrides-IsFaithful :
      (w : World C E W) (r : ℕ) (overrides : Overrides) (with_back_trace : Bool) (stack : Text)
      (args : List Arg)
      → IsFaithful w
      → IsFaithful (info_with_overrides api w r overrides with_back_trace stack args)
  unfolding info_with_overrides
  info_with_overrides-IsFaithful w r overrides with_back_trace stack args known =
      when_ok-IsFaithful w r _ known
        λ s found still. report-IsFaithful w r Label.info overrides _ s refl known found

  pub span_error-IsFaithful :
      (w : World C E W) (r : ℕ) (class msg stack : Text)
      → IsFaithful w
      → IsFaithful (span_error api w r class msg stack)
  unfolding span_error
  span_error-IsFaithful w r class msg stack known =
      when_ok-IsFaithful w r _ known
        λ s found still. report-IsFaithful w r Label.error _ _ s refl known found

  named_at-IsFaithful :
      (w : World C E W) (name : Text) (o : Option (Span C E))
      → IsFaithful w
      → IsFaithful (named_at api w name o).1
  named_at-IsFaithful w name none known = known
  named_at-IsFaithful w name (some s) known =
      if_both (λ (t : Bool × World C E W). IsFaithful t.1)
        (s.ended || (length name == 0 || ltb 255 (length name))) (λ _. known)
        (λ _. shared-IsFaithful w _ known)

  pub set_span_transaction_name-IsFaithful :
      (w : World C E W) (r : ℕ) (name : Text)
      → IsFaithful w
      → IsFaithful (set_span_transaction_name api w r name).1
  unfolding set_span_transaction_name
  set_span_transaction_name-IsFaithful w r name known =
      named_at-IsFaithful w name (get_elem? w.spans r) known

  new_span-IsFaithful :
      (w : World C E W) (ctx : C) (name : Text) (parent : Parent) (overrides : Overrides)
      (args : List Arg)
      → IsFaithful w
      → Behind (length w.spans) parent
      → IsFaithful (new_span api w ctx name parent overrides args).1
  unfolding new_span
  new_span-IsFaithful w ctx name parent overrides args known before =
      let called = api.report_event ctx Label.entry name overrides args w.shared in
      if_both (λ (t : SpanValue C × World C E W). IsFaithful t.1) (length name == 0) (λ _. known)
        (λ _.
          if_both (λ (t : SpanValue C × World C E W). IsFaithful t.1) called.failed
            (λ _. shared-IsFaithful w called.shared known)
            (λ _.
              started-IsFaithful w (fresh_span (api.copy called.ctx) name parent none) _
                called.shared known refl refl before tt refl refl refl))

  pub begin_span_with_overrides-IsFaithful :
      (w : World C E W) (parent : SpanValue C) (name : Text) (overrides : Overrides)
      (with_back_trace : Bool) (stack : Text) (args : List Arg)
      → IsFaithful w
      → IsFaithful
          (begin_span_with_overrides api w parent name overrides with_back_trace stack args).1
  unfolding begin_span_with_overrides
  begin_span_with_overrides-IsFaithful w SpanValue.null_span name overrides bt stack args known =
      known
  begin_span_with_overrides-IsFaithful w (SpanValue.context_span c) name overrides bt stack args
        known =
      new_span-IsFaithful w _ name Parent.context_parent overrides _ known tt
  begin_span_with_overrides-IsFaithful w (SpanValue.span_at r) name overrides bt stack args known =
      elim (Option-cases (get_elem? w.spans r)) [
        | inl missing ↦ rw (missing) known
        | inr (s, found) ↦ rw (found) (
            if_both (λ (t : SpanValue C × World C E W). IsFaithful t.1) s.ended (λ _. known)
              (λ _.
                new_span-IsFaithful w _ name (Parent.span_parent r) overrides _ known
                  (get_elem?-lt w.spans r found)))
      ]
