-- ===== src/Tracing/Step/Traces.antt =====
-- The steps of traces keep the account, and so does every sequence of steps.
use mathlib.Core.Path.{subst}
use package.appoptics_apm_go.Base.{
  ◌++◌, set, inl, inr, ℕ, ◌≡◌, refl, sym, ap, ◌∙◌, arith, Bool, true, false, not, ◌&&◌, ◌==◌, List,
  Option, none, some, if◌then◌else◌, get_elem?, Option-cases, Bool-cases,
}
use package.appoptics_apm_go.Base.Text.{Text}
use package.appoptics_apm_go.Base.Options.{>>=-eq-some}
use package.appoptics_apm_go.Tracing.{
  Label, Arg, Overrides, Parent, Span, World, Root, Called, Contexts, TraceHttpSpan,
}
use package.appoptics_apm_go.Tracing.Spans.{closed, edge_args, add_child_edge}
use package.appoptics_apm_go.Tracing.Naming.{find_in}
use package.appoptics_apm_go.Tracing.Trace.{
  found_at_start, http_recorded, finalized, at_end, Settings, found_root, pair_root,
  record_http_span, recorded_span, exit_call, exited, report_exit, with_trace, end_trace,
  end_trace_with_overrides, end_callback, change_root, exit_event_of, exit_metadata,
}
use package.appoptics_apm_go.Tracing.Step.Faithful.{IsFaithful, Rootless, changed-IsFaithful}
use package.appoptics_apm_go.Tracing.Step.Edges.{told}
use package.appoptics_apm_go.Tracing.Step.Lookups.{some-inj}

if_false : {A : Type 0} (b : Bool) (x : A) {y z : A} → b ≡ false → (if b then x else y) ≡ z → y ≡ z
if_false true x so e = absurd (grind arith)
if_false false x so e = e

if_true : {A : Type 0} (b : Bool) (y : A) {x z : A} → b ≡ true → (if b then x else y) ≡ z → x ≡ z
if_true true y so e = e
if_true false y so e = absurd (grind arith)

Rootless-any :
    {E : Type 0} (root : Option (Root E)) (p : Parent) → p ≡ Parent.no_parent → Rootless root p
Rootless-any none p e = tt
Rootless-any (some root) p e = e

module _ {C E : Type 0} where
  -- A span that is found as a trace.
  record IsRootOf (o : Option (Span C E)) (s : Span C E) (root : Root E) : Type 0 where
    found : o ≡ some s
    rooted : s.root ≡ some root

  paired :
      (s : Span C E) (r : Option (Root E)) (s' : Span C E) (root : Root E)
      → pair_root s r ≡ some (s', root)
      → (s ≡ s') × (r ≡ some root)
  paired s none s' root e = absurd (ground arith)
  paired s (some root') s' root e = (
    ap (λ (t : Span C E × Root E). t.0) (some-inj e),
    ap (λ (t : Span C E × Root E). some t.1) (some-inj e),
  )

  found_root-IsRootOf :
      (o : Option (Span C E)) (s : Span C E) (root : Root E)
      → found_root o ≡ some (s, root)
      → IsRootOf o s root
  found_root-IsRootOf none s root e = absurd (ground arith)
  found_root-IsRootOf (some s') s root e =
      let both = paired s' s'.root s root e in
      record {
        found = ap (λ (t : Span C E). some t) both.0;
        rooted = subst (λ (t : Span C E). t.root ≡ some root) both.0 both.1;
      }

module _ {C E W : Type 0} where
  -- A trace has no parent.
  root_parent :
      (w : World C E W) (r : ℕ) (s : Span C E) (root : Root E)
      → IsFaithful w
      → IsRootOf (get_elem? w.spans r) s root
      → s.parent ≡ Parent.no_parent
  root_parent w r s root known is = rw is.rooted at (known.accounted r s is.found).rootless

  put_root-IsFaithful :
      (w : World C E W) (r : ℕ) (s : Span C E) (root root' : Root E) (shared : W)
      → IsFaithful w
      → IsRootOf (get_elem? w.spans r) s root
      → IsFaithful
          (record w { spans = set w.spans r (record s { root = some root' }); shared = shared })
  put_root-IsFaithful w r s root root' shared known is =
      changed-IsFaithful w r s _ shared known is.found (record {
        same_ended = refl;
        same_edges = refl;
        same_parent = refl;
        same_root = root_parent w r s root known is;
      })

module _ {C E W : Type 0} (api : Contexts C E W) where
  pub change_root-IsFaithful :
      (w : World C E W) (r : ℕ) (change : Root E → Root E)
      → IsFaithful w
      → IsFaithful (change_root api w r change)
  unfolding change_root
  change_root-IsFaithful w r change known = elim (Option-cases (found_root (get_elem? w.spans r))) [
    | inl missing ↦ rw (missing) known
    | inr (pair, e) ↦ rw (e) (
        put_root-IsFaithful w r pair.0 pair.1 _ w.shared known
          (found_root-IsRootOf (get_elem? w.spans r) pair.0 pair.1 e))
  ]

  exit_event_of-IsFaithful :
      (w : World C E W) (r : ℕ) (s : Span C E) (root : Root E) (e : Option E)
      → IsFaithful w
      → IsRootOf (get_elem? w.spans r) s root
      → IsFaithful (exit_event_of api w r s root e).1
  exit_event_of-IsFaithful w r s root (some e) known is = known
  exit_event_of-IsFaithful w r s root none known is =
      put_root-IsFaithful w r s root _ (api.new_event s.ao_ctx Label.exit s.name false w.shared).1
        known is

  pub exit_metadata-IsFaithful :
      (w : World C E W) (r : ℕ) → IsFaithful w → IsFaithful (exit_metadata api w r).1
  unfolding exit_metadata
  exit_metadata-IsFaithful w r known = elim (Option-cases (found_root (get_elem? w.spans r))) [
    | inl missing ↦ rw (missing) known
    | inr (pair, e) ↦ rw (e) (
        exit_event_of-IsFaithful w r pair.0 pair.1 pair.1.exit_event known
          (found_root-IsRootOf (get_elem? w.spans r) pair.0 pair.1 e))
  ]

  -- What is recorded of a trace at its end leaves its parent.
  parent_kept : (t t' : Span C E × W) → some t ≡ some t' → t'.0.parent ≡ t.0.parent
  parent_kept t t' e = ap (λ (t : Span C E × W). t.0.parent) (sym (some-inj e))

  record_http_span-parent :
      (cfg : Settings) (shared : W) (s : Span C E) (root : Root E) (http : TraceHttpSpan)
      (t : Span C E × W)
      → record_http_span api cfg shared s root http ≡ some t
      → t.0.parent ≡ s.parent
  unfolding record_http_span
  record_http_span-parent cfg shared s root http t e =
      let done =
        >>=-eq-some (find_in 3 s.end_args (found_at_start api http))
          (λ found. some (http_recorded api shared s root (finalized api cfg shared s http found)))
          e in
      parent_kept (http_recorded api shared s root (finalized api cfg shared s http done.0)) t
        done.2

  recorded_span-parent :
      (cfg : Settings) (shared : W) (s : Span C E) (root : Root E) (t : Span C E × W)
      → recorded_span api cfg shared s root ≡ some t
      → t.0.parent ≡ s.parent
  unfolding recorded_span
  recorded_span-parent cfg shared s root t e =
      elim (Bool-cases (not (root.http_span.start == 0) && api.get_enabled s.ao_ctx shared)) [
        | inl timed ↦
            record_http_span-parent cfg shared s root (at_end api root.http_span cfg.now) t
              (rw timed at e)
        | inr untimed ↦ parent_kept (s, shared) t (rw untimed at e)
      ]

  -- A trace has ended, whatever was recorded of it.
  exited-IsFaithful :
      (w : World C E W) (r : ℕ) (s : Span C E) (root root' : Root E) (s' : Span C E) (shared : W)
      → IsFaithful w
      → IsRootOf (get_elem? w.spans r) s root
      → s.ended ≡ false
      → s'.parent ≡ s.parent
      → IsFaithful (exited api w r root' (s', shared))
  unfolding exited add_child_edge
  exited-IsFaithful w r s root root' s' shared known is still same =
      told w r s (closed api s' called.ctx) _ called.shared known is.found still refl refl same
        (Rootless-any s'.root s'.parent (same ∙ no_parent_)) refl refl same Parent.no_parent
        no_parent_
    where
      no_parent_ : s.parent ≡ Parent.no_parent
      no_parent_ = root_parent w r s root known is

      called : Called C W
      called = exit_call api s' root' (s'.end_args ++ edge_args s'.child_edges) shared

  report_exit-IsFaithful :
      (cfg : Settings) (w : World C E W) (r : ℕ) (s s' : Span C E) (root root' : Root E)
      (w' : World C E W)
      → IsFaithful w
      → IsRootOf (get_elem? w.spans r) s root
      → s.ended ≡ false
      → s'.parent ≡ s.parent
      → report_exit api cfg w r s' root' ≡ some w'
      → IsFaithful w'
  unfolding report_exit
  report_exit-IsFaithful cfg w r s s' root root' w' known is still same e =
      let done = >>=-eq-some (recorded_span api cfg w.shared s' root') _ e in
      subst (λ (w : World C E W). IsFaithful w) (some-inj done.2)
        (exited-IsFaithful w r s root root' done.0.0 done.0.1 known is still
          (recorded_span-parent cfg w.shared s' root' done.0 done.1 ∙ same))

  with_trace-IsFaithful :
      (w : World C E W) (r : ℕ) (step : Span C E → Root E → Option (World C E W)) (w' : World C E W)
      → IsFaithful w
      → ((s : Span C E) (root : Root E)
          → IsRootOf (get_elem? w.spans r) s root
          → s.ended ≡ false
          → step s root ≡ some w'
          → IsFaithful w')
      → with_trace api w r step ≡ some w'
      → IsFaithful w'
  unfolding with_trace
  with_trace-IsFaithful w r step w' known stepped e =
      elim (Option-cases (found_root (get_elem? w.spans r))) [
        | inl missing ↦ subst (λ (w : World C E W). IsFaithful w) (some-inj (rw missing at e)) known
        | inr (pair, is) ↦ elim (Bool-cases pair.0.ended) [
          | inl over ↦
              subst (λ (w : World C E W). IsFaithful w)
                (some-inj (if_true pair.0.ended (step pair.0 pair.1) over (rw is at e))) known
          | inr still ↦
              stepped pair.0 pair.1 (found_root-IsRootOf (get_elem? w.spans r) pair.0 pair.1 is)
                still (if_false pair.0.ended (some w) still (rw is at e))
        ]
      ]

  pub end_trace_with_overrides-IsFaithful :
      (cfg : Settings) (w : World C E W) (r : ℕ) (overrides : Overrides) (args : List Arg)
      (w' : World C E W)
      → IsFaithful w
      → end_trace_with_overrides api cfg w r overrides args ≡ some w'
      → IsFaithful w'
  unfolding end_trace_with_overrides
  end_trace_with_overrides-IsFaithful cfg w r overrides args w' known e =
      with_trace-IsFaithful w r _ w' known
        (λ s root is still e. report_exit-IsFaithful cfg w r s _ root _ w' known is still refl e) e

  pub end_trace-IsFaithful :
      (cfg : Settings) (w : World C E W) (r : ℕ) (args : List Arg) (w' : World C E W)
      → IsFaithful w
      → end_trace api cfg w r args ≡ some w'
      → IsFaithful w'
  unfolding end_trace
  end_trace-IsFaithful cfg w r args w' known e =
      with_trace-IsFaithful w r _ w' known
        (λ s root is still e. report_exit-IsFaithful cfg w r s _ root _ w' known is still refl e) e

  pub end_callback-IsFaithful :
      (cfg : Settings) (w : World C E W) (r : ℕ) (cb : Option (List (Text × Arg)))
      (w' : World C E W)
      → IsFaithful w
      → end_callback api cfg w r cb ≡ some w'
      → IsFaithful w'
  unfolding end_callback
  end_callback-IsFaithful cfg w r cb w' known e =
      with_trace-IsFaithful w r _ w' known
        (λ s root is still e. report_exit-IsFaithful cfg w r s _ root _ w' known is still refl e) e
