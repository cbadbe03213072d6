-- ===== src/Tracing/Spans.antt =====
-- v1/ao/layer.go: a span's operations, each as a whole call that no other interrupts.
use package.appoptics_apm_go.Base.{
  ℕ, ◌%◌, Bool, true, false, not, ◌||◌, List, [], ◌∷◌, ◌++◌, Option, none, some, ltb, ◌==◌,
  if◌then◌else◌, length, get_elem?, set, take, ◌-◌,
}
use package.appoptics_apm_go.Base.Text.{Text, codes}
use package.appoptics_apm_go.Tracing.{
  Label, Arg, Overrides, Root, Parent, Span, World, Contexts, SpanValue,
}
use package.appoptics_apm_go.Tracing.Arg.{text, flag}

abbrev pub no_overrides : Overrides
no_overrides = record { explicit_ts = 0; explicit_md_str = [] }

abbrev pub key_edge : Text
key_edge = codes "Edge"

-- An Edge pair for each child that has been joined.
abbrev pub edge_args : List Text → List Arg
edge_args [] = []
edge_args (edge ∷ edges) = text key_edge ∷ text edge ∷ edge_args edges

-- `mergeKVs`, and `addKVsFromOpts` with the stack trace as an argument.
abbrev pub merge_kvs : List Arg → List Arg → List Arg
merge_kvs left right = left ++ right

abbrev pub add_kvs_from_opts : Bool → Text → List Arg → List Arg
add_kvs_from_opts with_back_trace stack args =
    if with_back_trace then merge_kvs args (text (codes "Backtrace") ∷ text stack ∷ []) else args

-- Whether the span is there and has not ended.
abbrev pub open_span {ℓ} : {A : Type ℓ} → Option A → (A → Bool) → Bool
open_span none ended = false
open_span (some s) ended = not (ended s)

module _ {C E : Type 0} where
  abbrev pub fresh_span : C → Text → Parent → Option (Root E) → Span C E
  fresh_span ctx name parent root = record {
    name = name;
    ao_ctx = ctx;
    parent = parent;
    child_edges = [];
    end_args = [];
    ended = false;
    root = root;
  }

module _ {C E W : Type 0} where
  abbrev pub is_ok : World C E W → ℕ → Bool
  is_ok w r = open_span (get_elem? w.spans r) (λ s. s.ended)

  abbrev pub put : World C E W → ℕ → Span C E → World C E W
  put w r s = record w { spans = set w.spans r s }

  -- The step on a span that is there and open; nothing otherwise.
  abbrev pub if_open : Option (Span C E) → World C E W → (Span C E → World C E W) → World C E W
  if_open none w step = w
  if_open (some s) w step = if s.ended then w else step s

  abbrev pub when_ok : World C E W → ℕ → (Span C E → World C E W) → World C E W
  when_ok w r step = if_open (get_elem? w.spans r) w step

  abbrev pub add_edge : World C E W → ℕ → Text → Span C E → World C E W
  add_edge w p md s = put w p (record s { child_edges = s.child_edges ++ (md ∷ []) })

  -- `s.parent != nil && s.parent.ok()`, then `addChildEdge`.
  unfoldable pub add_child_edge : World C E W → Parent → Text → World C E W
  add_child_edge w Parent.no_parent md = w
  add_child_edge w (Parent.span_parent p) md = when_ok w p (add_edge w p md)
  add_child_edge w Parent.context_parent md = w

  abbrev pub logged : World C E W → ℕ → Span C E → Label → List Arg → Text → W → World C E W
  logged w r s label args md shared = record w {
    reports =
        w.reports
        ++ (record {
          span = r;
          parent = s.parent;
          label = label;
          layer = s.name;
          args = args;
          metadata = md;
        }
            ∷ []);
    shared = shared;
  }

module _ {C E W : Type 0} (api : Contexts C E W) where
  -- An event of the span, through its context.
  unfoldable pub report : World C E W → ℕ → Label → Overrides → List Arg → Span C E → World C E W
  report w r label overrides args s =
      let called = api.report_event s.ao_ctx label s.name overrides args w.shared in
      put (logged w r s label args (api.metadata_string called.ctx) called.shared) r
        (record s { ao_ctx = called.ctx })

  abbrev pub closed : Span C E → C → Span C E
  closed s ctx = record s { ao_ctx = ctx; child_edges = []; end_args = []; ended = true }

  -- The body of `End` and `EndWithOverrides`: what runs under the span's lock, and the edge that is
  -- added under the parent's. It does not ask again whether the span is open.
  unfoldable pub end_open : World C E W → ℕ → Overrides → List Arg → Span C E → World C E W
  end_open w r overrides args s =
      let all_args = (args ++ s.end_args) ++ edge_args s.child_edges in
      let called = api.report_event s.ao_ctx Label.exit s.name overrides all_args w.shared in
      let md = api.metadata_string called.ctx in
      add_child_edge
        (put (logged w r s Label.exit all_args md called.shared) r (closed s called.ctx)) s.parent
        md

  -- `ok` is asked before the lock is taken.
  unfoldable pub end_with_overrides : World C E W → ℕ → Overrides → List Arg → World C E W
  end_with_overrides w r overrides args = when_ok w r (end_open w r overrides args)

  -- The dangling argument is dropped.
  abbrev pub even_args : List Arg → List Arg
  even_args args = if length args % 2 == 1 then take (length args - 1) args else args

  unfoldable pub add_end_args : World C E W → ℕ → List Arg → World C E W
  add_end_args w r args =
      when_ok w r λ s. put w r (record s { end_args = s.end_args ++ even_args args })

  unfoldable pub set_async : World C E W → ℕ → Bool → World C E W
  set_async w r val = if val then add_end_args w r (text (codes "Async") ∷ flag true ∷ []) else w

  unfoldable pub info_with_overrides :
      World C E W → ℕ → Overrides → Bool → Text → List Arg → World C E W
  info_with_overrides w r overrides with_back_trace stack args =
      when_ok w r (report w r Label.info overrides (add_kvs_from_opts with_back_trace stack args))

  unfoldable pub span_error : World C E W → ℕ → Text → Text → Text → World C E W
  span_error w r class msg stack = when_ok w r (
      report w r Label.error no_overrides (
        text (codes "Spec")
        ∷ text (codes "error")
        ∷ text (codes "ErrorType")
        ∷ text (codes "exception")
        ∷ text (codes "ErrorClass")
        ∷ text class
        ∷ text (codes "ErrorMsg")
        ∷ text msg
        ∷ text (codes "Backtrace")
        ∷ text stack
        ∷ []))

  -- An `error` that is nil reports nothing.
  unfoldable pub err : World C E W → ℕ → Option Text → Text → World C E W
  err w r none stack = w
  err w r (some msg) stack = span_error w r (codes "error") msg stack

  -- The labeler is a value, so that the name it is given is lost.
  unfoldable pub set_operation_name : World C E W → ℕ → Text → World C E W
  set_operation_name w r name = w

  unfoldable pub span_metadata_string : World C E W → ℕ → Text
  span_metadata_string w r = elim (get_elem? w.spans r) [
    | none ↦ []
    | some s ↦ if s.ended then [] else api.metadata_string s.ao_ctx
  ]

  unfoldable pub span_is_sampled : World C E W → ℕ → Bool
  span_is_sampled w r = elim (get_elem? w.spans r) [
    | none ↦ false
    | some s ↦ if s.ended then false else api.is_sampled s.ao_ctx
  ]

  abbrev pub named_at : World C E W → Text → Option (Span C E) → Bool × World C E W
  named_at w name none = (true, w)
  named_at w name (some s) =
      if s.ended || (length name == 0 || ltb 255 (length name))
      then (true, w)
      else (false, record w { shared = api.set_transaction_name s.ao_ctx name w.shared })

  -- The error of `SetTransactionName`, and the world.
  unfoldable pub set_span_transaction_name : World C E W → ℕ → Text → Bool × World C E W
  set_span_transaction_name w r name = named_at w name (get_elem? w.spans r)

  unfoldable pub get_span_transaction_name : World C E W → ℕ → Text
  get_span_transaction_name w r = elim (get_elem? w.spans r) [
    | none ↦ []
    | some s ↦ api.get_transaction_name s.ao_ctx w.shared
  ]

  -- `newSpan` on a copy of the parent's context: a span is there where the entry was reported.
  unfoldable pub new_span :
      World C E W → C → Text → Parent → Overrides → List Arg → SpanValue C × World C E W
  new_span w ctx name parent overrides args =
      let called = api.report_event ctx Label.entry name overrides args w.shared in
      let started = fresh_span (api.copy called.ctx) name parent none in
      let w' =
        logged w (length w.spans) started Label.entry args (api.metadata_string called.ctx)
          called.shared in
      if length name == 0
      then (SpanValue.null_span, w)
      else if called.failed
      then (SpanValue.null_span, record w { shared = called.shared })
      else (SpanValue.span_at (length w.spans), record w' { spans = w.spans ++ (started ∷ []) })

  abbrev pub begun_at :
      World C E W → ℕ → Text → Overrides → List Arg → Option (Span C E) → SpanValue C × World C E W
  begun_at w r name overrides args none = (SpanValue.null_span, w)
  begun_at w r name overrides args (some s) =
      if s.ended
      then (SpanValue.null_span, w)
      else new_span w (api.copy s.ao_ctx) name (Parent.span_parent r) overrides args

  -- `BeginSpanWithOverrides` on whatever span the parent is.
  unfoldable pub begin_span_with_overrides :
      World C E W
      → SpanValue C
      → Text
      → Overrides
      → Bool
      → Text
      → List Arg
      → SpanValue C × World C E W
  begin_span_with_overrides w SpanValue.null_span name overrides with_back_trace stack args =
      (SpanValue.null_span, w)
  begin_span_with_overrides w (SpanValue.context_span c) name overrides with_back_trace stack args =
      new_span w (api.copy c) name Parent.context_parent overrides
        (add_kvs_from_opts with_back_trace stack args)
  begin_span_with_overrides w (SpanValue.span_at r) name overrides with_back_trace stack args =
      begun_at w r name overrides (add_kvs_from_opts with_back_trace stack args)
        (get_elem? w.spans r)
