-- ===== src/Tracing/Step/Edges.antt =====
-- An end is accounted for: the span has exited, and its parent has an edge more.
use mathlib.Core.Path.{subst}
use mathlib.Core.List.{append-nil}
use package.appoptics_apm_go.Base.{
  ℕ, ◌<◌, ◌≡◌, ◌≢◌, refl, sym, ap, ◌∙◌, arith, inl, inr, Bool, true, false, List, [], ◌∷◌, ◌++◌,
  none, some, ◌==◌, ==_iff, if◌then◌else◌, length, get_elem?, set, All, Option-cases, Bool-cases,
}
use package.appoptics_apm_go.Base.Text.{Text}
use package.appoptics_apm_go.Tracing.{Label, Parent, Span, Report, World}
use package.appoptics_apm_go.Tracing.Spans.{add_child_edge, add_edge}
use package.appoptics_apm_go.Tracing.Step.Ledger.{
  exits, joined, IsWithin, Behind, exits-append, joined-append, is_parent,
}
use package.appoptics_apm_go.Tracing.Step.Lookups.{
  none_not-some, some-inj, get_elem?-set, get_elem?-lt, length-set, All-append_one,
}
use package.appoptics_apm_go.Tracing.Step.Faithful.{
  IsAccounted, IsFaithful, Rootless, moved, refl-IsSameSpan,
}

ne→eq-false : (a b : ℕ) → a ≢ b → (a == b) ≡ false
ne→eq-false a b ne = elim (Bool-cases (a == b)) [
  | inl eq ↦ absurd (ne ((==_iff a b).0 eq))
  | inr differ ↦ differ
]

false_not-true : false ≡ true → ⊥
false_not-true e = grind arith

pub Behind-mono : (n k : ℕ) (p : Parent) → n < k → Behind n p → Behind k p
Behind-mono n k Parent.no_parent h before = tt
Behind-mono n k (Parent.span_parent p) h before = omega arith
Behind-mono n k Parent.context_parent h before = tt

-- What telling a parent does, by what the parent is.
module _ {C E W : Type 0} (w : World C E W) (q : ℕ) (md : Text) where
  tell_missing : get_elem? w.spans q ≡ none → add_child_edge w (Parent.span_parent q) md ≡ w
  unfolding add_child_edge
  tell_missing e = rw (e) refl

  tell_ended :
      (u : Span C E)
      → get_elem? w.spans q ≡ some u
      → u.ended ≡ true
      → add_child_edge w (Parent.span_parent q) md ≡ w
  unfolding add_child_edge
  tell_ended u e over = rw (e, over) refl

  tell_open :
      (u : Span C E)
      → get_elem? w.spans q ≡ some u
      → u.ended ≡ false
      → add_child_edge w (Parent.span_parent q) md ≡ add_edge w q md u
  unfolding add_child_edge
  tell_open u e still = rw (e) (ap (λ (b : Bool). if b then w else add_edge w q md u) still)

-- The world right after span `r` has exited, before its parent is told.
module _ {C E W : Type 0} (w : World C E W) (r : ℕ) (s s' : Span C E) (x : Report) (shared : W)
    (known : IsFaithful w) (found : get_elem? w.spans r ≡ some s) (open_before : s.ended ≡ false)
    (ended : s'.ended ≡ true) (no_edges : s'.child_edges ≡ []) (same : s'.parent ≡ s.parent)
    (rootless : Rootless s'.root s'.parent) (exit : x.label ≡ Label.exit) (of_span : x.span ≡ r)
    (of_parent : x.parent ≡ s.parent) where
  abbrev reports : List Report
  reports = w.reports ++ (x ∷ [])

  abbrev after_exit : World C E W
  after_exit = record w { spans = set w.spans r s'; reports = reports; shared = shared }

  own_exit : exits r reports ≡ 1
  own_exit =
      exits-append r w.reports x
      ∙ rw (exit, of_span, (==_iff r r).1 refl)
          (omega (arith, rw open_before at (known.accounted r s found).exited))

  other_exits : (j : ℕ) → r ≢ j → exits j reports ≡ exits j w.reports
  other_exits j ne =
      exits-append j w.reports x ∙ rw (of_span, ne→eq-false r j ne, exit) (omega arith)

  -- The children that have joined `j`: one more where `j` is the parent.
  other_joined : (j : ℕ) → is_parent j s.parent ≡ false → joined j reports ≡ joined j w.reports
  other_joined j ne =
      joined-append j w.reports x ∙ rw (exit, of_parent, ne) (append-nil (joined j w.reports))

  parent_joined :
      (j : ℕ)
      → is_parent j s.parent ≡ true
      → joined j reports ≡ joined j w.reports ++ (x.metadata ∷ [])
  parent_joined j is_it = joined-append j w.reports x ∙ rw (exit, of_parent, is_it) refl

  -- Every span is accounted for, but that the parent lacks the edge if it is open.
  own_account : IsAccounted r s' reports
  own_account = record {
    exited = rw (ended) own_exit;
    edges = rw (ended) no_edges;
    before = rw (same) ((known.accounted r s found).before);
    rootless = rootless;
  }

  bystander :
      (j : ℕ) (t : Span C E)
      → r ≢ j
      → get_elem? w.spans j ≡ some t
      → is_parent j s.parent ≡ false
      → IsAccounted j t reports
  bystander j t ne old not_parent =
      let account = known.accounted j t old in
      moved j t t w.reports reports (other_exits j ne) (other_joined j not_parent)
        (refl-IsSameSpan t account.rootless) account

  -- An ended parent keeps no edges.
  ended_parent :
      (j : ℕ) (t : Span C E)
      → r ≢ j
      → get_elem? w.spans j ≡ some t
      → t.ended ≡ true
      → IsAccounted j t reports
  ended_parent j t ne old over =
      let account = known.accounted j t old in
      record {
        exited = other_exits j ne ∙ account.exited;
        edges = rw (over) (rw over at account.edges);
        before = account.before;
        rootless = account.rootless;
      }

  open_parent :
      (j : ℕ) (t : Span C E)
      → r ≢ j
      → get_elem? w.spans j ≡ some t
      → t.ended ≡ false
      → is_parent j s.parent ≡ true
      → IsAccounted j (record t { child_edges = t.child_edges ++ (x.metadata ∷ []) }) reports
  open_parent j t ne old still is_it =
      let account = known.accounted j t old in
      record {
        exited = other_exits j ne ∙ account.exited;
        edges = rw (still) (
            ap (λ (edges : List Text). edges ++ (x.metadata ∷ [])) (rw still at account.edges)
            ∙ sym (parent_joined j is_it));
        before = account.before;
        rootless = account.rootless;
      }

  x-IsWithin : IsWithin (length w.spans) x
  x-IsWithin = record {
    span_within = rw (of_span) (get_elem?-lt w.spans r found);
    parent_within = rw (of_parent) (
        Behind-mono r (length w.spans) s.parent (get_elem?-lt w.spans r found)
          ((known.accounted r s found).before));
  }

  All-IsWithin : All (IsWithin (length (set w.spans r s'))) reports
  All-IsWithin =
      rw (length-set w.spans r s')
        (All-append_one (IsWithin (length w.spans)) w.reports x known.within x-IsWithin)

  -- A span of the world after the exit is the one that has exited, or is as before.
  account_of :
      (j : ℕ) (t : Span C E)
      → get_elem? after_exit.spans j ≡ some t
      → (r ≢ j → get_elem? w.spans j ≡ some t → IsAccounted j t reports)
      → IsAccounted j t reports
  account_of j t e others = elim (get_elem?-set w.spans r j s' t e) [
    | inl (at, is) ↦
        subst (λ i. IsAccounted i t reports) at
          (subst (λ t. IsAccounted r t reports) is own_account)
    | inr (ne, old) ↦ others ne old
  ]

  pub unmoved :
      ((j : ℕ) (t : Span C E)
        → get_elem? after_exit.spans j ≡ some t
        → is_parent j s.parent ≡ true
        → t.ended ≡ true)
      → IsFaithful after_exit
  unmoved over = record {
    accounted = λ j t e. account_of j t e λ ne old. elim (Bool-cases (is_parent j s.parent)) [
      | inl is_it ↦ ended_parent j t ne old (over j t e is_it)
      | inr other ↦ bystander j t ne old other
    ];
    within = All-IsWithin;
  }

  told_open :
      (q : ℕ) (u : Span C E)
      → s.parent ≡ Parent.span_parent q
      → get_elem? after_exit.spans q ≡ some u
      → u.ended ≡ false
      → IsFaithful (add_edge after_exit q x.metadata u)
  told_open q u is_q at_q still = record {
    accounted = λ j t e. elim (get_elem?-set after_exit.spans q j u' t e) [
      | inl (at, is) ↦
          subst (λ i. IsAccounted i t reports) at
            (subst (λ t. IsAccounted q t reports) is parent_account)
      | inr (ne, before) ↦
          account_of j t before λ ne' old. bystander j t ne' old (rw (is_q) (ne→eq-false q j ne))
    ];
    within = rw (length-set after_exit.spans q u') All-IsWithin;
  }
    where
      u' : Span C E
      u' = record u { child_edges = u.child_edges ++ (x.metadata ∷ []) }

      earlier : q < r
      earlier = subst (λ p. Behind r p) is_q ((known.accounted r s found).before)

      parent_account : IsAccounted q u' reports
      parent_account = elim (get_elem?-set w.spans r q s' u at_q) [
        | inl (at, is) ↦ absurd (omega (arith, at, earlier))
        | inr (ne, old) ↦ open_parent q u ne old still (rw (is_q) ((==_iff q q).1 refl))
      ]

  pub told : (p : Parent) → s.parent ≡ p → IsFaithful (add_child_edge after_exit p x.metadata)
  unfolding add_child_edge
  told Parent.no_parent e = unmoved λ j t e' is_it. absurd (false_not-true (rw e at is_it))
  told Parent.context_parent e = unmoved λ j t e' is_it. absurd (false_not-true (rw e at is_it))
  told (Parent.span_parent q) e = elim (Option-cases (get_elem? after_exit.spans q)) [
    | inl gone ↦
        subst IsFaithful (sym (tell_missing after_exit q x.metadata gone))
          (unmoved λ j t e' is_it. absurd (none_not-some (sym gone ∙ at_q_too j t e' is_it)))
    | inr (u, at_q) ↦ elim (Bool-cases u.ended) [
      | inl over ↦ subst IsFaithful (sym (tell_ended after_exit q x.metadata u at_q over)) (
          unmoved λ j t e' is_it.
            subst (λ (u : Span C E). u.ended ≡ true) (some-inj (sym at_q ∙ at_q_too j t e' is_it))
              over)
      | inr still ↦
          subst IsFaithful (sym (tell_open after_exit q x.metadata u at_q still))
            (told_open q u e at_q still)
    ]
  ]
    where
      at_q_too :
          (j : ℕ) (t : Span C E)
          → get_elem? after_exit.spans j ≡ some t
          → is_parent j s.parent ≡ true
          → get_elem? after_exit.spans q ≡ some t
      at_q_too j t e' is_it =
          subst (λ i. get_elem? after_exit.spans i ≡ some t) (sym ((==_iff q j).0 (rw e at is_it)))
            e'
