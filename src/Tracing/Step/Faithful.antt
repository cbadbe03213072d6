-- ===== src/Tracing/Step/Faithful.antt =====
-- The invariant that every step keeps, and the pieces of its proof.
use mathlib.Core.Path.{subst}
use package.appoptics_apm_go.Base.{
  length-append, ℕ, suc, ◌≡◌, refl, sym, ◌∙◌, arith, inl, inr, false, List, [], ◌∷◌, ◌++◌, Option,
  none, some, if◌then◌else◌, length, get_elem?, set, All,
}
use package.appoptics_apm_go.Tracing.{Parent, Span, Report, World, Root}
use package.appoptics_apm_go.Tracing.Step.Ledger.{
  exits, joined, IsWithin, Behind, exits-fresh, joined-fresh, is_exit, exits-other, joined-other,
  wider,
}
use package.appoptics_apm_go.Tracing.Step.Lookups.{
  get_elem?-set, get_elem?-append, length-set, All-append_one,
}

abbrev pub Rootless : {E : Type 0} → Option (Root E) → Parent → Type 0
Rootless none p = Unit
Rootless (some root) p = p ≡ Parent.no_parent

module _ {C E : Type 0} where
  -- The span has exited once if it has ended, and not yet otherwise; while it is open it keeps the
  -- metadata of the children that have exited, in order.
  pub record IsAccounted (r : ℕ) (s : Span C E) (reports : List Report) : Type 0 where
    pub exited : exits r reports ≡ (if s.ended then 1 else 0)
    pub edges : s.child_edges ≡ (if s.ended then [] else joined r reports)
    pub before : Behind r s.parent
    pub rootless : Rootless s.root s.parent

module _ {C E : Type 0} where
  -- What a step other than an end or a start changes of a span is not in the account.
  pub record IsSameSpan (s s' : Span C E) : Type 0 where
    pub same_ended : s'.ended ≡ s.ended
    pub same_edges : s'.child_edges ≡ s.child_edges
    pub same_parent : s'.parent ≡ s.parent
    pub same_root : Rootless s'.root s'.parent

  pub moved :
      (r : ℕ) (s s' : Span C E) (reports reports' : List Report)
      → exits r reports' ≡ exits r reports
      → joined r reports' ≡ joined r reports
      → IsSameSpan s s'
      → IsAccounted r s reports
      → IsAccounted r s' reports'
  moved r s s' reports reports' same_exits same_joined same known = record {
    exited = rw (same.same_ended) (same_exits ∙ known.exited);
    edges = rw (same.same_ended, same_joined) (same.same_edges ∙ known.edges);
    before = rw (same.same_parent) known.before;
    rootless = same.same_root;
  }

  pub refl-IsSameSpan : (s : Span C E) → Rootless s.root s.parent → IsSameSpan s s
  refl-IsSameSpan s h = record {
    same_ended = refl;
    same_edges = refl;
    same_parent = refl;
    same_root = h;
  }

module _ {C E W : Type 0} where
  pub record IsFaithful (w : World C E W) : Type 0 where
    pub accounted :
        (r : ℕ) (s : Span C E) → get_elem? w.spans r ≡ some s → IsAccounted r s w.reports
    pub within : All (IsWithin (length w.spans)) w.reports

  -- A span is replaced by one with the same account, and the reports grow by none or by one that is no exit.
  pub changed-IsFaithful :
      (w : World C E W) (r : ℕ) (s s' : Span C E) (shared : W)
      → IsFaithful w
      → get_elem? w.spans r ≡ some s
      → IsSameSpan s s'
      → IsFaithful (record w { spans = set w.spans r s'; shared = shared })
  changed-IsFaithful w r s s' shared known found same = record {
    accounted = λ j t e. elim (get_elem?-set w.spans r j s' t e) [
      | inl (at, is) ↦
          subst (λ i. IsAccounted i t w.reports) at
            (subst (λ t. IsAccounted r t w.reports) is
              (moved r s s' w.reports w.reports refl refl same (known.accounted r s found)))
      | inr (ne, old) ↦ known.accounted j t old
    ];
    within = rw (length-set w.spans r s') known.within;
  }

  pub reported-IsFaithful :
      (w : World C E W) (x : Report) (shared : W)
      → IsFaithful w
      → is_exit x.label ≡ false
      → IsWithin (length w.spans) x
      → IsFaithful (record w { reports = w.reports ++ (x ∷ []); shared = shared })
  reported-IsFaithful w x shared known other inside = record {
    accounted = λ j t e.
        let old = known.accounted j t e in
        moved j t t w.reports (w.reports ++ (x ∷ [])) (exits-other j w.reports x other)
          (joined-other j w.reports x other) (refl-IsSameSpan t old.rootless) old;
    within = All-append_one (IsWithin (length w.spans)) w.reports x known.within inside;
  }

  pub fresh-IsFaithful :
      (w : World C E W) (s : Span C E) (shared : W)
      → IsFaithful w
      → s.ended ≡ false
      → s.child_edges ≡ []
      → Behind (length w.spans) s.parent
      → Rootless s.root s.parent
      → IsFaithful (record w { spans = w.spans ++ (s ∷ []); shared = shared })
  fresh-IsFaithful w s shared known new no_edges before rootless = record {
    accounted = λ j t e. elim (get_elem?-append w.spans s j t e) [
      | inl old ↦ known.accounted j t old
      | inr (at, is) ↦
          subst (λ i. IsAccounted i t w.reports) (sym at)
            (subst (λ t. IsAccounted (length w.spans) t w.reports) is account)
    ];
    within = rw (longer) (wider (length w.spans) w.reports known.within);
  }
    where
      longer : length (w.spans ++ (s ∷ [])) ≡ suc (length w.spans)
      longer = omega (arith, length-append w.spans (s ∷ []))

      account : IsAccounted (length w.spans) s w.reports
      account = record {
        exited = rw (new) (exits-fresh (length w.spans) w.reports known.within);
        edges = rw (new) (no_edges ∙ sym (joined-fresh (length w.spans) w.reports known.within));
        before = before;
        rootless = rootless;
      }
