-- ===== src/Tracing/Step/Ledger.antt =====
-- What the reports say of a span: how often it has exited, and which children have joined it.
use mathlib.Core.List.{append-nil, append_assoc}
use package.appoptics_apm_go.Base.{
  ℕ, suc, ◌+◌, ◌<◌, ◌≡◌, refl, sym, ap, ◌∙◌, arith, Bool, true, false, ◌&&◌, List, [], ◌∷◌, ◌++◌,
  ◌==◌, if◌then◌else◌, All,
}
use package.appoptics_apm_go.Base.Text.{Text}
use package.appoptics_apm_go.Tracing.{Label, Parent, Report}

abbrev pub is_exit : Label → Bool
is_exit Label.entry = false
is_exit Label.exit = true
is_exit Label.info = false
is_exit Label.error = false

abbrev pub is_parent : ℕ → Parent → Bool
is_parent r Parent.no_parent = false
is_parent r (Parent.span_parent p) = p == r
is_parent r Parent.context_parent = false

abbrev pub exits_in : ℕ → Report → Bool
exits_in r x = is_exit x.label && x.span == r

abbrev pub joins_in : ℕ → Report → Bool
joins_in r x = is_exit x.label && is_parent r x.parent

abbrev pub exits : ℕ → List Report → ℕ
exits r [] = 0
exits r (x ∷ xs) = (if exits_in r x then 1 else 0) + exits r xs

-- The metadata strings of the children that have exited, in order.
abbrev pub joined : ℕ → List Report → List Text
joined r [] = []
joined r (x ∷ xs) = (if joins_in r x then x.metadata ∷ [] else []) ++ joined r xs

pub exits-append :
    (r : ℕ) (xs : List Report) (x : Report)
    → exits r (xs ++ (x ∷ [])) ≡ exits r xs + (if exits_in r x then 1 else 0)
exits-append r [] x = omega arith
exits-append r (y ∷ xs) x = omega (arith, exits-append r xs x)

pub joined-append :
    (r : ℕ) (xs : List Report) (x : Report)
    → joined r (xs ++ (x ∷ [])) ≡ joined r xs ++ (if joins_in r x then x.metadata ∷ [] else [])
joined-append r [] x = rw append-nil refl
joined-append r (y ∷ xs) x =
    ap (λ (t : List Text). (if joins_in r y then y.metadata ∷ [] else []) ++ t)
      (joined-append r xs x)
    ∙ sym (
        append_assoc (if joins_in r y then y.metadata ∷ [] else []) (joined r xs)
          (if joins_in r x then x.metadata ∷ [] else []))

-- A report is of a span that is there, and so is its parent.
abbrev pub Behind : ℕ → Parent → Type 0
Behind n Parent.no_parent = Unit
Behind n (Parent.span_parent p) = p < n
Behind n Parent.context_parent = Unit

pub record IsWithin (n : ℕ) (x : Report) : Type 0 where
  pub span_within : x.span < n
  pub parent_within : Behind n x.parent

ne-eq : (a b : ℕ) → a < b → (a == b) ≡ false
ne-eq a b h = ground arith

and-false : (b : Bool) → (b && false) ≡ false
and-false true = refl
and-false false = refl

Behind-parent : (n : ℕ) (p : Parent) → Behind n p → is_parent n p ≡ false
Behind-parent n Parent.no_parent h = refl
Behind-parent n (Parent.span_parent p) h = ne-eq p n h
Behind-parent n Parent.context_parent h = refl

pub exits-fresh : (n : ℕ) (xs : List Report) → All (IsWithin n) xs → exits n xs ≡ 0
exits-fresh n [] h = refl
exits-fresh n (x ∷ xs) (h, hs) =
    rw (ne-eq x.span n h.span_within, and-false (is_exit x.label))
      (omega (arith, exits-fresh n xs hs))

pub joined-fresh : (n : ℕ) (xs : List Report) → All (IsWithin n) xs → joined n xs ≡ []
joined-fresh n [] h = refl
joined-fresh n (x ∷ xs) (h, hs) =
    rw (Behind-parent n x.parent h.parent_within, and-false (is_exit x.label))
      (joined-fresh n xs hs)

-- A report that is no exit is in no account.
pub exits-other :
    (r : ℕ) (xs : List Report) (x : Report)
    → is_exit x.label ≡ false
    → exits r (xs ++ (x ∷ [])) ≡ exits r xs
exits-other r xs x other = exits-append r xs x ∙ rw (other) (omega arith)

pub joined-other :
    (r : ℕ) (xs : List Report) (x : Report)
    → is_exit x.label ≡ false
    → joined r (xs ++ (x ∷ [])) ≡ joined r xs
joined-other r xs x other = joined-append r xs x ∙ rw (other) (append-nil (joined r xs))

pub wider : (n : ℕ) (xs : List Report) → All (IsWithin n) xs → All (IsWithin (suc n)) xs
wider n [] h = tt
wider n (x ∷ xs) (h, hs) = (
  record {
    span_within = omega (arith, h.span_within);
    parent_within = behind x.parent h.parent_within;
  },
  wider n xs hs,
)
  where
    behind : (p : Parent) → Behind n p → Behind (suc n) p
    behind Parent.no_parent h = tt
    behind (Parent.span_parent p) h = omega arith
    behind Parent.context_parent h = tt
