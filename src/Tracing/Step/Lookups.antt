-- ===== src/Tracing/Step/Lookups.antt =====
-- Lists read after a write or after an element more.
use package.appoptics_apm_go.Base.{
  ℕ, zero, suc, ◌<◌, ◌≡◌, ◌≢◌, refl, ap, arith, ◌⊎◌, inl, inr, List, [], ◌∷◌, ◌++◌, none, some,
  length, get_elem?, set, All,
}

pub length-set {ℓ} : {A : Type ℓ} (xs : List A) (i : ℕ) (v : A) → length (set xs i v) ≡ length xs
length-set [] i v = refl
length-set (x ∷ xs) zero v = refl
length-set (x ∷ xs) (suc i) v = ap suc (length-set xs i v)

pub get_elem?-lt {ℓ} :
    {A : Type ℓ} (xs : List A) (i : ℕ) {a : A} → get_elem? xs i ≡ some a → i < length xs
get_elem?-lt [] i h = absurd (ground arith)
get_elem?-lt (x ∷ xs) zero h = omega arith
get_elem?-lt (x ∷ xs) (suc i) h = omega (arith, get_elem?-lt xs i h)

pub get_elem?-append {ℓ} :
    {A : Type ℓ} (xs : List A) (v : A) (j : ℕ) (a : A)
    → get_elem? (xs ++ (v ∷ [])) j ≡ some a
    → (get_elem? xs j ≡ some a) ⊎ ((j ≡ length xs) × (v ≡ a))
get_elem?-append [] v zero a h = inr (refl, ground arith)
get_elem?-append [] v (suc j) a h = absurd (ground arith)
get_elem?-append (x ∷ xs) v zero a h = inl h
get_elem?-append (x ∷ xs) v (suc j) a h = elim (get_elem?-append xs v j a h) [
  | inl e ↦ inl e
  | inr (e, e') ↦ inr (ap suc e, e')
]

pub All-append_one {ℓ κ} :
    {A : Type ℓ} (P : A → Type κ) (xs : List A) (x : A) → All P xs → P x → All P (xs ++ (x ∷ []))
All-append_one P [] x h p = (p, tt)
All-append_one P (y ∷ xs) x (h, hs) p = (h, All-append_one P xs x hs p)

-- Reading a list after a write.
pub get_elem?-set {ℓ} :
    {A : Type ℓ} (xs : List A) (i j : ℕ) (v a : A)
    → get_elem? (set xs i v) j ≡ some a
    → ((i ≡ j) × (v ≡ a)) ⊎ ((i ≢ j) × (get_elem? xs j ≡ some a))
get_elem?-set [] i j v a h = absurd (ground arith)
get_elem?-set (x ∷ xs) zero zero v a h = inl (refl, ground arith)
get_elem?-set (x ∷ xs) zero (suc j) v a h = inr ((λ e. omega arith), h)
get_elem?-set (x ∷ xs) (suc i) zero v a h = inr ((λ e. omega arith), h)
get_elem?-set (x ∷ xs) (suc i) (suc j) v a h = elim (get_elem?-set xs i j v a h) [
  | inl (e, e') ↦ inl (ap suc e, e')
  | inr (ne, e') ↦ inr ((λ e. ne (omega arith)), e')
]

pub none_not-some : {A : Type 0} {a : A} → none ≡ some a → ⊥
none_not-some e = grind arith

pub some-inj : {A : Type 0} {a b : A} → some a ≡ some b → a ≡ b
some-inj e = grind arith

pub length-append_one {ℓ} :
    {A : Type ℓ} (xs : List A) (x : A) → length (xs ++ (x ∷ [])) ≡ suc (length xs)
length-append_one [] x = refl
length-append_one (y ∷ xs) x = ap suc (length-append_one xs x)
