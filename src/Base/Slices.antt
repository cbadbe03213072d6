-- ===== src/Base/Slices.antt =====
-- Go's `copy` into a part of a slice.
use native.Mathlib.Omega.{arith}
use Prim.Native.Nat.{ℕ, zero, suc, ◌+◌, ◌-◌, ◌≤◌}
use mathlib.Core.Path.{◌≡◌, refl}
use mathlib.Core.List.{List, [], ◌∷◌, ◌++◌, append-nil}
use package.appoptics_apm_go.Base.Lists.{length, take, drop, length-take, take-append, drop-append}

module _ {ℓ} {A : Type ℓ} where
  -- What `dst` holds after `copy(dst, src)`: as many elements as both have are written.
  abbrev pub copy : List A → List A → List A
  copy dst src = take (length dst) src ++ drop (length src) dst

  -- What `buf` holds after `copy(buf[lo:hi], src)`.
  abbrev pub copy_at : List A → ℕ → ℕ → List A → List A
  copy_at buf lo hi src = take lo buf ++ (copy (take (hi - lo) (drop lo buf)) src ++ drop hi buf)

module _ {ℓ} {A : Type ℓ} where
  take_all : (n : ℕ) (xs : List A) → length xs ≡ n → take n xs ≡ xs
  take_all n xs h = let e : take n (xs ++ []) ≡ xs = take-append n xs [] h in rw append-nil at e

  drop_all : (n : ℕ) (xs : List A) → length xs ≡ n → drop n xs ≡ []
  drop_all n xs h = let e : drop n (xs ++ []) ≡ [] = drop-append n xs [] h in rw append-nil at e

  -- A copy of equal length replaces what it is copied onto.
  pub copy_full : (dst src : List A) → length src ≡ length dst → copy dst src ≡ src
  copy_full dst src h =
      rw (take_all (length dst) src h, drop_all (length src) dst (omega arith), append-nil)

  pub drop_behind :
      (front buf : List A) (hi n : ℕ) → length front + n ≡ hi → drop hi (front ++ buf) ≡ drop n buf
  drop_behind [] buf hi n h = let e : hi ≡ n = omega arith in rw e
  drop_behind (x ∷ front) buf zero n h = absurd (omega arith)
  drop_behind (x ∷ front) buf (suc hi) n h = drop_behind front buf hi n (omega arith)

  -- A copy of `n` elements behind `front`.
  pub copy_at_behind :
      (front buf src : List A) (lo hi : ℕ)
      → length front ≡ lo
      → lo + length src ≡ hi
      → length src ≤ length buf
      → copy_at (front ++ buf) lo hi src ≡ front ++ (src ++ drop (length src) buf)
  copy_at_behind front buf src lo hi h k room =
      let width : hi - lo ≡ length src = omega arith in
      rw (
        take-append lo front buf h,
        drop-append lo front buf h,
        drop_behind front buf hi (length src) (omega arith),
        width,
        copy_full (take (length src) buf) src (omega (arith, length-take (length src) buf)),
      )

  drop-nil : (n : ℕ) → drop {A = A} n [] ≡ []
  drop-nil zero = refl
  drop-nil (suc n) = refl

  pub drop-drop : (m n k : ℕ) (xs : List A) → n + m ≡ k → drop m (drop n xs) ≡ drop k xs
  drop-drop m zero k xs h = let e : m ≡ k = omega arith in rw e
  drop-drop m (suc n) zero xs h = absurd (omega arith)
  drop-drop m (suc n) (suc k) [] h = drop-nil m
  drop-drop m (suc n) (suc k) (x ∷ xs) h = drop-drop m n k xs (omega arith)
