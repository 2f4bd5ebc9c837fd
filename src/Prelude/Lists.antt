-- ===== src/Prelude/Lists.antt =====
-- Lists over the native numbers, and predicates on lists by recursion.
use Prim.Native.Nat.{ℕ, suc, ◌+◌}
use mathlib.Core.Path.{◌≡◌}
use mathlib.Core.List.{List, [], ◌∷◌, ◌++◌}
use native.Mathlib.Omega.{arith}

module _ {ℓ} {A : Type ℓ} where
  abbrev pub length : List A → ℕ
  length [] = 0
  length (x ∷ xs) = suc (length xs)

  pub length-append : (xs ys : List A) → length (xs ++ ys) ≡ length xs + length ys
  length-append [] ys = omega arith
  length-append (x ∷ xs) ys = omega (arith, length-append xs ys)

  -- A predicate of every element, which computes to tuples.
  abbrev pub All {κ} : (A → Type κ) → List A → Type κ
  All Q [] = Unit
  All Q (x ∷ xs) = Q x × All Q xs

  pub All-append {κ} : (Q : A → Type κ) (xs ys : List A) → All Q xs → All Q ys → All Q (xs ++ ys)
  All-append Q [] ys hx hy = hy
  All-append Q (x ∷ xs) ys hx hy = (hx.0, All-append Q xs ys hx.1 hy)

  pub All-append_left {κ} : (Q : A → Type κ) (xs ys : List A) → All Q (xs ++ ys) → All Q xs
  All-append_left Q [] ys h = tt
  All-append_left Q (x ∷ xs) ys h = (h.0, All-append_left Q xs ys h.1)

  pub All-append_right {κ} : (Q : A → Type κ) (xs ys : List A) → All Q (xs ++ ys) → All Q ys
  All-append_right Q [] ys h = h
  All-append_right Q (x ∷ xs) ys h = All-append_right Q xs ys h.1

  pub All-imp {κ μ} :
      (Q : A → Type κ) (R : A → Type μ) (xs : List A) → ((a : A) → Q a → R a) → All Q xs → All R xs
  All-imp Q R [] f h = tt
  All-imp Q R (x ∷ xs) f h = (f x h.0, All-imp Q R xs f h.1)

module _ {ℓ κ μ} {A : Type ℓ} {B : Type κ} where
  -- A relation between all elements of two lists, read from the other side.
  pub All-swap :
      (R : A → B → Type μ) (xs : List A) (ys : List B)
      → All (λ (x : A). All (λ (y : B). R x y) ys) xs
      → All (λ (y : B). All (λ (x : A). R x y) xs) ys
  All-swap R xs [] h = tt
  All-swap R xs (y ∷ ys) h = (
    All-imp (λ (x : A). All (λ (z : B). R x z) (y ∷ ys)) (λ (x : A). R x y) xs (λ x r. r.0) h,
    All-swap R xs ys (
        All-imp (λ (x : A). All (λ (z : B). R x z) (y ∷ ys)) (λ (x : A). All (λ (z : B). R x z) ys)
          xs (λ x r. r.1) h),
  )
