-- ===== src/Base/Permuted.antt =====
-- What does not depend on the order of a list.
use Prim.Native.Nat.{ℕ, zero, suc, ◌+◌}
use native.Mathlib.Nat.{ℕ_set}
use native.Mathlib.Omega.{arith}
use mathlib.Core.Path.{◌≡◌, refl, ◌∙◌, subst, ap}
use mathlib.Core.Option.{some}
use mathlib.Core.Logic.{∥∥₁_elim}
use mathlib.Core.HLevel.{×_prop}
use mathlib.Core.List.{List, [], ◌∷◌, ◌++◌, Perm, Permᴰ}
use mathlib.Core.List.Permᴰ.{nil, cons, swap, trans}
use aurum.Base.Lists.{All, get_elem?, set}

module _ {ℓ} {A : Type ℓ} where
  abbrev pub sum_by : (A → ℕ) → List A → ℕ
  sum_by f [] = 0
  sum_by f (x ∷ xs) = f x + sum_by f xs

  pub sum_by-append : (f : A → ℕ) (xs ys : List A) → sum_by f (xs ++ ys) ≡ sum_by f xs + sum_by f ys
  sum_by-append f [] ys = omega arith
  sum_by-append f (x ∷ xs) ys = omega (arith, sum_by-append f xs ys)

  -- A write replaces one summand.
  pub sum_by-set :
      (f : A → ℕ) (xs : List A) (i : ℕ) (x y : A)
      → get_elem? xs i ≡ some x
      → sum_by f (set xs i y) + f x ≡ sum_by f xs + f y
  sum_by-set f [] i x y h = cc
  sum_by-set f (z ∷ xs) zero x y h = let same : z ≡ x = cc in rw same (omega arith)
  sum_by-set f (z ∷ xs) (suc i) x y h = omega (arith, sum_by-set f xs i x y h)

  sum_by-permᴰ : (f : A → ℕ) {xs ys : List A} → Permᴰ xs ys → sum_by f xs ≡ sum_by f ys
  sum_by-permᴰ f nil = refl
  sum_by-permᴰ f (cons e p) = omega (arith, ap f e, sum_by-permᴰ f p)
  sum_by-permᴰ f (swap e d) = omega (arith, ap f e, ap f d)
  sum_by-permᴰ f (trans p q) = sum_by-permᴰ f p ∙ sum_by-permᴰ f q

  pub sum_by-perm : (f : A → ℕ) {xs ys : List A} → Perm xs ys → sum_by f xs ≡ sum_by f ys
  sum_by-perm f p = ∥∥₁_elim p (ℕ_set _ _) (sum_by-permᴰ f)

module _ {ℓ κ} {A : Type ℓ} (P : A → Type κ) where
  All-permᴰ : {xs ys : List A} → Permᴰ xs ys → All P xs → All P ys
  All-permᴰ nil h = h
  All-permᴰ (cons e p) h = (subst P e h.0, All-permᴰ p h.1)
  All-permᴰ (swap e d) h = (subst P d h.1.0, (subst P e h.0, h.1.1))
  All-permᴰ (trans p q) h = All-permᴰ q (All-permᴰ p h)

  All-prop : ((a : A) → IsProp (P a)) → (xs : List A) → IsProp (All P xs)
  All-prop h [] = λ x y. refl
  All-prop h (x ∷ xs) = ×_prop (h x) (All-prop h xs)

  pub All-perm : ((a : A) → IsProp (P a)) → {xs ys : List A} → Perm xs ys → All P xs → All P ys
  All-perm prop {ys} p h = ∥∥₁_elim p (All-prop prop ys) (λ q. All-permᴰ q h)
