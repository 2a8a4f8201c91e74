-- ===== src/Base/Lists.antt =====
-- Lists measured and indexed by native numbers, under the library's names.
use Prim.Native.Nat.{ℕ, zero, suc, ◌+◌, ◌-◌, ◌≤◌}
use mathlib.Core.Path.{◌≡◌, refl, ap, subst}
use mathlib.Core.Logic.{◌≢◌}
use mathlib.Core.List.{List, [], ◌∷◌, ◌++◌}
use mathlib.Core.Option.{Option, none, some}
use native.Mathlib.Omega.{arith}

module _ {ℓ} {A : Type ℓ} where
  abbrev pub length : List A → ℕ
  length [] = 0
  length (x ∷ xs) = suc (length xs)

  abbrev pub get_elem? : List A → ℕ → Option A
  get_elem? [] i = none
  get_elem? (x ∷ xs) zero = some x
  get_elem? (x ∷ xs) (suc i) = get_elem? xs i

  -- A write out of bounds changes nothing.
  abbrev pub set : List A → ℕ → A → List A
  set [] i v = []
  set (x ∷ xs) zero v = v ∷ xs
  set (x ∷ xs) (suc i) v = x ∷ set xs i v

  abbrev pub take : ℕ → List A → List A
  take zero xs = []
  take (suc n) [] = []
  take (suc n) (x ∷ xs) = x ∷ take n xs

  abbrev pub drop : ℕ → List A → List A
  drop zero xs = xs
  drop (suc n) [] = []
  drop (suc n) (x ∷ xs) = drop n xs

  abbrev pub replicate : ℕ → A → List A
  replicate zero a = []
  replicate (suc n) a = a ∷ replicate n a

  abbrev pub All {κ} : (A → Type κ) → List A → Type κ
  All P [] = Unit
  All P (x ∷ xs) = P x × All P xs

module _ {ℓ} {A : Type ℓ} where
  pub length-append : (xs ys : List A) → length (xs ++ ys) ≡ length xs + length ys
  length-append [] ys = omega arith
  length-append (x ∷ xs) ys = omega (arith, length-append xs ys)

  pub length-take : (n : ℕ) (xs : List A) → n ≤ length xs → length (take n xs) ≡ n
  length-take zero xs h = refl
  length-take (suc n) [] h = absurd (omega arith)
  length-take (suc n) (x ∷ xs) h = ap suc (length-take n xs (omega arith))

  pub length-drop : (n : ℕ) (xs : List A) → length (drop n xs) ≡ length xs - n
  length-drop zero xs = omega arith
  length-drop (suc n) [] = omega arith
  length-drop (suc n) (x ∷ xs) = omega (arith, length-drop n xs)

  pub take-drop : (n : ℕ) (xs : List A) → xs ≡ take n xs ++ drop n xs
  take-drop zero xs = refl
  take-drop (suc n) [] = refl
  take-drop (suc n) (x ∷ xs) = ap (◌∷◌ x) (take-drop n xs)

  -- A prefix of known length is what `take` and `drop` split off.
  pub take-append : (xs ys : List A) {n : ℕ} → length xs ≡ n → take n (xs ++ ys) ≡ xs
  take-append [] ys {n = zero} h = refl
  take-append [] ys {n = suc n} h = absurd (omega arith)
  take-append (x ∷ xs) ys {n = zero} h = absurd (omega arith)
  take-append (x ∷ xs) ys {n = suc n} h = ap (◌∷◌ x) (take-append xs ys (omega arith))

  pub drop-append : (xs ys : List A) {n : ℕ} → length xs ≡ n → drop n (xs ++ ys) ≡ ys
  drop-append [] ys {n = zero} h = refl
  drop-append [] ys {n = suc n} h = absurd (omega arith)
  drop-append (x ∷ xs) ys {n = zero} h = absurd (omega arith)
  drop-append (x ∷ xs) ys {n = suc n} h = drop-append xs ys (omega arith)

  pub All-append {κ} : (P : A → Type κ) (xs ys : List A) → All P xs → All P ys → All P (xs ++ ys)
  All-append P [] ys hx hy = hy
  All-append P (x ∷ xs) ys hx hy = (hx.0, All-append P xs ys hx.1 hy)

module _ {ℓ κ} {A : Type ℓ} (P : A → Type κ) where
  pub All-take : (n : ℕ) (xs : List A) → All P xs → All P (take n xs)
  All-take zero xs h = tt
  All-take (suc n) [] h = tt
  All-take (suc n) (x ∷ xs) h = (h.0, All-take n xs h.1)

  pub All-drop : (n : ℕ) (xs : List A) → All P xs → All P (drop n xs)
  All-drop zero xs h = h
  All-drop (suc n) [] h = tt
  All-drop (suc n) (x ∷ xs) h = All-drop n xs h.1

pub All-mono {ℓ κ μ} :
    {A : Type ℓ} (P : A → Type κ) (Q : A → Type μ) (xs : List A)
    → ((x : A) → P x → Q x)
    → All P xs
    → All Q xs
All-mono P Q [] k h = tt
All-mono P Q (x ∷ xs) k h = (k x h.0, All-mono P Q xs k h.1)

module _ {ℓ κ} {A : Type ℓ} (P : A → Type κ) where
  pub All-set : (xs : List A) (i : ℕ) {y : A} → P y → All P xs → All P (set xs i y)
  All-set [] i hy h = tt
  All-set (x ∷ xs) zero hy h = (hy, h.1)
  All-set (x ∷ xs) (suc i) hy h = (h.0, All-set xs i hy h.1)

  pub All-get_elem : (xs : List A) (i : ℕ) {x : A} → get_elem? xs i ≡ some x → All P xs → P x
  All-get_elem [] i e h = cc
  All-get_elem (z ∷ xs) zero {x} e h = let same : z ≡ x = cc in subst P same h.0
  All-get_elem (z ∷ xs) (suc i) e h = All-get_elem xs i e h.1

module _ {ℓ} {A : Type ℓ} where
  pub get_elem-set :
      (xs : List A) (i : ℕ) {x y : A} → get_elem? xs i ≡ some x → get_elem? (set xs i y) i ≡ some y
  get_elem-set [] i h = cc
  get_elem-set (x ∷ xs) zero h = refl
  get_elem-set (x ∷ xs) (suc i) h = get_elem-set xs i h

  pub get_elem-set_other :
      (xs : List A) (i k : ℕ) (y : A) → i ≢ k → get_elem? (set xs i y) k ≡ get_elem? xs k
  get_elem-set_other [] i k y ne = refl
  get_elem-set_other (x ∷ xs) zero zero y ne = absurd (ne refl)
  get_elem-set_other (x ∷ xs) zero (suc k) y ne = refl
  get_elem-set_other (x ∷ xs) (suc i) zero y ne = refl
  get_elem-set_other (x ∷ xs) (suc i) (suc k) y ne =
      get_elem-set_other xs i k y (λ e. ne (ap suc e))
