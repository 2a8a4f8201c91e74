-- ===== src/Outcome.antt =====
-- Results of code that can throw or read outside a buffer.
pub mod Optional
use aurum.Base.{◌≡◌, refl, Bool, true, false, if◌then◌else◌, subst}

-- `out_of_bounds` is no C++ value: a read past the end of a buffer, which is undefined behaviour.
-- The other two are the `std::overflow_error`s that `base_builder::get_data` throws.
pub data Fault : Type 0 where
  out_of_bounds too_many_requests payload_too_large : Fault

pub data Outcome {ℓ} (A : Type ℓ) : Type ℓ where
  ok : A → Outcome A
  fault : Fault → Outcome A

infixl 5 ◌>>=◌
abbrev pub ◌>>=◌ {ℓ κ} : {A : Type ℓ} {B : Type κ} → Outcome A → (A → Outcome B) → Outcome B
ok a >>= f = f a
fault e >>= f = fault e

-- A postcondition: `P` of a result, `F` of a fault.
pub data Ends {ℓ} {A : Type ℓ} (F : Fault → Type 0) (P : A → Type 0) : Outcome A → Type ℓ where
  returns : {a : A} → P a → Ends F P (ok a)
  fails : {e : Fault} → F e → Ends F P (fault e)

-- The code returns, with a result of which `P` holds.
abbrev pub Returns {ℓ} : {A : Type ℓ} → (A → Type 0) → Outcome A → Type ℓ
Returns P m = Ends (λ e. ⊥) P m

module _ {ℓ} {A : Type ℓ} {F : Fault → Type 0} {P : A → Type 0} where
  pub Ends-if :
      (c : Bool) {x y : Outcome A}
      → (c ≡ true → Ends F P x)
      → (c ≡ false → Ends F P y)
      → Ends F P (if c then x else y)
  Ends-if true hx hy = hx refl
  Ends-if false hx hy = hy refl

  pub Ends-bind {κ} :
      {B : Type κ} {Q : B → Type 0} {m : Outcome A} {f : A → Outcome B}
      → Ends F P m
      → ((a : A) → P a → Ends F Q (f a))
      → Ends F Q (m >>= f)
  Ends-bind (returns {a = a} h) k = k a h
  Ends-bind (fails h) k = fails h

  -- What cannot fail cannot fail in one of the ways of `F`.
  pub Returns-Ends : {m : Outcome A} → Returns P m → Ends F P m
  Returns-Ends (returns h) = returns h
  Returns-Ends (fails h) = absurd h

  pub Ends-mono : {Q : A → Type 0} {m : Outcome A} → ((a : A) → P a → Q a) → Ends F P m → Ends F Q m
  Ends-mono k (returns {a = a} h) = returns (k a h)
  Ends-mono k (fails h) = fails h

  -- An equation with a result is the strongest postcondition.
  pub Ends-eq : {m : Outcome A} {a : A} → m ≡ ok a → P a → Ends F P m
  Ends-eq e h = rw e (returns h)

Ends-holds {ℓ} : {A : Type ℓ} {F : Fault → Type 0} {P : A → Type 0} {a : A} → Ends F P (ok a) → P a
Ends-holds (returns h) = h

-- A postcondition holds of the result that there is.
pub Ends-ok {ℓ} :
    {A : Type ℓ} {F : Fault → Type 0} {P : A → Type 0} {m : Outcome A} {a : A}
    → m ≡ ok a
    → Ends F P m
    → P a
Ends-ok {F} {P} e h = Ends-holds (subst (Ends F P) e h)

pub Returns-both {ℓ} :
    {A : Type ℓ} {P Q : A → Type 0} {m : Outcome A}
    → Returns P m
    → Returns Q m
    → Returns (λ (a : A). P a × Q a) m
Returns-both (returns h) (returns k) = returns (h, k)
Returns-both (fails h) k = absurd h

pub Returns-ok {ℓ} :
    {A : Type ℓ} {P : A → Type 0} {m : Outcome A} → Returns P m → (a : A) × (m ≡ ok a) × P a
Returns-ok (returns {a = a} h) = (a, refl, h)
Returns-ok (fails h) = absurd h

-- Two chains that agree from a step on.
pub bind_through {ℓ κ μ} :
    {A : Type ℓ} {B : Type κ} {C : Type μ} (m : Outcome A) {f : A → Outcome C} (g : A → Outcome B)
    (k : B → Outcome C)
    → ((a : A) → f a ≡ (g a >>= k))
    → (m >>= f) ≡ ((m >>= g) >>= k)
bind_through (ok a) g k h = h a
bind_through (fault e) g k h = refl

-- Passing a result on changes nothing.
pub bind-ok {ℓ κ} :
    {A : Type ℓ} {B : Type κ} (m : Outcome A) (f : A → Outcome B)
    → ((m >>= λ a. ok a) >>= f) ≡ (m >>= f)
bind-ok (ok a) f = refl
bind-ok (fault e) f = refl

pub bind_ok {ℓ} : {A : Type ℓ} (m : Outcome A) → (m >>= λ a. ok a) ≡ m
bind_ok (ok a) = refl
bind_ok (fault e) = refl

pub bind_assoc {ℓ κ μ} :
    {A : Type ℓ} {B : Type κ} {C : Type μ} (m : Outcome A) (f : A → Outcome B) (g : B → Outcome C)
    → ((m >>= f) >>= g) ≡ (m >>= λ a. f a >>= g)
bind_assoc (ok a) f g = refl
bind_assoc (fault e) f g = refl

-- A chain that returns did not fail before.
pub bind-eq-ok {ℓ κ} :
    {A : Type ℓ} {B : Type κ} (m : Outcome A) (f : A → Outcome B) {b : B}
    → (m >>= f) ≡ ok b
    → (a : A) × (m ≡ ok a) × (f a ≡ ok b)
bind-eq-ok (ok a) f h = (a, refl, h)
bind-eq-ok (fault e) f h = cc
