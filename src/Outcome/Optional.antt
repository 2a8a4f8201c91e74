-- ===== src/Outcome/Optional.antt =====
-- Calls that return or throw, where nothing more is said of what they throw.
use aurum.Base.{Option, none, some}

infixl 5 ◌>>=◌
abbrev pub ◌>>=◌ {ℓ κ} : {A : Type ℓ} {B : Type κ} → Option A → (A → Option B) → Option B
none >>= f = none
some a >>= f = f a
