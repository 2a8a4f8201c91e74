-- ===== src/Bytes/Endian.antt =====
-- Little-endian integers, and equality of byte strings.
use aurum.Base.{
  ℕ, zero, suc, ◌+◌, ◌*◌, ◌/◌, ◌%◌, ◌^◌, ◌<◌, ◌≡◌, refl, ap₂, List, [], ◌∷◌, Bool, true, false,
  arith, length, All, ℕ_discrete,
}
use native.Mathlib.Nat.{pow-suc}

abbrev pub Bytes : Type 0
Bytes = List ℕ

abbrev pub IsByte : ℕ → Type 0
IsByte b = b < 256

-- A `boost::uuids::uuid`: 16 bytes.
pub record IsUuid (u : Bytes) : Type 0 where
  pub sixteen : length u ≡ 16
  pub bytes : All IsByte u

unfoldable pub bytes_discrete : Discrete Bytes
unfolding ℕ_discrete
bytes_discrete = hlevel ℕ_discrete

-- `==` on uuids, strings and byte vectors.
abbrev pub same : Bytes → Bytes → Bool
same a b = elim (bytes_discrete a b) [ yes _ ↦ true | no _ ↦ false ]

-- The `k` low bytes of a number, lowest first: `native_to_little_inplace` and a copy of the bytes.
abbrev pub to_le : ℕ → ℕ → Bytes
to_le zero n = []
to_le (suc k) n = (n % 256) ∷ to_le k (n / 256)

-- A copy of the bytes into an integer, and `little_to_native_inplace`.
abbrev pub from_le : Bytes → ℕ
from_le [] = 0
from_le (b ∷ bs) = b + 256 * from_le bs

pub length-to_le : (k n : ℕ) → length (to_le k n) ≡ k
length-to_le zero n = refl
length-to_le (suc k) n = omega (arith, length-to_le k (n / 256))

pub to_le-IsByte : (k n : ℕ) → All IsByte (to_le k n)
to_le-IsByte zero n = tt
to_le-IsByte (suc k) n = (omega arith, to_le-IsByte k (n / 256))

pub from_le-to_le : (k n : ℕ) → n < 256 ^ k → from_le (to_le k n) ≡ n
from_le-to_le zero n h = omega (arith, h)
from_le-to_le (suc k) n h =
    let bound : n / 256 < 256 ^ k = omega (arith, pow-suc 256 k) in
    omega (arith, from_le-to_le k (n / 256) bound)

pub from_le_lt : (bs : Bytes) → All IsByte bs → from_le bs < 256 ^ length bs
from_le_lt [] h = omega arith
from_le_lt (b ∷ bs) h = omega (arith, from_le_lt bs h.1, pow-suc 256 (length bs))

pub to_le-from_le : (bs : Bytes) → All IsByte bs → to_le (length bs) (from_le bs) ≡ bs
to_le-from_le [] h = refl
to_le-from_le (b ∷ bs) (hb, hbs) =
    let low : (b + 256 * from_le bs) % 256 ≡ b = omega arith in
    let high : (b + 256 * from_le bs) / 256 ≡ from_le bs = omega arith in
    ap₂ ◌∷◌ low (rw high (to_le-from_le bs hbs))
