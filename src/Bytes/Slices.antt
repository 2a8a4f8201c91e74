-- ===== src/Bytes/Slices.antt =====
-- Reads from a buffer. A read is in bounds or a fault.
use aurum.Base.{
  All, All-take, All-drop, subst, ◌<◌, ◌^◌, ℕ, ◌+◌, ◌≤◌, ◌≡◌, ◌++◌, arith, length, leb, take, drop,
  if◌then◌else◌, length-append, length-take, length-drop, take-append, drop-append,
}
use aurum.Outcome.{Returns, returns, Ends-eq, Ends-bind, Outcome, ok, fault, out_of_bounds, ◌>>=◌}
use aurum.Bytes.Endian.{Bytes, IsByte, from_le, from_le_lt}

-- `std::memcpy(dest, bs.data() + off, n)`.
unfoldable pub slice : ℕ → ℕ → Bytes → Outcome Bytes
slice off n bs =
    if leb (off + n) (length bs) then ok (take n (drop off bs)) else fault out_of_bounds

-- A copy of `width` bytes at `off` into an integer, from little-endian.
unfoldable pub read_le : ℕ → ℕ → Bytes → Outcome ℕ
read_le width off bs = do raw ← slice off width bs; ok (from_le raw)

-- `bs.data()[off]`.
unfoldable pub byte_at : ℕ → Bytes → Outcome ℕ
byte_at off bs = read_le 1 off bs

-- A read within the buffer succeeds with the bytes asked for.
pub slice_ok :
    (off n : ℕ) (bs : Bytes) → off + n ≤ length bs → slice off n bs ≡ ok (take n (drop off bs))
unfolding slice
slice_ok off n bs h = ground arith

-- The piece in the middle of a buffer is what a read at its place returns.
pub slice-append :
    (front piece back : Bytes) {off n : ℕ}
    → length front ≡ off
    → length piece ≡ n
    → slice off n (front ++ (piece ++ back)) ≡ ok piece
slice-append front piece back {off} {n} hf hp =
    rw (slice_ok off n _ room, drop-append front (piece ++ back) hf, take-append piece back hp)
  where
    room : off + n ≤ length (front ++ (piece ++ back))
    room = omega (arith, length-append front (piece ++ back), length-append piece back)

pub read_le-append :
    (front piece back : Bytes) {off n : ℕ}
    → length front ≡ off
    → length piece ≡ n
    → read_le n off (front ++ (piece ++ back)) ≡ ok (from_le piece)
unfolding read_le
read_le-append front piece back hf hp = rw (slice-append front piece back hf hp)

-- A read within the buffer returns as many bytes as were asked for.
pub slice-Returns :
    (off n : ℕ) (bs : Bytes)
    → off + n ≤ length bs
    → Returns (λ (p : Bytes). length p ≡ n) (slice off n bs)
slice-Returns off n bs h =
    Ends-eq (slice_ok off n bs h) (length-take n (drop off bs) (omega (arith, length-drop off bs)))

pub read_le-Returns :
    (n off : ℕ) (bs : Bytes)
    → off + n ≤ length bs
    → Returns (λ (v : ℕ). Unit {0}) (read_le n off bs)
unfolding read_le
read_le-Returns n off bs h = Ends-bind (slice-Returns off n bs h) (λ raw e. returns tt)

-- An integer read from bytes fits its width.
pub read_le_lt :
    (n off : ℕ) (bs : Bytes)
    → All IsByte bs
    → off + n ≤ length bs
    → Returns (λ (v : ℕ). v < 256 ^ n) (read_le n off bs)
unfolding read_le
read_le_lt n off bs bytes h =
    Ends-eq (rw (slice_ok off n bs h))
      (subst (λ (k : ℕ). from_le piece < 256 ^ k) size (from_le_lt piece piece_bytes))
  where
    piece : Bytes
    piece = take n (drop off bs)

    piece_bytes : All IsByte piece
    piece_bytes = All-take IsByte n _ (All-drop IsByte off bs bytes)

    size : length piece ≡ n
    size = length-take n (drop off bs) (omega (arith, length-drop off bs))

-- The same, for a buffer that is known to be made up so.
module _ (bs front piece back : Bytes) {off n : ℕ} (parts : bs ≡ front ++ (piece ++ back)) where
  pub slice_at : length front ≡ off → length piece ≡ n → slice off n bs ≡ ok piece
  slice_at hf hp = rw parts (slice-append front piece back hf hp)

  pub read_le_at : length front ≡ off → length piece ≡ n → read_le n off bs ≡ ok (from_le piece)
  read_le_at hf hp = rw parts (read_le-append front piece back hf hp)
