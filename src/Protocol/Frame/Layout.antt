-- ===== src/Protocol/Frame/Layout.antt =====
-- The sizes in a frame, and when `get_data` produces one.
use aurum.Base.{
  ltb, ℕ, ◌+◌, ◌*◌, ◌%◌, ◌^◌, ◌≤◌, ◌<◌, ◌≡◌, refl, ◌≢◌, ◌↔◌, Bool, true, false, List, [], ◌∷◌, ◌++◌,
  arith, length, length-append,
}
use aurum.Outcome.{ok, Ends, Returns, returns, fails, Ends-eq, Ends-if, payload_too_large}
use aurum.Bytes.{Bytes, to_le}
use aurum.Protocol.Builder.{Builder}
use aurum.Protocol.Crc.{Crc}
use aurum.Protocol.Frame.{
  payload_size, length_table, payloads, header_size, content, body, header, serialize, get_data,
  max_requests_per_frame, max_frame_payload_size,
}

pub payload_size_lem :
    (acc : ℕ) (ps : List Bytes)
    → acc < 2 ^ 64
    → payload_size acc ps ≡ (acc + length (payloads ps)) % 2 ^ 64
unfolding payload_size payloads
payload_size_lem acc [] h = omega arith
payload_size_lem acc (p ∷ ps) h = omega (
  arith,
  payload_size_lem ((acc + length p) % 2 ^ 64) ps (omega arith),
  length-append p (payloads ps),
)

pub length-length_table : (ps : List Bytes) → length (length_table ps) ≡ 2 * length ps
unfolding length_table
length-length_table [] = omega arith
length-length_table (p ∷ ps) = omega (arith, length-length_table ps)

pub length-content :
    (ps : List Bytes) → length (content ps) ≡ 2 + 2 * length ps + length (payloads ps)
unfolding content
length-content ps =
    omega (arith, length-append (length_table ps) (payloads ps), length-length_table ps)

pub length-body :
    (crc : Crc) (ps : List Bytes)
    → length (body crc ps) ≡ 2 + 2 * length ps + length (payloads ps) + 2
unfolding body
length-body crc ps =
    omega
      (arith, length-append (content ps) (to_le 2 (crc.checksum (content ps))), length-content ps)

-- The limits of `get_data`, on what a frame is to hold.
pub record Fits (ps : List Bytes) : Type 0 where
  pub requests : length ps ≤ max_requests_per_frame
  pub payload : length (payloads ps) ≤ max_frame_payload_size

-- Within the limits, `_header_size` is computed with no wrap-around and is the length of the body.
pub header_size-body :
    (crc : Crc) (ps : List Bytes) → Fits ps → header_size ps ≡ length (body crc ps)
unfolding header_size
header_size-body crc ps fits =
    omega (arith, payload_size_lem 0 ps (omega arith), length-body crc ps)

module _ (crc : Crc) (with_header : Bool) (p : Bytes) (ps : List Bytes) where
  pub serialize-Fits :
      Fits (p ∷ ps)
      → serialize crc with_header (p ∷ ps)
        ≡ ok (header crc with_header (p ∷ ps) ++ body crc (p ∷ ps))
  unfolding serialize
  serialize-Fits fits = ground (arith, payload_size_lem 0 (p ∷ ps))

  pub Fits-serialize :
      {out : Bytes}
      → length (payloads (p ∷ ps)) < 2 ^ 64
      → serialize crc with_header (p ∷ ps) ≡ ok out
      → Fits (p ∷ ps)
  unfolding serialize
  Fits-serialize small e = ground (arith, payload_size_lem 0 (p ∷ ps))

  pub serialize-eq :
      {out : Bytes}
      → length (payloads (p ∷ ps)) < 2 ^ 64
      → serialize crc with_header (p ∷ ps) ≡ ok out
      → out ≡ header crc with_header (p ∷ ps) ++ body crc (p ∷ ps)
  serialize-eq small e = cc (serialize-Fits (Fits-serialize small e))

-- A builder with something queued yields a frame exactly when it holds at most 65535 payloads of
-- at most 4294836217 bytes in all (below 2^64 bytes are queued, as memory is no larger).
pub get_data-Fits :
    (crc : Crc) (with_header : Bool) (b : Builder)
    → b.buffers ≢ []
    → length (payloads b.buffers) < 2 ^ 64
    → ((out : Bytes) × (get_data crc with_header b ≡ ok out)) ↔ Fits b.buffers
unfolding get_data
get_data-Fits crc with_header b = by_buffers b.buffers
  where
    by_buffers :
        (ps : List Bytes)
        → ps ≢ []
        → length (payloads ps) < 2 ^ 64
        → ((out : Bytes) × (serialize crc with_header ps ≡ ok out)) ↔ Fits ps
    by_buffers [] queued small = absurd (queued refl)
    by_buffers (p ∷ ps) queued small = (
      λ r. Fits-serialize crc with_header p ps small r.1,
      λ fits. (
        header crc with_header (p ∷ ps) ++ body crc (p ∷ ps),
        serialize-Fits crc with_header p ps fits,
      ),
    )

-- A frame with its header is the length of the rest, as 4 bytes from little-endian, and the rest:
-- the frame that the same builder yields without a header. The length fits 32 bits.
pub get_data_framing :
    (crc : Crc) (b : Builder) (out : Bytes)
    → b.buffers ≢ []
    → length (payloads b.buffers) < 2 ^ 64
    → get_data crc true b ≡ ok out
    → (rest : Bytes) × (get_data crc false b ≡ ok rest)
      × (out ≡ to_le 4 (length rest) ++ rest)
      × (length rest < 2 ^ 32)
unfolding get_data
get_data_framing crc b out = by_buffers b.buffers
  where
    by_buffers :
        (ps : List Bytes)
        → ps ≢ []
        → length (payloads ps) < 2 ^ 64
        → serialize crc true ps ≡ ok out
        → (rest : Bytes) × (serialize crc false ps ≡ ok rest)
          × (out ≡ to_le 4 (length rest) ++ rest)
          × (length rest < 2 ^ 32)
    by_buffers [] queued small e = absurd (queued refl)
    by_buffers (p ∷ ps) queued small e =
        let fits = Fits-serialize crc true p ps small e in
        (
          body crc (p ∷ ps),
          serialize-Fits crc false p ps fits,
          rw (← header_size-body crc (p ∷ ps) fits) (serialize-eq crc true p ps small e),
          omega (arith, length-body crc (p ∷ ps), fits.requests, fits.payload),
        )

-- Within the limits, the frame with its header in full.
pub get_data-framed :
    (crc : Crc) (b : Builder) (p : Bytes) (ps : List Bytes)
    → b.buffers ≡ p ∷ ps
    → Fits (p ∷ ps)
    → get_data crc true b ≡ ok (to_le 4 (length (body crc (p ∷ ps))) ++ body crc (p ∷ ps))
unfolding get_data
get_data-framed crc b p ps queued fits =
    rw (queued, ← header_size-body crc (p ∷ ps) fits) (serialize-Fits crc true p ps fits)

-- Within the limits `get_data` returns, also where nothing is queued.
pub get_data-Returns :
    (crc : Crc) (with_header : Bool) (b : Builder)
    → Fits b.buffers
    → Returns (λ (out : Bytes). Unit {0}) (get_data crc with_header b)
unfolding get_data
get_data-Returns crc with_header b = by_buffers b.buffers
  where
    by_buffers :
        (ps : List Bytes)
        → Fits ps
        → Returns (λ (out : Bytes). Unit {0}) (serialize crc with_header ps)
    by_buffers [] fits = unfold serialize in returns tt
    by_buffers (p ∷ ps) fits = Ends-eq (serialize-Fits crc with_header p ps fits) tt

-- With at most 65535 payloads queued, `get_data` throws only for their size.
pub get_data-Ends :
    (crc : Crc) (with_header : Bool) (b : Builder)
    → length b.buffers ≤ max_requests_per_frame
    → Ends (λ e. e ≡ payload_too_large) (λ (out : Bytes). Unit {0}) (get_data crc with_header b)
unfolding get_data
get_data-Ends crc with_header b = by_buffers b.buffers
  where
    by_buffers :
        (ps : List Bytes)
        → length ps ≤ max_requests_per_frame
        → Ends
            (λ e. e ≡ payload_too_large)
            (λ (out : Bytes). Unit {0})
            (serialize crc with_header ps)
    by_buffers [] h = unfold serialize in returns tt
    by_buffers (p ∷ ps) h =
        unfold serialize in
        Ends-if (ltb max_requests_per_frame (length (p ∷ ps))) (λ many. absurd (ground arith))
          λ _.
            Ends-if (ltb max_frame_payload_size (payload_size 0 (p ∷ ps))) (λ _. fails refl)
              (λ _. returns tt)
