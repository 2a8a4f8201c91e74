-- ===== src/Node/Stream.antt =====
-- The bytes that a TCP session receives, as the reads of src/aurum/tcp_session.cpp take them from
-- the stream: `async_read` completes when all the bytes that it asks for have arrived.
pub mod Loop
pub mod Chunks
pub mod Frames
use aurum.Base.{
  ℕ, zero, suc, Option, none, some, List, [], ◌∷◌, ◌++◌, leb, length, take, drop, if◌then◌else◌,
}
use aurum.Outcome.{Outcome, ok, ◌>>=◌}
use aurum.Bytes.{Bytes}
use aurum.World.{World}
use aurum.State.Defs.{State}
use aurum.Node.Reading.{Reading, header, body, message, stopped, on_header, on_body}

-- A read of exactly `n` bytes: them, and the rest of the stream.
unfoldable pub exact : ℕ → Bytes → Option (Bytes × Bytes)
exact n stream = if leb n (length stream) then some (take n stream, drop n stream) else none

-- What the read that the session has issued takes from the stream.
unfoldable pub available : Reading → Bytes → Option (Bytes × Bytes)
available header stream = exact 4 stream
available (body n) stream = exact n stream
available message stream = none
available stopped stream = none

-- How many completions the stream holds at most: a header takes four bytes, and a body, which may
-- be empty, is followed by a header.
abbrev pub measure : Reading → Bytes → ℕ
measure header stream = length stream
measure (body n) stream = suc (length stream)
measure message stream = 0
measure stopped stream = 0

module _ (w : World) (ref : ℕ) where
  unfoldable pub complete : Reading → Bytes → State → Outcome (Reading × State)
  complete header bytes s = on_header w ref (some bytes) s
  complete (body n) bytes s = on_body w ref (some bytes) s
  complete message bytes s = ok (message, s)
  complete stopped bytes s = ok (stopped, s)

  unfoldable pub read_on : ℕ → Reading → Bytes → State → Outcome (Reading × Bytes × State)
  read_on zero reading stream s = ok (reading, stream, s)
  read_on (suc fuel) reading stream s = elim (available reading stream) [
    | none ↦ ok (reading, stream, s)
    | some (bytes, rest) ↦
        complete reading bytes s >>= λ (reading', s'). read_on fuel reading' rest s'
  ]

  -- All the reads that the stream completes: the read that is left, the bytes that it has not
  -- taken, and the state.
  unfoldable pub read_stream : Reading → Bytes → State → Outcome (Reading × Bytes × State)
  read_stream reading stream s = read_on (measure reading stream) reading stream s
