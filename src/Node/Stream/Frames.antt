-- ===== src/Node/Stream/Frames.antt =====
-- A stream of frames, as peers and clients send them.
use aurum.Base.{
  ℕ, ◌<◌, ◌^◌, ◌≡◌, refl, some, List, [], ◌∷◌, ◌++◌, append_assoc, arith, length, length-append,
  All, take-append, drop-append,
}
use aurum.Outcome.{Outcome, ok, ◌>>=◌, fault}
use aurum.Bytes.{Bytes, to_le, from_le}
use aurum.World.{World}
use aurum.State.Defs.{State}
use aurum.Node.Reading.{header, body, on_header, on_body, receive}
use aurum.Node.Stream.{exact, available, complete, read_stream}
use aurum.Node.Stream.Loop.{read_stream-loop}

-- A frame behind its length header.
abbrev pub framed : Bytes → Bytes
framed frame = to_le 4 (length frame) ++ frame

abbrev pub stream_of : List Bytes → Bytes
stream_of [] = []
stream_of (frame ∷ frames) = framed frame ++ stream_of frames

pub exact-append : (xs ys : Bytes) {n : ℕ} → length xs ≡ n → exact n (xs ++ ys) ≡ some (xs, ys)
unfolding exact
exact-append xs ys {n} h =
    ground (arith, length-append xs ys, take-append xs ys {n = n} h, drop-append xs ys {n = n} h)

module _ (w : World) (ref : ℕ) where
  -- The frames go to the kernel, one after the other.
  abbrev pub receive_each : List Bytes → State → Outcome State
  receive_each [] s = ok s
  receive_each (frame ∷ frames) s = receive w ref frame s >>= receive_each frames

  -- A body has been read, and what follows is known to be handled.
  body_done :
      (m : Outcome State) (rest : Bytes) (f : State → Outcome State)
      → ((s' : State) → read_stream w ref header rest s' ≡ (f s' >>= λ s''. ok (header, [], s'')))
      → ((m >>= λ s'. ok (header, s')) >>= λ (reading, s'). read_stream w ref reading rest s')
        ≡ ((m >>= f) >>= λ s'. ok (header, [], s'))
  body_done (ok s') rest f h = h s'
  body_done (fault e) rest f h = refl

  -- Bytes that are one frame after the other, each behind the header with its length, below 2^32
  -- bytes, are handed to the kernel as these frames, in order; then the session waits for the next
  -- header, with nothing unread.
  pub read_stream-frames :
      (frames : List Bytes) (s : State)
      → All (λ (frame : Bytes). length frame < 2 ^ 32) frames
      → read_stream w ref header (stream_of frames) s
        ≡ (receive_each frames s >>= λ s'. ok (header, [], s'))
  unfolding complete on_header on_body available
  read_stream-frames [] s h = rw (read_stream-loop w ref header [] s) (unfold exact in refl)
  read_stream-frames (frame ∷ frames) s h =
      rw
        (
          append_assoc (to_le 4 (length frame)) frame (stream_of frames),
          read_stream-loop w ref header _ s,
          exact-append (to_le 4 (length frame)) (frame ++ stream_of frames) refl,
          read_stream-loop w ref (body _) (frame ++ stream_of frames) s,
          exact-append frame (stream_of frames) {n = from_le (to_le 4 (length frame))} size,
        )
        (body_done (receive w ref frame s) (stream_of frames) (receive_each frames)
          (λ s'. read_stream-frames frames s' h.1))
    where
      size : length frame ≡ from_le (to_le 4 (length frame))
      size = omega (arith, h.0)
