-- ===== src/Client/Framing.antt =====
-- What `tcp_client::read` returns is what `get_data` built.
use aurum.Base.{
  ℕ, ◌<◌, ◌^◌, ◌≡◌, ◌≢◌, refl, ap, ◌∙◌, true, some, [], ◌++◌, append_assoc, arith, length,
}
use aurum.Outcome.{ok}
use aurum.Bytes.{Bytes, to_le, from_le}
use aurum.Protocol.Crc.{Crc}
use aurum.Protocol.Builder.{Builder}
use aurum.Protocol.Frame.{payloads, get_data}
use aurum.Protocol.Frame.Layout.{get_data_framing}
use aurum.Node.Stream.Frames.{exact-append, framed}
use aurum.Client.Tcp.{TcpClient, read_exact, read}

read_exact-append :
    (xs ys : Bytes) {n : ℕ} (c : TcpClient)
    → c.is_open ≡ true
    → c.received ≡ xs ++ ys
    → length xs ≡ n
    → read_exact n c ≡ some (xs, record c { received = ys })
unfolding read_exact
read_exact-append xs ys {n} c o e h = rw (o, e, exact-append xs ys h)

-- One frame behind its header is read, whatever follows it.
pub read-framed :
    (frame rest : Bytes) (c : TcpClient)
    → c.is_open ≡ true
    → c.received ≡ framed frame ++ rest
    → length frame < 2 ^ 32
    → read c ≡ some (framed frame, record c { received = rest })
unfolding read
read-framed frame rest c o e short =
    rw
      (
        read_exact-append (to_le 4 (length frame)) (frame ++ rest) c o
            (e ∙ append_assoc (to_le 4 (length frame)) frame rest) refl,
        read_exact-append frame rest {n = from_le (to_le 4 (length frame))}
            (record c { received = frame ++ rest }) o refl size,
        ← size,
      )
      refl
  where
    size : length frame ≡ from_le (to_le 4 (length frame))
    size = omega (arith, short)

-- A client on an open socket, at the start of whose unread bytes stands a frame that `get_data`
-- built, with something queued (below 2^64 bytes), returns exactly that frame, and the bytes behind
-- it stay unread.
pub read-get_data :
    (crc : Crc) (b : Builder) (out rest : Bytes) (c : TcpClient)
    → b.buffers ≢ []
    → length (payloads b.buffers) < 2 ^ 64
    → get_data crc true b ≡ ok out
    → c.is_open ≡ true
    → c.received ≡ out ++ rest
    → read c ≡ some (out, record c { received = rest })
read-get_data crc b out rest c queued small e o arrived =
    let (frame, _, same, short) = get_data_framing crc b out queued small e in
    rw same (read-framed frame rest c o (arrived ∙ ap (λ t. t ++ rest) same) short)
