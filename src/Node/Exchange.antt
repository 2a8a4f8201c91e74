-- ===== src/Node/Exchange.antt =====
-- A frame that arrives at a session, from the stream to the reply.
use aurum.Base.{
  ℕ, ◌<◌, ◌^◌, ◌≡◌, refl, sym, ap, ◌∙◌, true, List, [], ◌∷◌, append-nil, arith, length,
  length-append, All, map,
}
use aurum.Outcome.{ok}
use aurum.Bytes.{Bytes}
use aurum.Protocol.Builder.{Builder, fresh}
use aurum.Protocol.SessionType.{is_tcp}
use aurum.Protocol.Crc.{Crc}
use aurum.Protocol.Frame.{get_data, get_buffers, body, payloads, serialize}
use aurum.Protocol.Frame.Layout.{get_data-framed, length-body}
use aurum.World.{World}
use aurum.State.Defs.{State}
use aurum.State.Routing.{send}
use aurum.Kernel.{answer}
use aurum.Kernel.RoundTrip.{Message, encode, IsSendable, dispatch, handle-body}
use aurum.Node.Reading.{header, receive, reply}
use aurum.Node.Stream.{read_stream}
use aurum.Node.Stream.Frames.{framed, read_stream-frames}

module _ (w : World) (ref : ℕ) (ms : List Message) (s : State) {b : Builder} {s' : State}
    {out : Bytes} (done : dispatch w ref ms (fresh, s) ≡ ok (b, s'))
    (over_tcp : is_tcp (s'.object ref).type ≡ true) (built : get_data w.crc true b ≡ ok out)
    (sendable : All IsSendable ms) (few : length ms < 2 ^ 16)
    (short : length (body w.crc (map encode ms)) < 2 ^ 32) where
  receive-dispatch : receive w ref (body w.crc (map encode ms)) s ≡ ok (send ref out s')
  unfolding receive answer get_buffers reply
  receive-dispatch =
      rw (handle-body w ref ms s sendable few (omega arith), done, over_tcp, built) refl

  -- A TCP session that waits for a header takes a frame of messages from the stream, sends what the
  -- handlers queued, and waits for the next header.
  pub read_stream-dispatch :
      read_stream w ref header (framed (body w.crc (map encode ms))) s
      ≡ ok (header, [], send ref out s')
  read_stream-dispatch =
      ap (λ stream. read_stream w ref header stream s)
        (sym (append-nil (framed (body w.crc (map encode ms)))))
      ∙ read_stream-frames w ref (body w.crc (map encode ms) ∷ []) s (short, tt)
      ∙ rw receive-dispatch refl

-- The same where the handlers queued nothing, over either transport.
module _ (w : World) (ref : ℕ) (ms : List Message) (s : State) {s' : State}
    (done : dispatch w ref ms (fresh, s) ≡ ok (fresh, s')) (sendable : All IsSendable ms)
    (few : length ms < 2 ^ 16) (short : length (body w.crc (map encode ms)) < 2 ^ 32) where
  receive-quiet : receive w ref (body w.crc (map encode ms)) s ≡ ok (send ref [] s')
  unfolding receive answer get_buffers reply get_data serialize fresh
  receive-quiet = rw (handle-body w ref ms s sendable few (omega arith), done) refl

  pub read_stream-quiet :
      read_stream w ref header (framed (body w.crc (map encode ms))) s
      ≡ ok (header, [], send ref [] s')
  read_stream-quiet =
      ap (λ stream. read_stream w ref header stream s)
        (sym (append-nil (framed (body w.crc (map encode ms)))))
      ∙ read_stream-frames w ref (body w.crc (map encode ms) ∷ []) s (short, tt)
      ∙ rw receive-quiet refl

-- The frame of one message.
pub short_message :
    (crc : Crc) (m : Message) → IsSendable m → length (body crc (encode m ∷ [])) < 2 ^ 32
unfolding payloads
short_message crc m h = omega (
  arith,
  length-body crc (encode m ∷ []),
  length-append (encode m) [],
  length-append m.tx m.payload,
  h.tx,
  h.short,
)

pub get_data-message :
    (crc : Crc) (m : Message) (b : Builder)
    → IsSendable m
    → b.buffers ≡ encode m ∷ []
    → get_data crc true b ≡ ok (framed (body crc (encode m ∷ [])))
unfolding payloads
get_data-message crc m b h queued = get_data-framed crc b (encode m) [] queued (record {
  requests = omega arith;
  payload = omega (arith, length-append (encode m) [], length-append m.tx m.payload, h.tx, h.short);
})
