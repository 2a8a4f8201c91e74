-- ===== src/Client/Conversation.antt =====
-- A client and a node: what the client's builder has queued reaches the handlers, and the answer
-- reaches the client.
use aurum.Base.{
  ℕ, ◌*◌, ◌<◌, ◌^◌, ◌≡◌, refl, sym, ◌∙◌, true, List, [], ◌∷◌, ◌++◌, append-nil, append_assoc, arith,
  length, length-append, All, map,
}
use aurum.Outcome.{ok}
use aurum.Bytes.{Bytes}
use aurum.Protocol.Builder.{Builder, fresh, push_back}
use aurum.Protocol.Request
use aurum.Protocol.Response
use aurum.Protocol.ExitCode
use aurum.Protocol.MessageType
use aurum.Protocol.OpCode
use aurum.Protocol.SessionType.{tcp}
use aurum.Protocol.Frame.{payloads, get_data, body}
use aurum.Protocol.Frame.Layout.{get_data-framed, length-body}
use aurum.World.{World}
use aurum.State.Defs.{State}
use aurum.State.Routing.{send}
use aurum.Handlers.Simple.{ping_handler}
use aurum.Handlers.Table.{handlers}
use aurum.Kernel.RoundTrip.{Message, encode, IsSendable, dispatch}
use aurum.Node.Reading.{header}
use aurum.Node.Stream.{read_stream}
use aurum.Node.Stream.Frames.{framed}
use aurum.Node.Exchange.{read_stream-dispatch}

-- Pings with the ids, as a client queues them.
pub ask : List Bytes → Builder → Builder
ask [] b = b
ask (id ∷ ids) b = ask ids (Request.add_ping id b)

-- The answers to them.
pub answers : List Bytes → Builder → Builder
answers [] b = b
answers (id ∷ ids) b = answers ids (Response.add_ping id ExitCode.success b)

abbrev ping_of : Bytes → Message
ping_of id = record { opcode = OpCode.ping; type = MessageType.request; tx = id; payload = [] }

-- The bytes of the answer to one ping.
abbrev pong : Bytes → Bytes
pong id = OpCode.ping ∷ MessageType.response ∷ (id ++ (ExitCode.success ∷ []))

ask-buffers :
    (ids : List Bytes) (b : Builder)
    → (ask ids b).buffers ≡ b.buffers ++ map encode (map ping_of ids)
unfolding ask Request.add_ping push_back
ask-buffers [] b = sym (append-nil b.buffers)
ask-buffers (id ∷ ids) b = rw (append-nil id) (
    ask-buffers ids (Request.add_ping id b)
    ∙ append_assoc b.buffers ((OpCode.ping ∷ MessageType.request ∷ id) ∷ [])
        (map encode (map ping_of ids)))

answers-buffers :
    (ids : List Bytes) (b : Builder) → (answers ids b).buffers ≡ b.buffers ++ map pong ids
unfolding answers Response.add_ping push_back
answers-buffers [] b = sym (append-nil b.buffers)
answers-buffers (id ∷ ids) b =
    answers-buffers ids _ ∙ append_assoc b.buffers (pong id ∷ []) (map pong ids)

ask-fresh : (ids : List Bytes) → (ask ids fresh).buffers ≡ map encode (map ping_of ids)
unfolding fresh
ask-fresh ids = ask-buffers ids fresh

answers-fresh : (ids : List Bytes) → (answers ids fresh).buffers ≡ map pong ids
unfolding fresh
answers-fresh ids = answers-buffers ids fresh

dispatch-pings :
    (w : World) (ref : ℕ) (ids : List Bytes) (b : Builder) (s : State)
    → dispatch w ref (map ping_of ids) (b, s) ≡ ok (answers ids b, s)
unfolding dispatch answers handlers ping_handler
dispatch-pings w ref [] b s = refl
dispatch-pings w ref (id ∷ ids) b s = dispatch-pings w ref ids _ s

-- Pings and their answers are short.
length-pings :
    (ids : List Bytes)
    → All (λ (id : Bytes). length id ≡ 16) ids
    → (length (payloads (map encode (map ping_of ids))) ≡ 18 * length ids)
      × (length (payloads (map pong ids)) ≡ 19 * length ids)
      × (length (map encode (map ping_of ids)) ≡ length ids)
      × (length (map pong ids) ≡ length ids)
      × (length (map ping_of ids) ≡ length ids)
      × All IsSendable (map ping_of ids)
unfolding payloads
length-pings [] h = (omega arith, omega arith, refl, refl, refl, tt)
length-pings (id ∷ ids) (h, hs) =
    let (pings, pongs, asked, answered, plain, sendable) = length-pings ids hs in
    (
      omega (
        arith,
        length-append (id ++ []) (payloads (map encode (map ping_of ids))),
        length-append id [],
      ),
      omega (
        arith,
        length-append (id ++ (ExitCode.success ∷ [])) (payloads (map pong ids)),
        length-append id (ExitCode.success ∷ []),
      ),
      omega arith,
      omega arith,
      omega arith,
      (record { tx = h; short = omega arith }, sendable),
    )

-- A node that waits for the header of a frame from a TCP session answers a frame of 1 to 65535 pings
-- by one frame, which holds their answers in the same order, and then waits for the next header.
pub read_stream-pings :
    (w : World) (ref : ℕ) (ids : List Bytes) (s : State)
    → (s.object ref).type ≡ tcp
    → All (λ (id : Bytes). length id ≡ 16) ids
    → 0 < length ids
    → length ids < 2 ^ 16
    → (request answer_ : Bytes) × (get_data w.crc true (ask ids fresh) ≡ ok request)
      × (get_data w.crc true (answers ids fresh) ≡ ok answer_)
      × (read_stream w ref header request s ≡ ok (header, [], send ref answer_ s))
read_stream-pings w ref [] s t h some_ few = absurd (omega arith)
read_stream-pings w ref (id ∷ ids) s t h some_ few =
    let (pings, pongs, asked, answered, plain, sendable) = length-pings (id ∷ ids) h in
    let replied =
      get_data-framed w.crc (answers (id ∷ ids) fresh) _ _ (answers-fresh (id ∷ ids))
        (record { requests = omega arith; payload = omega arith }) in
    let short : length (body w.crc (map encode (map ping_of (id ∷ ids)))) < 2 ^ 32 =
      omega (arith, length-body w.crc (map encode (map ping_of (id ∷ ids)))) in
    (
      framed (body w.crc (map encode (map ping_of (id ∷ ids)))),
      framed (body w.crc (map pong (id ∷ ids))),
      get_data-framed w.crc (ask (id ∷ ids) fresh) _ _ (ask-fresh (id ∷ ids))
          (record { requests = omega arith; payload = omega arith }),
      replied,
      read_stream-dispatch w ref (map ping_of (id ∷ ids)) s
          (dispatch-pings w ref (id ∷ ids) fresh s) (rw t refl) replied sendable (omega arith)
          short,
    )
