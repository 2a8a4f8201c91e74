-- ===== src/Node/Handshake/Messages.antt =====
-- The messages of a node that opens a connection, and of the one that accepts it.
use aurum.Base.{
  ℕ, ◌+◌, ◌<◌, ◌^◌, ◌≡◌, refl, ap, true, List, [], ◌∷◌, ◌++◌, append-nil, arith, length,
  length-append,
}
use aurum.Outcome.{ok}
use aurum.Bytes.{Bytes, to_le}
use aurum.Protocol.Builder.{Builder, fresh, push_back}
use aurum.Protocol.Crc.{Crc}
use aurum.Protocol.Request
use aurum.Protocol.Request.{endpoint}
use aurum.Protocol.Response
use aurum.Protocol.Response.{Peer, peers_payload}
use aurum.Protocol.MessageType
use aurum.Protocol.OpCode
use aurum.Protocol.Frame.{get_data, body, payloads}
use aurum.Protocol.Frame.Layout.{get_data-framed, length-body}
use aurum.World.{World}
use aurum.State.Defs.{State, start, draw, post}
use aurum.State.Routing.{send}
use aurum.State.Connect.{loopback, append_discovery, introduce}
use aurum.Handlers.Introduction.{identity}
use aurum.Kernel.RoundTrip.{Message, encode, IsSendable}
use aurum.Node.Stream.Frames.{framed}

-- The identify request of a node, and the response to it.
abbrev pub asking : Bytes → Bytes → ℕ → ℕ → Message
asking tx node_id connections port = record {
  opcode = OpCode.identify;
  type = MessageType.request;
  tx = tx;
  payload = identity node_id connections port loopback;
}

abbrev pub answering : Bytes → Bytes → Message
answering tx node_id = record {
  opcode = OpCode.identify;
  type = MessageType.response;
  tx = tx;
  payload = node_id;
}

-- The discovery request, and the response to it.
abbrev pub exploring : Bytes → Message
exploring tx = record {
  opcode = OpCode.discovery;
  type = MessageType.request;
  tx = tx;
  payload = [];
}

abbrev pub listing : Bytes → List Peer → Message
listing tx nodes = record {
  opcode = OpCode.discovery;
  type = MessageType.response;
  tx = tx;
  payload = peers_payload nodes;
}

length-identity :
    (node_id : Bytes) (connections port : ℕ)
    → length node_id ≡ 16
    → length (identity node_id connections port loopback) ≡ 29
length-identity node_id connections port h =
    let full : endpoint port loopback ≡ to_le 2 port ++ loopback = ground arith in
    omega
      (arith, length-append node_id (to_le 2 connections ++ endpoint port loopback), ap length full)

pub asking-IsSendable :
    (tx node_id : Bytes) (connections port : ℕ)
    → length tx ≡ 16
    → length node_id ≡ 16
    → IsSendable (asking tx node_id connections port)
asking-IsSendable tx node_id connections port ht hn = record {
  tx = ht;
  short = omega (arith, length-identity node_id connections port hn);
}

-- A frame of two messages.
payloads-pair :
    (m n : Message)
    → IsSendable m
    → IsSendable n
    → length (payloads (encode m ∷ encode n ∷ []))
      ≡ (18 + length m.payload) + (18 + length n.payload)
unfolding payloads
payloads-pair m n hm hn = omega (
  arith,
  length-append (encode m) (encode n ++ []),
  length-append (encode n) [],
  length-append m.tx m.payload,
  length-append n.tx n.payload,
  hm.tx,
  hn.tx,
)

pub short_pair :
    (crc : Crc) (m n : Message)
    → IsSendable m
    → IsSendable n
    → length (body crc (encode m ∷ encode n ∷ [])) < 2 ^ 32
short_pair crc m n hm hn =
    omega (
      arith,
      length-body crc (encode m ∷ encode n ∷ []),
      payloads-pair m n hm hn,
      hm.short,
      hn.short,
    )

pub get_data-pair :
    (crc : Crc) (m n : Message) (b : Builder)
    → IsSendable m
    → IsSendable n
    → b.buffers ≡ encode m ∷ encode n ∷ []
    → get_data crc true b ≡ ok (framed (body crc (encode m ∷ encode n ∷ [])))
get_data-pair crc m n b hm hn queued =
    get_data-framed crc b (encode m) (encode n ∷ []) queued (record {
      requests = omega arith;
      payload = omega (arith, payloads-pair m n hm hn, hm.short, hn.short);
    })

requests-buffers :
    (node_id : Bytes) (connections : ℕ) (tx tx' : Bytes) (port : ℕ)
    → (Request.add_discovery tx'
        (Request.add_identify node_id connections tx port loopback fresh)).buffers
      ≡ encode (asking tx node_id connections port) ∷ encode (exploring tx') ∷ []
unfolding Request.add_identify Request.add_discovery push_back fresh
requests-buffers node_id connections tx tx' port = simp append-nil

pub answers-buffers :
    (tx tx' node_id : Bytes) (nodes : List Peer)
    → (Response.add_discovery tx' nodes (Response.add_identify tx node_id fresh)).buffers
      ≡ encode (answering tx node_id) ∷ encode (listing tx' nodes) ∷ []
unfolding Response.add_identify Response.add_discovery push_back fresh
answers-buffers tx tx' node_id nodes = refl

-- The frame that `connect` sends for `node::connect`.
pub introduce-frame :
    (w : World) (ref connections : ℕ) (s : State)
    → length s.node_id ≡ 16
    → introduce w ref true connections s
      ≡ ok (
          post (start ref) (
            send ref
              (framed (
                body w.crc (
                  encode (asking (w.random s.clock) s.node_id connections s.configuration.tcp_port)
                  ∷ encode (exploring (w.random (s.clock + 1)))
                  ∷ [])))
              (draw w (draw w s).0).0))
unfolding introduce append_discovery draw
introduce-frame w ref connections s h =
    rw
      (get_data-pair w.crc
        (asking (w.random s.clock) s.node_id connections s.configuration.tcp_port)
        (exploring (w.random (s.clock + 1)))
        (Request.add_discovery (w.random (s.clock + 1)) (
          Request.add_identify s.node_id connections (w.random s.clock) s.configuration.tcp_port
            loopback fresh))
        (asking-IsSendable (w.random s.clock) s.node_id connections s.configuration.tcp_port
          (w.random-IsUuid s.clock).sixteen h)
        (record { tx = (w.random-IsUuid (s.clock + 1)).sixteen; short = omega arith })
        (requests-buffers s.node_id connections (w.random s.clock) (w.random (s.clock + 1))
          s.configuration.tcp_port))
      refl
