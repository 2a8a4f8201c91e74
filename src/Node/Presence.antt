-- ===== src/Node/Presence.antt =====
-- A WebSocket client of one node comes and goes, as another node sees it.
pub mod Notices
pub mod StandIn
use aurum.Base.{
  ℕ, ◌+◌, ◌<◌, ◌%◌, ◌^◌, ◌≡◌, refl, sym, ap, subst, false, true, [], ◌∷◌, append-nil, arith, length,
  ltb, ◌∙◌,
}
use aurum.Outcome.{ok}
use aurum.Bytes.{slice_at, Bytes, to_le, length-to_le}
use aurum.Protocol.Crc.{Crc}
use aurum.Protocol.Builder.{fresh, push_back}
use aurum.Protocol.Request
use aurum.Protocol.Response
use aurum.Protocol.MessageType
use aurum.Protocol.OpCode
use aurum.Protocol.SessionType.{tcp, is_tcp, is_websocket}
use aurum.Protocol.Frame.{body}
use aurum.Session.{opened, set_node_id, websocket_session}
use aurum.World.{World}
use aurum.State.Defs.{State, draw, count_id, assign}
use aurum.State.Routing.{send, broadcast_to_nodes}
use aurum.State.Registry.{announce_leave, leave_frame}
use aurum.State.Invariant.{Inv}
use aurum.State.Removal.Lists.{without}
use aurum.Handlers.Membership.{leave_handler, register, join_handler}
use aurum.Handlers.Members.{register-once, erase_all_ends}
use aurum.Handlers.Table.{handlers}
use aurum.Kernel.RoundTrip.{Message, encode, IsSendable, dispatch}
use aurum.Node.Reading.{header, message, on_accept, join_frame}
use aurum.Node.Stream.{read_stream}
use aurum.Node.Stream.Frames.{framed}
use aurum.Node.Exchange.{get_data-message, short_message, read_stream-dispatch}
use aurum.Node.History.{Evolves-refl, allocate-Evolves}
use aurum.Node.History.Registry.{add_session-Evolves}
use Notices.{
  told, answered, on_accept-told, announce_leave-told, read_stream-join, read_stream-leave,
}

module _ (wa wb : World) (same_crc : wb.crc ≡ wa.crc) (client b : ℕ) (sa sa' sb later : State)
    (hi : length (sa.object client).id ≡ 16)
    (same_client : (sa'.object client).id ≡ (sa.object client).id) (vb : Inv sb) (vl : Inv later)
    (tb : (sb.object b).type ≡ tcp) (tl : (later.object b).type ≡ tcp) (old : b < sb.next_ref) where
  abbrev id : Bytes
  id = (sa.object client).id

  -- A WebSocket client connects to one node, and later disconnects. The request that the node then
  -- broadcasts, when it arrives at a TCP session of another node with the same checksum and a
  -- well-formed state, makes that node register the client's id, once even if it was registered
  -- before, and answer the count 1. The request that is broadcast when the client has gone makes the other node,
  -- in whatever well-formed state it is by then, remove exactly the sessions with the id, and answer
  -- how many there were. Both times the session waits for the next header afterwards.
  pub presence :
      (join leave : Bytes) × (on_accept wa client false sa
        ≡ ok (
          message,
          broadcast_to_nodes join (draw wa (assign client (opened (sa.object client)) sa)).0,
        ))
      × (announce_leave wa client sa' ≡ ok (broadcast_to_nodes leave (draw wa sa').0))
      × (read_stream wb b header join sb
          ≡ ok (
            header,
            [],
            send b (answered wb.crc OpCode.join (wa.random sa.clock) 1) (register wb id b sb),
          ))
      × (count_id (register wb id b sb).object id (register wb id b sb).sessions ≡ 1)
      × (read_stream wb b header leave later
          ≡ ok (
            header,
            [],
            send b
                (answered wb.crc OpCode.leave
                  (wa.random sa'.clock)
                  (count_id later.object id later.sessions))
                (record later { sessions = without later.object (id ∷ []) later.sessions }),
          ))
  presence = (
    told wa.crc OpCode.join (wa.random sa.clock) id,
    told wa.crc OpCode.leave (wa.random sa'.clock) id,
    on_accept-told wa client sa hi,
    subst
        (λ i.
          announce_leave wa client sa'
          ≡ ok (
              broadcast_to_nodes (told wa.crc OpCode.leave (wa.random sa'.clock) i)
                (draw wa sa').0))
        same_client (announce_leave-told wa client sa' (ap length same_client ∙ hi)),
    subst
        (λ crc.
          read_stream wb b header (told crc OpCode.join (wa.random sa.clock) id) sb
          ≡ ok (
            header,
            [],
            send b (answered wb.crc OpCode.join (wa.random sa.clock) 1) (register wb id b sb),
          ))
        same_crc
        (read_stream-join wb b (wa.random sa.clock) id sb (wa.random-IsUuid sa.clock).sixteen hi vb
          tb old),
    register-once wb id b sb hi vb,
    subst
        (λ crc.
          read_stream wb b header (told crc OpCode.leave (wa.random sa'.clock) id) later
          ≡ ok (
            header,
            [],
            send b
                (answered wb.crc OpCode.leave (wa.random sa'.clock)
                  (count_id later.object id later.sessions))
                (record later { sessions = without later.object (id ∷ []) later.sessions }),
          ))
        same_crc
        (read_stream-leave wb b (wa.random sa'.clock) id later (wa.random-IsUuid sa'.clock).sixteen
          hi vl tl),
  )
