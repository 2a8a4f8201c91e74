-- ===== src/Node/Presence/StandIn.antt =====
-- A node removes the session that stands for a client of another node.
use aurum.Base.{ℕ, ◌≡◌, refl, ap, ◌∙◌, subst, some, true, false, [], ◌∷◌, length}
use aurum.Outcome.{ok}
use aurum.Bytes.{Bytes}
use aurum.Protocol.OpCode
use aurum.Protocol.SessionType.{tcp, websocket}
use aurum.World.{World, Entry}
use aurum.State.Defs.{State, draw, find_id, erase_id, count_id, post}
use aurum.State.Counts.{find_id-some}
use aurum.State.Routing.{send, broadcast_to_nodes}
use aurum.State.Registry.{remove_session, disconnect_session, close_socket, announce_leave}
use aurum.State.Invariant.{Inv}
use aurum.State.Removal.Lists.{without, without-count}
use aurum.Node.Reading.{header}
use aurum.Node.Stream.{read_stream}
use aurum.Node.Presence.Notices.{told, answered, announce_leave-told, read_stream-leave}

module _ (wa wb : World) (same_crc : wa.crc ≡ wb.crc) (a : ℕ) (id : Bytes) (e : Entry)
    (sa sb : State) (va : Inv sa) (ta : (sa.object a).type ≡ tcp) (hi : length id ≡ 16)
    (found : find_id sb.object id sb.sessions ≡ some e)
    (stands_in : (sb.object e.ref).type ≡ websocket)
    (unopened : (sb.object e.ref).is_open ≡ false) where
  abbrev removed : State
  removed = record sb { sessions = erase_id sb.object id sb.sessions }

  own_id : (sb.object e.ref).id ≡ id
  own_id = (find_id-some sb.object id sb.sessions {e = e} found).0

  removes :
      remove_session wb id sb
      ≡ ok (
        true,
        broadcast_to_nodes (told wb.crc OpCode.leave (wb.random sb.clock) id) (draw wb removed).0,
      )
  unfolding remove_session disconnect_session close_socket
  removes = rw (found, remove_session, stands_in, unopened, announced) refl
    where
      announced :
          announce_leave wb e.ref removed
          ≡ ok (
              broadcast_to_nodes
                (told wb.crc OpCode.leave (wb.random sb.clock) id)
                (draw wb removed).0)
      announced =
          subst
            (λ i.
              announce_leave wb e.ref removed
              ≡ ok (
                  broadcast_to_nodes (told wb.crc OpCode.leave (wb.random sb.clock) i)
                    (draw wb removed).0))
            own_id (announce_leave-told wb e.ref removed (ap length own_id ∙ hi))

  -- A node removes a session that stands for a client of another node, as `disconnect` and
  -- `disconnect_all` do. The request that it broadcasts makes the node of the client, when it arrives
  -- at a TCP session there, take the client's own session out of its registry, although the client
  -- is still connected: the session objects stay as they are.
  pub stand_in-removed :
      (leave : Bytes) × (remove_session wb id sb
        ≡ ok (true, broadcast_to_nodes leave (draw wb removed).0))
      × (left : State) × (read_stream wa a header leave sa ≡ ok (header, [], left))
      × (count_id left.object id left.sessions ≡ 0)
      × (left.object ≡ sa.object)
  unfolding send post
  stand_in-removed = (
    told wb.crc OpCode.leave (wb.random sb.clock) id,
    removes,
    send a (answered wa.crc OpCode.leave (wb.random sb.clock) (count_id sa.object id sa.sessions))
        (record sa { sessions = without sa.object (id ∷ []) sa.sessions }),
    subst
        (λ crc.
          read_stream wa a header (told crc OpCode.leave (wb.random sb.clock) id) sa
          ≡ ok (
            header,
            [],
            send a
                (answered wa.crc OpCode.leave (wb.random sb.clock)
                  (count_id sa.object id sa.sessions))
                (record sa { sessions = without sa.object (id ∷ []) sa.sessions }),
          ))
        same_crc
        (read_stream-leave wa a (wb.random sb.clock) id sa (wb.random-IsUuid sb.clock).sixteen hi va
          ta),
    without-count sa.object id sa.sessions,
    refl,
  )
