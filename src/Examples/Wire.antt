-- ===== src/Examples/Wire.antt =====
-- The theorems about streams, clients and two nodes, at concrete inputs.
use aurum.Base.{◌≡◌, refl, [], ◌∷◌, ◌++◌, some, arith, true, false}
use aurum.Outcome.{ok, ◌>>=◌}
use aurum.Bytes.{bytes_discrete, Bytes}
use aurum.Protocol.Builder.{Builder, fresh}
use aurum.Protocol.Frame.{
  payloads, get_data, serialize, body, content, length_table, header_size, payload_size,
}
use aurum.State.Defs.{find_id, erase_id, count_id, State, draw, assign, default_configuration}
use aurum.State.Routing.{send, broadcast_to_nodes}
use aurum.Session.{opened, new_session}
use aurum.Node.Reading.{header, message, on_accept}
use aurum.Node.Stream.{read_stream}
use aurum.Node.Stream.Loop.{Ran, read_stream-Ran}
use aurum.Node.Stream.Chunks.{arrive_each, arrive_each-joined}
use aurum.Node.Stream.Frames.{receive_each, read_stream-frames}
use aurum.Node.Presence.{presence}
use aurum.Node.Presence.StandIn.{stand_in-removed}
use aurum.Protocol.SessionType.{websocket}
use aurum.Node.Presence.Notices.{answered}
use aurum.Protocol.OpCode
use aurum.State.Registry.{announce_leave, remove_session}
use aurum.State.Removal.Lists.{without}
use aurum.Handlers.Membership.{register}
use aurum.State.Invariant.{Inv}
use aurum.Client.Tcp.{TcpClient, read}
use aurum.Client.Framing.{read-get_data}
use aurum.Client.Conversation.{ask, answers, read_stream-pings}
use aurum.Examples.Setting.{state-Inv, world, first_two, state, id_of, peer, self}

-- The header of a frame of two bytes, and one byte of the frame.
read_stream-Ran_example :
    Ran world 0 header
      (2 ∷ 0 ∷ 0 ∷ 0 ∷ 7 ∷ [])
      state
      (read_stream world 0 header (2 ∷ 0 ∷ 0 ∷ 0 ∷ 7 ∷ []) state)
read_stream-Ran_example = read_stream-Ran world 0 header (2 ∷ 0 ∷ 0 ∷ 0 ∷ 7 ∷ []) state

-- The same frame in two pieces.
arrive_each-joined_example :
    (read_stream world 0 header [] state
      >>= arrive_each world 0 ((2 ∷ 0 ∷ []) ∷ (0 ∷ 0 ∷ 7 ∷ 9 ∷ []) ∷ []))
    ≡ read_stream world 0 header (2 ∷ 0 ∷ 0 ∷ 0 ∷ 7 ∷ 9 ∷ []) state
arrive_each-joined_example =
    arrive_each-joined world 0 ((2 ∷ 0 ∷ []) ∷ (0 ∷ 0 ∷ 7 ∷ 9 ∷ []) ∷ []) header state

-- Two frames, the second empty.
read_stream-frames_example :
    read_stream world 0 header (2 ∷ 0 ∷ 0 ∷ 0 ∷ 7 ∷ 9 ∷ 0 ∷ 0 ∷ 0 ∷ 0 ∷ []) state
    ≡ (receive_each world 0 ((7 ∷ 9 ∷ []) ∷ [] ∷ []) state >>= λ s'. ok (header, [], s'))
read_stream-frames_example =
    read_stream-frames world 0 ((7 ∷ 9 ∷ []) ∷ [] ∷ []) state (omega arith, (omega arith, tt))

abbrev other_state : State
other_state = record state { node_id = peer }

-- Session 0 of a node that listens on port 8080 introduces itself to session 1 of a third node, which
-- has session 0 with the peer, and asks for three connections.
abbrev listening : State
listening = record state { configuration = record default_configuration { tcp_port = 8080 } }

abbrev third : State
third = record state { node_id = id_of 9 }

abbrev no_sessions : State
no_sessions = record other_state { sessions = [] }

no_sessions-Inv : Inv no_sessions
unfolding count_id
no_sessions-Inv = record {
  unique = λ id. omega arith;
  allocated = tt;
  sixteen = state-Inv.sixteen;
  self = refl;
}

other_state-Inv : Inv other_state
other_state-Inv = record {
  unique = state-Inv.unique;
  allocated = state-Inv.allocated;
  sixteen = state-Inv.sixteen;
  self = refl;
}

-- Session 2 of a node announces itself to session 0 of another, and goes.
presence_example :
    (join leave : Bytes) × (on_accept world 2 false state
      ≡ ok (
        message,
        broadcast_to_nodes join (draw world (assign 2 (opened (state.object 2)) state)).0,
      ))
    × (announce_leave world 2 state ≡ ok (broadcast_to_nodes leave (draw world state).0))
    × (read_stream world 0 header join no_sessions
        ≡ ok (
          header,
          [],
          send 0
              (answered first_two OpCode.join (world.random 0) 1)
              (register world (id_of 2) 0 no_sessions),
        ))
    × (count_id
          (register world (id_of 2) 0 no_sessions).object
          (id_of 2)
          (register world (id_of 2) 0 no_sessions).sessions
        ≡ 1)
    × (read_stream world 0 header leave other_state
        ≡ ok (
          header,
          [],
          send 0
              (answered first_two OpCode.leave
                (world.random 0)
                (count_id other_state.object (id_of 2) other_state.sessions))
              (record other_state {
                sessions = without other_state.object (id_of 2 ∷ []) other_state.sessions;
              }),
        ))
presence_example =
    presence world world refl 2 0 state state no_sessions other_state refl refl no_sessions-Inv
      other_state-Inv refl refl (omega arith)

-- What the other node knows of session 2, and no more.
abbrev stand_in : State
stand_in = record other_state {
  object = λ r. record (new_session websocket (id_of 2) false) { node_id = self };
  sessions = record { ref = 2; filed = self } ∷ [];
}

stand_in-removed_example :
    (leave : Bytes) × (remove_session world (id_of 2) stand_in
      ≡ ok (
        true,
        broadcast_to_nodes leave
            (draw world (record stand_in {
              sessions = erase_id stand_in.object (id_of 2) stand_in.sessions;
            })).0,
      ))
    × (left : State) × (read_stream world 0 header leave state ≡ ok (header, [], left))
    × (count_id left.object (id_of 2) left.sessions ≡ 0)
    × (left.object ≡ state.object)
unfolding find_id bytes_discrete
stand_in-removed_example =
    stand_in-removed world world refl 0 (id_of 2) (record { ref = 2; filed = self }) state stand_in
      state-Inv refl refl refl refl refl

-- Two pings from a client.
read_stream-pings_example :
    (request answer_ : Bytes) × (get_data first_two true (ask (id_of 5 ∷ id_of 6 ∷ []) fresh)
      ≡ ok request)
    × (get_data first_two true (answers (id_of 5 ∷ id_of 6 ∷ []) fresh) ≡ ok answer_)
    × (read_stream world 0 header request state ≡ ok (header, [], send 0 answer_ state))
read_stream-pings_example =
    read_stream-pings world 0 (id_of 5 ∷ id_of 6 ∷ []) state refl (refl, (refl, tt)) (omega arith)
      (omega arith)

abbrev queued : Builder
queued = record { buffers = (1 ∷ 0 ∷ id_of 5) ∷ []; total_payload_size = 18 }

abbrev waiting_client : TcpClient
waiting_client = record {
  is_open = true;
  sent = [];
  received = 24 ∷ 0 ∷ 0 ∷ 0 ∷ 1 ∷ 0 ∷ 18 ∷ 0 ∷ 1 ∷ 0 ∷ (id_of 5 ++ (1 ∷ 0 ∷ 6 ∷ 6 ∷ []));
}

-- A frame of one ping, and two bytes of the next.
read-get_data_example :
    read waiting_client
    ≡ some (
      24 ∷ 0 ∷ 0 ∷ 0 ∷ 1 ∷ 0 ∷ 18 ∷ 0 ∷ 1 ∷ 0 ∷ (id_of 5 ++ (1 ∷ 0 ∷ [])),
      record waiting_client { received = 6 ∷ 6 ∷ [] },
    )
unfolding get_data serialize body content payloads length_table header_size payload_size
read-get_data_example =
    read-get_data first_two queued _ (6 ∷ 6 ∷ []) waiting_client (λ e. cc) (omega arith) refl refl
      refl
