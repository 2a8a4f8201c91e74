-- ===== src/Node/Presence/Notices.antt =====
-- The frames by which a node announces its WebSocket clients, and what they do where they arrive.
use aurum.Base.{
  ℕ, ◌+◌, ◌<◌, ◌%◌, ◌^◌, ◌≡◌, refl, sym, false, true, [], ◌∷◌, append-nil, arith, length, ltb,
}
use aurum.Outcome.{ok}
use aurum.Bytes.{slice_at, Bytes, to_le, length-to_le}
use aurum.Protocol.Crc.{Crc}
use aurum.Protocol.Builder.{fresh, push_back}
use aurum.Protocol.Request
use aurum.Protocol.Response
use aurum.Protocol.MessageType
use aurum.Protocol.OpCode
use aurum.Protocol.SessionType.{tcp, is_tcp, is_websocket}
use aurum.Protocol.Frame.{body}
use aurum.Session.{opened, set_node_id, websocket_session}
use aurum.World.{World}
use aurum.State.Defs.{State, draw, count_id, assign}
use aurum.State.Routing.{send, broadcast_to_nodes}
use aurum.State.Registry.{announce_leave, leave_frame}
use aurum.State.Invariant.{Inv}
use aurum.State.Removal.Lists.{without}
use aurum.Handlers.Membership.{leave_handler, register, join_handler}
use aurum.Handlers.Members.{register-once, erase_all_ends}
use aurum.Handlers.Table.{handlers}
use aurum.Kernel.RoundTrip.{Message, encode, IsSendable, dispatch}
use aurum.Node.Reading.{header, message, on_accept, join_frame}
use aurum.Node.Stream.{read_stream}
use aurum.Node.Stream.Frames.{framed}
use aurum.Node.Exchange.{get_data-message, short_message, read_stream-dispatch}
use aurum.Node.History.{Evolves-refl, allocate-Evolves}
use aurum.Node.History.Registry.{add_session-Evolves}

-- The request that announces a client, and the response with the number of its sessions.
abbrev telling : ℕ → Bytes → Bytes → Message
telling opcode tx id = record { opcode = opcode; type = MessageType.request; tx = tx; payload = id }

abbrev counting : ℕ → Bytes → ℕ → Message
counting opcode tx n = record {
  opcode = opcode;
  type = MessageType.response;
  tx = tx;
  payload = to_le 8 n;
}

telling-IsSendable :
    (opcode : ℕ) (tx id : Bytes)
    → length tx ≡ 16
    → length id ≡ 16
    → IsSendable (telling opcode tx id)
telling-IsSendable opcode tx id ht hi = record { tx = ht; short = omega (arith, hi) }

counting-IsSendable :
    (opcode : ℕ) (tx : Bytes) (n : ℕ) → length tx ≡ 16 → IsSendable (counting opcode tx n)
counting-IsSendable opcode tx n ht = record { tx = ht; short = omega (arith, length-to_le 8 n) }

module _ (w : World) (ref : ℕ) (tx id : Bytes) (s : State) (hi : length id ≡ 16) (v : Inv s)
    (t : (s.object ref).type ≡ tcp) where
  over_tcp : is_websocket (s.object ref).type ≡ false
  over_tcp = ground arith

  long : ltb (length id) 16 ≡ false
  long = ground (arith, hi)

  dispatch-join :
      dispatch w ref (telling OpCode.join tx id ∷ []) (fresh, s)
      ≡ ok (Response.add_join tx 1 fresh, register w id ref s)
  unfolding dispatch handlers join_handler
  dispatch-join =
      rw
        (
          over_tcp,
          long,
          slice_at id [] id [] {off = 0} {n = 16} (sym (append-nil id)) refl hi,
          register-once w id ref s hi v,
        )
        refl

  counted : (0 + count_id s.object id s.sessions) % 2 ^ 64 ≡ count_id s.object id s.sessions
  counted = omega (arith, v.unique id)

  dispatch-leave :
      dispatch w ref (telling OpCode.leave tx id ∷ []) (fresh, s)
      ≡ ok (
        Response.add_leave tx (count_id s.object id s.sessions) fresh,
        record s { sessions = without s.object (id ∷ []) s.sessions },
      )
  unfolding dispatch handlers leave_handler
  dispatch-leave =
      rw
        (
          over_tcp,
          long,
          slice_at id [] id [] {off = 0} {n = 16} (sym (append-nil id)) refl hi,
          erase_all_ends (length s.sessions) s.object id s.sessions 0 (omega arith) (omega arith),
          counted,
        )
        refl

  -- The session at which the request arrives is still one over TCP.
  register-tcp : ref < s.next_ref → is_tcp ((register w id ref s).object ref).type ≡ true
  unfolding register
  register-tcp old =
      let kept = add_session-Evolves w _ _ (
        allocate-Evolves (set_node_id (s.object ref).node_id (websocket_session id)) s
          (Evolves-refl s)) in
      let same_type : ((register w id ref s).object ref).type ≡ (s.object ref).type =
        kept.type ref old in
      ground arith

-- The frame of a request, and that of the response to it.
abbrev pub told : Crc → ℕ → Bytes → Bytes → Bytes
told crc opcode tx id = framed (body crc (encode (telling opcode tx id) ∷ []))

abbrev pub answered : Crc → ℕ → Bytes → ℕ → Bytes
answered crc opcode tx n = framed (body crc (encode (counting opcode tx n) ∷ []))

module _ (w : World) (client : ℕ) (s : State) (hi : length (s.object client).id ≡ 16) where
  tx_sixteen : length (w.random s.clock) ≡ 16
  tx_sixteen = (w.random-IsUuid s.clock).sixteen

  pub on_accept-told :
      on_accept w client false s
      ≡ ok (
        message,
        broadcast_to_nodes
            (told w.crc OpCode.join (w.random s.clock) (s.object client).id)
            (draw w (assign client (opened (s.object client)) s)).0,
      )
  unfolding on_accept draw assign join_frame Request.add_join push_back fresh
  on_accept-told =
      rw
        (get_data-message w.crc (telling OpCode.join (w.random s.clock) (s.object client).id)
          (Request.add_join (s.object client).id (w.random s.clock) fresh)
          (telling-IsSendable OpCode.join (w.random s.clock) (s.object client).id tx_sixteen hi)
          refl)
        refl

  pub announce_leave-told :
      announce_leave w client s
      ≡ ok (
          broadcast_to_nodes
            (told w.crc OpCode.leave (w.random s.clock) (s.object client).id)
            (draw w s).0)
  unfolding announce_leave draw leave_frame Request.add_leave push_back fresh
  announce_leave-told =
      rw
        (get_data-message w.crc (telling OpCode.leave (w.random s.clock) (s.object client).id)
          (Request.add_leave (s.object client).id (w.random s.clock) fresh)
          (telling-IsSendable OpCode.leave (w.random s.clock) (s.object client).id tx_sixteen hi)
          refl)
        refl

module _ (w : World) (ref : ℕ) (tx id : Bytes) (s : State) (ht : length tx ≡ 16)
    (hi : length id ≡ 16) (v : Inv s) (t : (s.object ref).type ≡ tcp) where
  pub read_stream-join :
      ref < s.next_ref
      → read_stream w ref header (told w.crc OpCode.join tx id) s
        ≡ ok (header, [], send ref (answered w.crc OpCode.join tx 1) (register w id ref s))
  unfolding Response.add_join push_back fresh
  read_stream-join old =
      read_stream-dispatch w ref (telling OpCode.join tx id ∷ []) s
        (dispatch-join w ref tx id s hi v t) (register-tcp w ref tx id s hi v t old)
        (get_data-message w.crc (counting OpCode.join tx 1) _
          (counting-IsSendable OpCode.join tx 1 ht) refl)
        (telling-IsSendable OpCode.join tx id ht hi, tt) (omega arith)
        (short_message w.crc (telling OpCode.join tx id)
          (telling-IsSendable OpCode.join tx id ht hi))

  pub read_stream-leave :
      read_stream w ref header (told w.crc OpCode.leave tx id) s
      ≡ ok (
        header,
        [],
        send ref
            (answered w.crc OpCode.leave tx (count_id s.object id s.sessions))
            (record s { sessions = without s.object (id ∷ []) s.sessions }),
      )
  unfolding Response.add_leave push_back fresh
  read_stream-leave =
      read_stream-dispatch w ref (telling OpCode.leave tx id ∷ []) s
        (dispatch-leave w ref tx id s hi v t) (ground arith)
        (get_data-message w.crc (counting OpCode.leave tx (count_id s.object id s.sessions)) _
          (counting-IsSendable OpCode.leave tx (count_id s.object id s.sessions) ht) refl)
        (telling-IsSendable OpCode.leave tx id ht hi, tt) (omega arith)
        (short_message w.crc (telling OpCode.leave tx id)
          (telling-IsSendable OpCode.leave tx id ht hi))
