-- ===== src/Handlers/Membership.antt =====
-- include/aurum/handlers/join.hpp and leave.hpp.
use aurum.Base.{
  ℕ, zero, suc, ◌+◌, ◌%◌, ◌^◌, ◌||◌, none, some, List, ◌==◌, ltb, if◌then◌else◌, length,
}
use aurum.Outcome.{ok, ◌>>=◌}
use aurum.Bytes.{Bytes, slice}
use aurum.Protocol.Response
use aurum.Protocol.MessageType
use aurum.Protocol.SessionType.{is_websocket}
use aurum.Session.{Session, websocket_session, set_node_id}
use aurum.World.{World, Entry}
use aurum.State.Defs.{State, allocate, count_id, find_id, erase_id}
use aurum.State.Registry.{add_session}
use aurum.Handlers.Simple.{Handler}

-- The loop that finds and erases until the id is gone: the elements left, and the count. A round
-- erases an element, so as many rounds as there are elements are enough.
unfoldable pub erase_all : ℕ → (ℕ → Session) → Bytes → List Entry → ℕ → List Entry × ℕ
erase_all zero object id es count = (es, count)
erase_all (suc fuel) object id es count = elim (find_id object id es) [
  | none ↦ (es, count)
  | some e ↦ erase_all fuel object id (erase_id object id es) ((count + 1) % 2 ^ 64)
]

unfoldable pub leave_handler : Handler
leave_handler type tx payload ref (b, s) =
    if is_websocket (s.object ref).type || type == MessageType.response
    then ok (b, s)
    else if ltb (length payload) 16
    then ok (b, s)
    else (slice 0 16 payload >>= λ websocket_id.
        let (sessions, removed) =
          erase_all (length s.sessions) s.object websocket_id s.sessions 0 in
        ok (Response.add_leave tx removed b, record s { sessions = sessions }))

module _ (w : World) where
  -- The session that stands for a WebSocket client of the sender's node is registered.
  unfoldable pub register : Bytes → ℕ → State → State
  register websocket_id ref s =
      let session = set_node_id (s.object ref).node_id (websocket_session websocket_id) in
      let (s', new_ref) = allocate session s in let (_, s'') = add_session w new_ref s' in s''

  unfoldable pub join_handler : Handler
  join_handler type tx payload ref (b, s) =
      if is_websocket (s.object ref).type || type == MessageType.response
      then ok (b, s)
      else if ltb (length payload) 16
      then ok (b, s)
      else (slice 0 16 payload >>= λ websocket_id.
          let s' = register websocket_id ref s in
          ok (Response.add_join tx (count_id s'.object websocket_id s'.sessions) b, s'))
