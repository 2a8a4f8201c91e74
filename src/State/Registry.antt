-- ===== src/State/Registry.antt =====
-- `state::add_session`, `remove_session`, `disconnect` and `disconnect_all`, with the sessions'
-- own `disconnect`.
use aurum.Base.{ℕ, Bool, true, false, none, some, List, [], ◌∷◌, map, if◌then◌else◌}
use aurum.Outcome.{Outcome, ok, ◌>>=◌}
use aurum.Bytes.{Bytes}
use aurum.Protocol.SessionType.{tcp, websocket}
use aurum.Protocol.Builder.{fresh}
use aurum.Protocol.Request
use aurum.Protocol.Frame.{get_data}
use aurum.Session.{close}
use aurum.World.{World}
use aurum.State.Defs.{State, assign, draw, keyed, find_id, erase_id}
use aurum.State.Routing.{broadcast_to_nodes}

module _ (w : World) where
  -- The first component says whether the session was inserted.
  unfoldable pub add_session : ℕ → State → Bool × State
  add_session ref s = elim (find_id s.object (s.object ref).id s.sessions) [
    | some e ↦ (false, s)
    | none ↦ (
      true,
      record s {
        sessions = w.insert (record { ref = ref; filed = (s.object ref).node_id }) s.sessions;
      },
    )
  ]

  -- The socket is closed if it is open.
  unfoldable pub close_socket : ℕ → State → State
  close_socket ref s = if (s.object ref).is_open then assign ref (close (s.object ref)) s else s

  -- The request that a WebSocket session broadcasts when it goes.
  unfoldable pub leave_frame : Bytes → Bytes → Outcome Bytes
  leave_frame session_id id = get_data w.crc true (Request.add_leave session_id id fresh)

  unfoldable pub announce_leave : ℕ → State → Outcome State
  announce_leave ref s = do
    let (s', id) = draw w s
    frame ← leave_frame (s.object ref).id id
    ok (broadcast_to_nodes frame s')

  -- `tcp_session::disconnect` and `websocket_session::disconnect`.
  unfoldable pub disconnect_session : ℕ → State → Outcome State
  disconnect_session ref s = elim (s.object ref).type [
    | tcp ↦ ok (close_socket ref s)
    | websocket ↦ announce_leave ref (close_socket ref s)
  ]

  unfoldable pub remove_session : Bytes → State → Outcome (Bool × State)
  remove_session id s = elim (find_id s.object id s.sessions) [
    | none ↦ ok (false, s)
    | some e ↦ do
      s' ← disconnect_session e.ref (record s { sessions = erase_id s.object id s.sessions })
      ok (true, s')
  ]

  -- The loop over `_sessions_to_remove`.
  unfoldable pub remove_each : List Bytes → State → Outcome State
  remove_each [] s = ok s
  remove_each (id ∷ ids) s = do (_, s') ← remove_session id s; remove_each ids s'

  unfoldable pub disconnect : Bytes → State → Outcome State
  disconnect remote_node_id s =
      remove_each (map (λ r. (s.object r).id) (w.equal_range remote_node_id (keyed s))) s

  unfoldable pub disconnect_all : State → Outcome State
  disconnect_all s = remove_each (map (λ e. (s.object e.ref).id) s.sessions) s
