-- ===== src/Node/Reading.antt =====
-- The completions of a session's reads and writes in src/aurum/tcp_session.cpp and
-- websocket_session.cpp.
use aurum.Session.{opened}
use aurum.Base.{ℕ, Bool, true, false, Option, none, some}
use aurum.Outcome.{Outcome, ok, ◌>>=◌}
use aurum.Bytes.{Bytes, from_le}
use aurum.Protocol.Builder.{fresh}
use aurum.Protocol.Request
use aurum.Protocol.Frame.{get_data}
use aurum.Session.Queue.{enqueue, written, write_failed}
use aurum.World.{World}
use aurum.State.Defs.{State, assign, draw}
use aurum.State.Routing.{send, broadcast_to_nodes}
use aurum.State.Registry.{remove_session}
use aurum.Kernel.{handle}

-- The read that a session has issued: a length header, a body of that many bytes, a WebSocket
-- message, or none any more.
pub data Reading : Type 0 where
  header message stopped : Reading
  body : ℕ → Reading

unfoldable pub on_send : ℕ → Bytes → State → State
on_send ref frame s = assign ref (enqueue frame (s.object ref)) s

module _ (w : World) where
  -- `state_->remove_session(get_id())`, after which the session issues nothing.
  unfoldable pub drop_session : ℕ → State → Outcome State
  drop_session ref s = remove_session w (s.object ref).id s >>= λ r. ok r.1

  -- The completion of a write; `true` is an error.
  unfoldable pub on_write : ℕ → Bool → State → Outcome State
  on_write ref true s = drop_session ref (assign ref (write_failed (s.object ref)) s)
  on_write ref false s = ok (assign ref (written (s.object ref)) s)

  unfoldable pub stop_reading : ℕ → State → Outcome (Reading × State)
  stop_reading ref s = drop_session ref s >>= λ s'. ok (stopped, s')

  -- The completion of `read_header`: the 4 bytes, or an error.
  unfoldable pub on_header : ℕ → Option Bytes → State → Outcome (Reading × State)
  on_header ref none s = stop_reading ref s
  on_header ref (some length_header) s = ok (body (from_le length_header), s)

  -- `if (const auto _response = kernel_->handle(...); _response) send(_response);`
  unfoldable pub reply : ℕ → Option Bytes → State → State
  reply ref none s = s
  reply ref (some response) s = send ref response s

  unfoldable pub receive : ℕ → Bytes → State → Outcome State
  receive ref frame s = handle w (some frame) ref s >>= λ a. ok (reply ref a.0 a.1)

  -- The completion of `tcp_session::read_body`.
  unfoldable pub on_body : ℕ → Option Bytes → State → Outcome (Reading × State)
  on_body ref none s = stop_reading ref s
  on_body ref (some frame) s = receive ref frame s >>= λ s'. ok (header, s')

  -- `websocket_session::on_read`.
  unfoldable pub on_read : ℕ → Option Bytes → State → Outcome (Reading × State)
  on_read ref none s = stop_reading ref s
  on_read ref (some frame) s = receive ref frame s >>= λ s'. ok (message, s')

  unfoldable pub join_frame : Bytes → Bytes → Outcome Bytes
  join_frame session_id id = get_data w.crc true (Request.add_join session_id id fresh)

  -- `websocket_session::on_accept`; `true` is an error.
  unfoldable pub on_accept : ℕ → Bool → State → Outcome (Reading × State)
  on_accept ref true s = stop_reading ref s
  on_accept ref false s = do
    let (s', id) = draw w (assign ref (opened (s.object ref)) s)
    frame ← join_frame (s.object ref).id id
    ok (message, broadcast_to_nodes frame s')
