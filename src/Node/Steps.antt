-- ===== src/Node/Steps.antt =====
-- One step of the running program, and what is reached by steps.
use aurum.Base.{ℕ, ◌<◌, ◌^◌, ◌≡◌, Bool, false, Option, none, some, List, ◌∷◌, ◌++◌, All, length}
use aurum.Outcome.{Outcome, ok, ◌>>=◌}
use aurum.Bytes.{Bytes, IsByte}
use aurum.World.{World}
use aurum.State.Defs.{State, Task, write, start, dial}
use aurum.State.Connect.{connect}
use aurum.State.Registry.{disconnect, disconnect_all}
use aurum.Node.Reading.{on_send, on_write, on_header, on_body, on_read, on_accept}
use aurum.Node.Listeners.{accept_tcp, accept_websocket, node_connect}

-- A buffer that a read has filled.
pub record Buffer : Type 0 where
  pub bytes : Bytes
  pub each : All IsByte bytes
  pub small : length bytes < 2 ^ 64

-- What a read ends with.
abbrev pub bytes_of : Option Buffer → Option Bytes
bytes_of none = none
bytes_of (some b) = some b.bytes

-- What happens: a call of the node, a new connection, or a completion for a session.
pub data Event : Type 0 where
  tcp_accepted websocket_accepted disconnects_all : Event
  connects : Bytes → ℕ → Event
  disconnects : Bytes → Event
  header_read body_read message_read : ℕ → Option Buffer → Event
  written_out accepted : ℕ → Bool → Event

module _ (w : World) where
  -- The body of a posted task. The start of a session issues a read, or the WebSocket handshake.
  unfoldable pub run_task : Task → State → Outcome State
  run_task (write ref frame) s = ok (on_send ref frame s)
  run_task (start ref) s = ok s
  run_task (dial host port) s = connect w host port false 0 s >>= λ r. ok r.1

  unfoldable pub run_event : Event → State → Outcome State
  run_event tcp_accepted s = ok (accept_tcp w s)
  run_event websocket_accepted s = ok (accept_websocket w s)
  run_event disconnects_all s = disconnect_all w s
  run_event (connects host port) s = node_connect w host port s >>= λ r. ok r.1
  run_event (disconnects node_id) s = disconnect w node_id s
  run_event (header_read ref b) s = on_header w ref (bytes_of b) s >>= λ r. ok r.1
  run_event (body_read ref b) s = on_body w ref (bytes_of b) s >>= λ r. ok r.1
  run_event (message_read ref b) s = on_read w ref (bytes_of b) s >>= λ r. ok r.1
  run_event (written_out ref error) s = on_write w ref error s
  run_event (accepted ref error) s = on_accept w ref error s >>= λ r. ok r.1

  -- A task leaves the queue before it runs. Any task may be next: several threads run them, and
  -- only those of one strand keep their order.
  unfoldable pub take_task : List Task → List Task → State → State
  take_task before after s = record s { posted = before ++ after }

  pub data Step : State → State → Type 0 where
    runs :
        {s t : State} (before : List Task) (task : Task) (after : List Task)
        → s.posted ≡ before ++ (task ∷ after)
        → run_task task (take_task before after s) ≡ ok t
        → Step s t
    happens : {s t : State} (event : Event) → run_event event s ≡ ok t → Step s t

  pub data Reaches : State → State → Type 0 where
    here : {s : State} → Reaches s s
    there : {s t u : State} → Step s t → Reaches t u → Reaches s u
