-- ===== src/Node/Safety.antt =====
-- The state is well formed whenever the program runs, and no step reads out of bounds.
use aurum.Base.{
  ℕ, ◌≡◌, refl, Bool, true, false, Option, none, some, List, arith, length, length-append,
  append-nil,
}
use aurum.Outcome.{
  Outcome, ◌>>=◌, Ends, Returns, returns, Ends-bind, Returns-Ends, payload_too_large, ok, Ends-ok,
}
use aurum.Bytes.{Bytes}
use aurum.Protocol.Builder.{fresh, push_back}
use aurum.Protocol.Request
use aurum.Protocol.Frame.{payloads}
use aurum.Protocol.Frame.Layout.{Fits, get_data-Returns}
use aurum.Session.{opened, Session, tcp_session, websocket_session, set_node_id}
use aurum.Session.Queue.{enqueue, written, write_failed}
use aurum.World.{World}
use aurum.State.Defs.{
  State, Configuration, Task, write, start, dial, assign, draw, allocate, post, count_id,
}
use aurum.State.Registry.{add_session}
use aurum.State.Invariant.{Inv, SameSessions-Inv, broadcast-SameSessions, send-SameSessions}
use aurum.State.Invariant.Objects.{assign-Inv, allocate-Inv, add_session-Inv}
use aurum.State.Invariant.Registry.{remove_session-Inv, disconnect-Inv, disconnect_all-Inv}
use aurum.State.Invariant.Connect.{connect-Inv}
use aurum.Kernel.Safety.{handle-Inv}
use aurum.Node.Reading.{
  on_send, on_write, drop_session, stop_reading, reply, receive, on_header, on_body, on_read,
  on_accept, join_frame, Reading,
}
use aurum.Node.Listeners.{initial, accept_tcp, accept_websocket, node_connect}
use aurum.Node.Steps.{
  Buffer, Event, tcp_accepted, websocket_accepted, disconnects_all, connects, disconnects,
  header_read, body_read, message_read, written_out, accepted, run_task, run_event, take_task, Step,
  runs, happens, Reaches, here, there,
}

-- A well-formed state, or the only error that is thrown.
abbrev pub Runs : Outcome State → Type 0
Runs = Ends (λ e. e ≡ payload_too_large) Inv

module _ (w : World) where
  enqueue-id : (m : Bytes) (s : Session) → (enqueue m s).id ≡ s.id
  unfolding enqueue
  enqueue-id m s = ground arith

  drop_session-Inv : (ref : ℕ) (s : State) → Inv s → Returns Inv (drop_session w ref s)
  unfolding drop_session
  drop_session-Inv ref s v = Ends-bind (remove_session-Inv w _ s v) (λ r h. returns h)

  stop_reading-Runs : (ref : ℕ) (s : State) → Inv s → Runs (stop_reading w ref s >>= λ r. ok r.1)
  unfolding stop_reading
  stop_reading-Runs ref s v =
      Returns-Ends
        (Ends-bind (Ends-bind (drop_session-Inv ref s v) (λ t h. returns h)) (λ r h. returns h))

  on_write-Runs : (ref : ℕ) (error : Bool) (s : State) → Inv s → Runs (on_write w ref error s)
  unfolding on_write
  on_write-Runs ref true s v = Returns-Ends (
      drop_session-Inv ref _
        (assign-Inv ref (write_failed (s.object ref)) s (unfold write_failed in refl) v))
  on_write-Runs ref false s v =
      returns (assign-Inv ref (written (s.object ref)) s (unfold written in refl) v)

  reply-Inv : (ref : ℕ) (response : Option Bytes) (s : State) → Inv s → Inv (reply w ref response s)
  unfolding reply
  reply-Inv ref none s v = v
  reply-Inv ref (some response) s v = SameSessions-Inv _ _ (send-SameSessions ref response s) v

  receive-Runs : (ref : ℕ) (b : Buffer) (s : State) → Inv s → Runs (receive w ref b.bytes s)
  unfolding receive
  receive-Runs ref b s v =
      Ends-bind (handle-Inv w b.bytes ref s b.each b.small v)
        (λ a h. returns (reply-Inv ref a.0 a.1 h))

  join_frame-Returns :
      (session_id id : Bytes)
      → length session_id ≡ 16
      → length id ≡ 16
      → Returns (λ (frame : Bytes). Unit {0}) (join_frame w session_id id)
  unfolding join_frame
  join_frame-Returns session_id id hs hi = get_data-Returns w.crc true _ fits
    where
      fits : Fits (Request.add_join session_id id fresh).buffers
      fits =
          unfold Request.add_join push_back fresh payloads in
          record {
            requests = omega arith;
            payload = rw append-nil (omega (arith, length-append id session_id));
          }

  draw-Inv : (s : State) → Inv s → Inv (draw w s).0
  unfolding draw
  draw-Inv s v = record {
    unique = v.unique;
    allocated = v.allocated;
    sixteen = v.sixteen;
    self = v.self;
  }

  draw-sixteen : (s : State) → length (draw w s).1 ≡ 16
  unfolding draw
  draw-sixteen s = (w.random-IsUuid s.clock).sixteen

  -- A new session object is registered, and its start is posted.
  accepted-Inv :
      (session : Session) (s : State)
      → length session.id ≡ 16
      → Inv s
      → Inv (
          post
            (start (allocate session s).1)
            (add_session w (allocate session s).1 (allocate session s).0).1)
  unfolding post
  accepted-Inv session s h v =
      let u =
        add_session-Inv w (allocate session s).1 (allocate session s).0
          (unfold allocate assign in omega arith) (allocate-Inv session s h v) in
      record { unique = u.unique; allocated = u.allocated; sixteen = u.sixteen; self = u.self }

  accept_tcp-Inv : (s : State) → Inv s → Inv (accept_tcp w s)
  unfolding accept_tcp
  accept_tcp-Inv s v =
      accepted-Inv (tcp_session (draw w s).1) (draw w s).0 (unfold tcp_session in draw-sixteen s)
        (draw-Inv s v)

  accept_websocket-Inv : (s : State) → Inv s → Inv (accept_websocket w s)
  unfolding accept_websocket
  accept_websocket-Inv s v =
      accepted-Inv (set_node_id (draw w s).0.node_id (websocket_session (draw w s).1)) (draw w s).0
        (unfold set_node_id websocket_session in draw-sixteen s) (draw-Inv s v)

  on_accept-Runs :
      (ref : ℕ) (error : Bool) (s : State) → Inv s → Runs (on_accept w ref error s >>= λ r. ok r.1)
  unfolding on_accept
  on_accept-Runs ref true s v = stop_reading-Runs ref s v
  on_accept-Runs ref false s v = Returns-Ends (
      Ends-bind
        (Ends-bind (join_frame-Returns _ _ (v.sixteen ref) (draw-sixteen _)) (λ frame h. returns (
          SameSessions-Inv _ _ (broadcast-SameSessions frame _)
            (draw-Inv _ (assign-Inv ref (opened (s.object ref)) s (unfold opened in refl) v)))))
        (λ (r : Reading × State) h. returns h))

  run_task-Runs : (task : Task) (s : State) → Inv s → Runs (run_task w task s)
  unfolding run_task on_send
  run_task-Runs (write ref frame) s v =
      returns (assign-Inv ref _ s (enqueue-id frame (s.object ref)) v)
  run_task-Runs (start ref) s v = returns v
  run_task-Runs (dial host port) s v =
      Returns-Ends (Ends-bind (connect-Inv w host port false 0 s v) (λ r h. returns h))

  run_event-Runs : (event : Event) (s : State) → Inv s → Runs (run_event w event s)
  unfolding run_event
  run_event-Runs tcp_accepted s v = returns (accept_tcp-Inv s v)
  run_event-Runs websocket_accepted s v = returns (accept_websocket-Inv s v)
  run_event-Runs disconnects_all s v = Returns-Ends (disconnect_all-Inv w s v)
  run_event-Runs (connects host port) s v =
      unfold node_connect in
      Returns-Ends (Ends-bind (connect-Inv w host port true _ s v) (λ r h. returns h))
  run_event-Runs (disconnects node_id) s v = Returns-Ends (disconnect-Inv w node_id s v)
  run_event-Runs (header_read ref none) s v = unfold on_header in stop_reading-Runs ref s v
  run_event-Runs (header_read ref (some b)) s v = unfold on_header in returns v
  run_event-Runs (body_read ref none) s v = unfold on_body in stop_reading-Runs ref s v
  run_event-Runs (body_read ref (some b)) s v =
      unfold on_body in
      Ends-bind (Ends-bind (receive-Runs ref b s v) (λ t h. returns h))
        (λ (r : Reading × State) h. returns h)
  run_event-Runs (message_read ref none) s v = unfold on_read in stop_reading-Runs ref s v
  run_event-Runs (message_read ref (some b)) s v =
      unfold on_read in
      Ends-bind (Ends-bind (receive-Runs ref b s v) (λ t h. returns h))
        (λ (r : Reading × State) h. returns h)
  run_event-Runs (written_out ref error) s v = on_write-Runs ref error s v
  run_event-Runs (accepted ref error) s v = on_accept-Runs ref error s v

  take_task-Inv : (before after : List Task) (s : State) → Inv s → Inv (take_task w before after s)
  unfolding take_task
  take_task-Inv before after s v = record {
    unique = v.unique;
    allocated = v.allocated;
    sixteen = v.sixteen;
    self = v.self;
  }

  Step-Inv : {s t : State} → Step w s t → Inv s → Inv t
  Step-Inv (runs {s} before task after e h) v =
      Ends-ok h (run_task-Runs task _ (take_task-Inv before after s v))
  Step-Inv (happens {s} event h) v = Ends-ok h (run_event-Runs event s v)

  Reaches-keeps : {s t : State} → Reaches w s t → Inv s → Inv t
  Reaches-keeps here v = v
  Reaches-keeps (there step r) v = Reaches-keeps r (Step-Inv step v)

  initial-Inv : (c : Configuration) → Inv (initial w c)
  unfolding initial count_id
  initial-Inv c = record {
    unique = λ id. omega arith;
    allocated = tt;
    sixteen = λ r. refl;
    self = (w.random-IsUuid 0).sixteen;
  }

  -- In every state that the program reaches from its start, by tasks, reads, writes, connections and
  -- calls in any order, the registry is well formed: no two registered sessions have the same id,
  -- each registered pointer is that of an object, and ids are 16 bytes.
  pub Reaches-Inv : (c : Configuration) (s : State) → Reaches w (initial w c) s → Inv s
  Reaches-Inv c s r = Reaches-keeps r (initial-Inv c)

  -- In every state that the program reaches from its start, any event either ends in a well-formed
  -- state or throws the error for too many bytes of responses; in particular it reads out of no
  -- buffer's bounds.
  pub run_event-Ends :
      (c : Configuration) (s : State) (event : Event)
      → Reaches w (initial w c) s
      → Ends (λ e. e ≡ payload_too_large) Inv (run_event w event s)
  run_event-Ends c s event r = run_event-Runs event s (Reaches-Inv c s r)
