-- ===== src/Node/History/Runs.antt =====
-- `Evolves` along the steps of the program.
use aurum.Base.{ap, [], ◌∷◌, ◌++◌, ℕ, Bool, true, false, Option, none, some, ◌≡◌, refl, arith}
use aurum.Outcome.{ok, returns, Ends-bind, Ends-ok}
use aurum.Bytes.{Bytes}
use aurum.Session.{opened, Session, tcp_session, websocket_session, set_node_id}
use aurum.Session.Queue.{enqueue, written, write_failed}
use aurum.World.{World}
use aurum.State.Defs.{State, Task, write, start, dial, draw}
use aurum.Node.Reading.{
  on_send, on_write, drop_session, stop_reading, reply, receive, on_header, on_body, on_read,
  on_accept, join_frame,
}
use aurum.Node.Listeners.{accept_tcp, accept_websocket, node_connect}
use aurum.Node.Steps.{
  Event, tcp_accepted, websocket_accepted, disconnects_all, connects, disconnects, header_read,
  body_read, message_read, written_out, accepted, run_task, run_event, take_task, Step, runs,
  happens, Reaches, here, there,
}
use aurum.Node.History.{
  Evolves, Evolves-refl, Later, LaterWith, after, assign-Evolves, allocate-Evolves, posted-Evolves,
  start-Evolves, starts_of, starts_of-append, assign,
}
use aurum.Node.History.Registry.{
  draw-Evolves, send-Evolves, broadcast-Evolves, add_session-Evolves, made-Startable,
  remove_session-Later, disconnect-Later, disconnect_all-Later, connect-Later,
}
use aurum.Node.History.Kernel.{handle-Later}

enqueue-same : (m : Bytes) (s : Session) → ((enqueue m s).id ≡ s.id) × ((enqueue m s).type ≡ s.type)
unfolding enqueue
enqueue-same m s = (ground arith, ground arith)

module _ {s₀ : State} (w : World) where
  stop_reading-Later : (ref : ℕ) (s : State) → Evolves s₀ s → LaterWith s₀ (stop_reading w ref s)
  unfolding stop_reading drop_session
  stop_reading-Later ref s h =
      Ends-bind (Ends-bind (remove_session-Later w _ s h) (λ r k. returns k)) (λ t k. returns k)

  receive-Later :
      (ref : ℕ) (frame : Bytes) (s : State) → Evolves s₀ s → Later s₀ (receive w ref frame s)
  unfolding receive reply
  receive-Later ref frame s h = Ends-bind (handle-Later s₀ w (some frame) ref s h) answered
    where
      answered : (a : Option Bytes × State) → Evolves s₀ a.1 → Later s₀ (ok (reply w ref a.0 a.1))
      answered (none, s') k = returns k
      answered (some response, s') k = returns (send-Evolves w ref response s' k)

  on_write-Later :
      (ref : ℕ) (error : Bool) (s : State) → Evolves s₀ s → Later s₀ (on_write w ref error s)
  unfolding on_write drop_session
  on_write-Later ref true s h =
      Ends-bind
        (remove_session-Later w _ _ (
          assign-Evolves ref (write_failed (s.object ref)) s (unfold write_failed in refl)
            (unfold write_failed in refl) h))
        (λ r k. returns k)
  on_write-Later ref false s h = returns (
      assign-Evolves ref (written (s.object ref)) s (unfold written in refl)
        (unfold written in refl) h)

  on_accept-Later :
      (ref : ℕ) (error : Bool) (s : State) → Evolves s₀ s → LaterWith s₀ (on_accept w ref error s)
  unfolding on_accept
  on_accept-Later ref true s h = stop_reading-Later ref s h
  on_accept-Later ref false s h =
      let open_ = assign ref (opened (s.object ref)) s in
      after (join_frame w (s.object ref).id (draw w open_).1) λ frame. returns (
        broadcast-Evolves w frame _ (
          draw-Evolves w open_ (
            assign-Evolves ref (opened (s.object ref)) s (unfold opened in refl)
              (unfold opened in refl) h)))

  on_header-Later :
      (ref : ℕ) (b : Option Bytes) (s : State) → Evolves s₀ s → LaterWith s₀ (on_header w ref b s)
  unfolding on_header
  on_header-Later ref none s h = stop_reading-Later ref s h
  on_header-Later ref (some b) s h = returns h

  on_body-Later :
      (ref : ℕ) (b : Option Bytes) (s : State) → Evolves s₀ s → LaterWith s₀ (on_body w ref b s)
  unfolding on_body
  on_body-Later ref none s h = stop_reading-Later ref s h
  on_body-Later ref (some b) s h = Ends-bind (receive-Later ref b s h) (λ t k. returns k)

  on_read-Later :
      (ref : ℕ) (b : Option Bytes) (s : State) → Evolves s₀ s → LaterWith s₀ (on_read w ref b s)
  unfolding on_read
  on_read-Later ref none s h = stop_reading-Later ref s h
  on_read-Later ref (some b) s h = Ends-bind (receive-Later ref b s h) (λ t k. returns k)

  accept_tcp-Evolves : (s : State) → Evolves s₀ s → Evolves s₀ (accept_tcp w s)
  unfolding accept_tcp
  accept_tcp-Evolves s h =
      start-Evolves _ _ (made-Startable s₀ w (tcp_session (draw w s).1) _ (draw-Evolves w s h)) (
        add_session-Evolves w _ _
          (allocate-Evolves (tcp_session (draw w s).1) _ (draw-Evolves w s h)))

  accept_websocket-Evolves : (s : State) → Evolves s₀ s → Evolves s₀ (accept_websocket w s)
  unfolding accept_websocket
  accept_websocket-Evolves s h =
      start-Evolves _ _
        (made-Startable s₀ w (set_node_id (draw w s).0.node_id (websocket_session (draw w s).1)) _
          (draw-Evolves w s h))
        (add_session-Evolves w _ _ (
          allocate-Evolves (set_node_id (draw w s).0.node_id (websocket_session (draw w s).1)) _
            (draw-Evolves w s h)))

  run_task-Later : (task : Task) (s : State) → Evolves s₀ s → Later s₀ (run_task w task s)
  unfolding run_task on_send
  run_task-Later (write ref frame) s h =
      let same = enqueue-same frame (s.object ref) in
      returns (assign-Evolves ref _ s same.0 same.1 h)
  run_task-Later (start ref) s h = returns h
  run_task-Later (dial host port) s h =
      Ends-bind (connect-Later w host port false 0 s h) (λ r k. returns k)

  run_event-Later : (event : Event) (s : State) → Evolves s₀ s → Later s₀ (run_event w event s)
  unfolding run_event node_connect
  run_event-Later tcp_accepted s h = returns (accept_tcp-Evolves s h)
  run_event-Later websocket_accepted s h = returns (accept_websocket-Evolves s h)
  run_event-Later disconnects_all s h = disconnect_all-Later w s h
  run_event-Later (connects host port) s h =
      Ends-bind (connect-Later w host port true _ s h) (λ r k. returns k)
  run_event-Later (disconnects node_id) s h = disconnect-Later w node_id s h
  run_event-Later (header_read ref b) s h = Ends-bind (on_header-Later ref _ s h) (λ r k. returns k)
  run_event-Later (body_read ref b) s h = Ends-bind (on_body-Later ref _ s h) (λ r k. returns k)
  run_event-Later (message_read ref b) s h = Ends-bind (on_read-Later ref _ s h) (λ r k. returns k)
  run_event-Later (written_out ref error) s h = on_write-Later ref error s h
  run_event-Later (accepted ref error) s h =
      Ends-bind (on_accept-Later ref error s h) (λ r k. returns k)

  pub Step-Evolves : {s t : State} → Step w s t → Evolves s₀ s → Evolves s₀ t
  unfolding take_task
  Step-Evolves (runs {s} before task after_ e step) h = Ends-ok step (
      run_task-Later task _ (
        posted-Evolves (before ++ after_) s
          (λ r. omega (
            arith,
            ap (starts_of r) e,
            starts_of-append r before (task ∷ after_),
            starts_of-append r before after_,
            starts_of-append r (task ∷ []) after_,
          ))
          h))
  Step-Evolves (happens {s} event step) h = Ends-ok step (run_event-Later event s h)

  Reaches-later : {s t : State} → Reaches w s t → Evolves s₀ s → Evolves s₀ t
  Reaches-later here h = h
  Reaches-later (there step r) h = Reaches-later r (Step-Evolves step h)

-- Between a state of the running program and any later one, the configuration and the node's own
-- id stay the same, no pointer to a session is given out twice, and every session object that there
-- was keeps its id and its class, whatever was received, connected, written or closed meanwhile. The
-- posted starts of a session become no more, except for one start of a session made meanwhile.
pub Reaches-Evolves : (w : World) (s t : State) → Reaches w s t → Evolves s t
Reaches-Evolves w s t r = Reaches-later w r (Evolves-refl s)
