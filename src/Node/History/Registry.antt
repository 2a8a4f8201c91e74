-- ===== src/Node/History/Registry.antt =====
-- `Evolves` for the operations of the state.
use aurum.Base.{
  arith, ◌≡◌, ℕ, Bool, true, false, refl, List, [], ◌∷◌, inl, inr, Option-cases, if_cases, ◌+◌,
}
use aurum.Outcome.{ok, returns, Ends-if, Ends-bind}
use aurum.Bytes.{Bytes}
use aurum.Protocol.SessionType.{SessionType, tcp, websocket}
use aurum.Session.{Session, close, tcp_session}
use aurum.World.{World, resolve_failed, connect_failed, connected, Dial}
use aurum.State.Defs.{State, Task, draw, allocate, post, find_id, write, assign}
use aurum.State.Routing.{send, send_each, broadcast_to_nodes}
use aurum.State.Registry.{
  add_session, close_socket, leave_frame, announce_leave, disconnect_session, remove_session,
  remove_each, disconnect, disconnect_all,
}
use aurum.State.Connect.{loopback, append_discovery, introduce, open_session, connect}
use aurum.Protocol.Builder.{Builder, fresh}
use aurum.Protocol.Request
use aurum.Protocol.Frame.{get_data}
use aurum.Node.History.{
  Evolves, Later, LaterWith, after, fields-Evolves, assign-Evolves, allocate-Evolves, starts_of,
  starts_of-append, posted-Evolves, start-Evolves, Startable,
}

module _ (s₀ : State) (w : World) where
  introduced-Startable :
      (with_discovery : Bool) (b : Builder) (ref : ℕ) (frame : Bytes) (s : State)
      → Startable s₀ ref s
      → Startable s₀ ref (send ref frame (append_discovery w with_discovery b (draw w s).0).1)
  unfolding append_discovery draw send post
  introduced-Startable false b ref frame s h =
      omega (arith, h, starts_of-append ref s.posted (write ref frame ∷ []))
  introduced-Startable true b ref frame s h =
      omega (arith, h, starts_of-append ref s.posted (write ref frame ∷ []))

  -- A session that has just been made, and perhaps registered, has no start posted.
  pub made-Startable :
      (session : Session) (s : State)
      → Evolves s₀ s
      → Startable s₀
          (allocate session s).1
          (add_session w (allocate session s).1 (allocate session s).0).1
  unfolding add_session allocate assign
  made-Startable session s h =
      elim (Option-cases (
        find_id (allocate session s).0.object
          ((allocate session s).0.object (allocate session s).1).id s.sessions)) [
            | inl missing ↦
                rw (missing, add_session) (ground (arith, h.starts s.next_ref, h.next_ref))
            | inr (e, found) ↦
                rw (found, add_session) (ground (arith, h.starts s.next_ref, h.next_ref))
          ]

module _ {s₀ : State} (w : World) where
  pub draw-Evolves : (s : State) → Evolves s₀ s → Evolves s₀ (draw w s).0
  unfolding draw
  draw-Evolves s h = fields-Evolves s refl refl refl refl refl h

  pub post-Evolves :
      (task : Task) (s : State)
      → ((r : ℕ) → starts_of r (task ∷ []) ≡ 0)
      → Evolves s₀ s
      → Evolves s₀ (post task s)
  unfolding post
  post-Evolves task s no_start h =
      posted-Evolves _ s (λ r. omega (arith, starts_of-append r s.posted (task ∷ []), no_start r)) h

  pub send-Evolves : (ref : ℕ) (m : Bytes) (s : State) → Evolves s₀ s → Evolves s₀ (send ref m s)
  unfolding send
  send-Evolves ref m s h = post-Evolves (write ref m) s (λ r. refl) h

  send_each-Evolves :
      (rs : List ℕ) (m : Bytes) (s : State) → Evolves s₀ s → Evolves s₀ (send_each rs m s)
  unfolding send_each
  send_each-Evolves [] m s h = h
  send_each-Evolves (r ∷ rs) m s h = send_each-Evolves rs m _ (send-Evolves r m s h)

  pub broadcast-Evolves :
      (m : Bytes) (s : State) → Evolves s₀ s → Evolves s₀ (broadcast_to_nodes m s)
  unfolding broadcast_to_nodes
  broadcast-Evolves m s h = send_each-Evolves _ m s h

  pub add_session-Evolves :
      (ref : ℕ) (s : State) → Evolves s₀ s → Evolves s₀ (add_session w ref s).1
  unfolding add_session
  add_session-Evolves ref s h =
      elim (Option-cases (find_id s.object (s.object ref).id s.sessions)) [
        | inl missing ↦ rw (missing, add_session) (fields-Evolves s refl refl refl refl refl h)
        | inr (e, found) ↦ rw (found, add_session) h
      ]

  pub close_socket-Evolves :
      (ref : ℕ) (s : State) → Evolves s₀ s → Evolves s₀ (close_socket w ref s)
  unfolding close_socket
  close_socket-Evolves ref s h =
      if_cases (Evolves s₀) _ _ _
        (λ opened.
          assign-Evolves ref (close (s.object ref)) s (unfold close in refl) (unfold close in refl)
            h)
        (λ closed. h)

  disconnect_session-Later :
      (ref : ℕ) (s : State) → Evolves s₀ s → Later s₀ (disconnect_session w ref s)
  unfolding disconnect_session announce_leave
  disconnect_session-Later ref s h = by_type (s.object ref).type
    where
      by_type :
          (type : SessionType)
          → Later s₀ (elim type [
            | tcp ↦ ok (close_socket w ref s)
            | websocket ↦ announce_leave w ref (close_socket w ref s)
          ])
      by_type tcp = returns (close_socket-Evolves ref s h)
      by_type websocket = after (leave_frame w _ _) λ frame.
          returns (broadcast-Evolves frame _ (draw-Evolves _ (close_socket-Evolves ref s h)))

  pub remove_session-Later :
      (id : Bytes) (s : State) → Evolves s₀ s → LaterWith s₀ (remove_session w id s)
  unfolding remove_session
  remove_session-Later id s h = elim (Option-cases (find_id s.object id s.sessions)) [
    | inl missing ↦ rw (missing, remove_session) (returns h)
    | inr (e, found) ↦
        rw (found, remove_session)
          (Ends-bind
            (disconnect_session-Later e.ref _ (fields-Evolves s refl refl refl refl refl h))
            (λ t k. returns k))
  ]

  remove_each-Later : (ids : List Bytes) (s : State) → Evolves s₀ s → Later s₀ (remove_each w ids s)
  unfolding remove_each
  remove_each-Later [] s h = returns h
  remove_each-Later (id ∷ ids) s h =
      Ends-bind (remove_session-Later id s h) (λ r k. remove_each-Later ids r.1 k)

  pub disconnect-Later :
      (node_id : Bytes) (s : State) → Evolves s₀ s → Later s₀ (disconnect w node_id s)
  unfolding disconnect
  disconnect-Later node_id s h = remove_each-Later _ s h

  pub disconnect_all-Later : (s : State) → Evolves s₀ s → Later s₀ (disconnect_all w s)
  unfolding disconnect_all
  disconnect_all-Later s h = remove_each-Later _ s h

  append_discovery-Evolves :
      (with_discovery : Bool) (b : Builder) (s : State)
      → Evolves s₀ s
      → Evolves s₀ (append_discovery w with_discovery b s).1
  unfolding append_discovery
  append_discovery-Evolves false b s h = h
  append_discovery-Evolves true b s h = draw-Evolves s h

  introduce-Later :
      (ref : ℕ) (with_discovery : Bool) (n : ℕ) (s : State)
      → Startable s₀ ref s
      → Evolves s₀ s
      → Later s₀ (introduce w ref with_discovery n s)
  unfolding introduce
  introduce-Later ref with_discovery n s startable h =
      after (get_data w.crc true (append_discovery w with_discovery identify (draw w s).0).0)
        λ frame. returns (
          start-Evolves ref _
            (introduced-Startable s₀ w with_discovery identify ref frame s startable)
            (send-Evolves ref frame _
              (append_discovery-Evolves with_discovery identify _ (draw-Evolves s h))))
    where
      identify : Builder
      identify =
          Request.add_identify s.node_id n (draw w s).1 s.configuration.tcp_port loopback fresh

  open_session-Later :
      (with_discovery : Bool) (n : ℕ) (s : State)
      → Evolves s₀ s
      → LaterWith s₀ (open_session w with_discovery n s)
  unfolding open_session
  open_session-Later with_discovery n s h =
      let drawn = draw-Evolves s h in
      Ends-if (add_session w _ _).0
        (λ new.
          Ends-bind
            (introduce-Later _ with_discovery n _
              (made-Startable s₀ w (tcp_session (draw w s).1) _ drawn) registered)
            (λ t k. returns k))
        (λ old. returns registered)
    where
      registered :
          Evolves s₀
            (add_session w
              (allocate (tcp_session (draw w s).1) (draw w s).0).1
              (allocate (tcp_session (draw w s).1) (draw w s).0).0).1
      registered = add_session-Evolves _ _ (allocate-Evolves _ _ (draw-Evolves s h))

  pub connect-Later :
      (host : Bytes) (port : ℕ) (with_discovery : Bool) (n : ℕ) (s : State)
      → Evolves s₀ s
      → LaterWith s₀ (connect w host port with_discovery n s)
  unfolding connect
  connect-Later host port with_discovery n s h = by_dial (w.dial s.clock host port)
    where
      dialled : Evolves s₀ (record s { clock = s.clock + 1 })
      dialled = fields-Evolves s refl refl refl refl refl h

      by_dial :
          (d : Dial)
          → LaterWith s₀ (elim d [
            | resolve_failed ↦ ok (false, record s { clock = s.clock + 1 })
            | connect_failed ↦ ok (false, record s { clock = s.clock + 1 })
            | connected ↦ open_session w with_discovery n (record s { clock = s.clock + 1 })
          ])
      by_dial resolve_failed = returns dialled
      by_dial connect_failed = returns dialled
      by_dial connected = open_session-Later with_discovery n _ dialled
