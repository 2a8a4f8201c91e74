-- ===== src/Node/Listeners.antt =====
-- `do_accept` of both listeners, the constructor of `state`, and the calls of `node` on it.
use aurum.Base.{ℕ, Bool, true, false, []}
use aurum.Outcome.{Outcome}
use aurum.Bytes.{Bytes}
use aurum.Protocol.SessionType.{tcp}
use aurum.Session.{new_session, nil_uuid, tcp_session, websocket_session, set_node_id}
use aurum.World.{World}
use aurum.State.Defs.{State, Configuration, start, draw, allocate, post}
use aurum.State.Registry.{add_session}
use aurum.State.Connect.{connect}

module _ (w : World) where
  -- The constructor of `state`. No object has been made, so what the pointers reach is arbitrary.
  unfoldable pub initial : Configuration → State
  initial configuration = record {
    configuration = configuration;
    node_id = w.random 0;
    sessions = [];
    round_robin_indices = [];
    object = λ r. new_session tcp nil_uuid false;
    next_ref = 0;
    clock = 1;
    posted = [];
  }

  -- A connection accepted by `tcp_listener::do_accept` without an error.
  unfoldable pub accept_tcp : State → State
  accept_tcp s =
      let (s₁, id) = draw w s in
      let (s₂, ref) = allocate (tcp_session id) s₁ in
      let (_, s₃) = add_session w ref s₂ in post (start ref) s₃

  -- A connection accepted by `websocket_listener::do_accept` without an error.
  unfoldable pub accept_websocket : State → State
  accept_websocket s =
      let (s₁, id) = draw w s in
      let (s₂, ref) = allocate (set_node_id s₁.node_id (websocket_session id)) s₁ in
      let (_, s₃) = add_session w ref s₂ in post (start ref) s₃

  -- `node::connect`.
  unfoldable pub node_connect : Bytes → ℕ → State → Outcome (Bool × State)
  node_connect host port s = connect w host port true s.configuration.connections_per_node s
