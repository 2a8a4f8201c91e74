-- ===== src/Examples/Starting.antt =====
-- The start of a node, at concrete options and acceptors.
use aurum.Base.{true, ℕ, ◌+◌, ◌≡◌, refl, Option, none, some, ◌==◌, ltb, if◌then◌else◌}
use aurum.Outcome.{◌>>=◌, ok}
use aurum.Protocol.Builder.{fresh}
use aurum.Protocol.Request
use aurum.Protocol.Frame.{get_data}
use aurum.State.Defs.{State, start, draw, post}
use aurum.State.Routing.{send}
use aurum.State.Connect.{loopback, append_discovery, introduce}
use aurum.Node.Listeners.{initial, accept_tcp}
use aurum.Node.Steps.{Reaches, here, there, happens, tcp_accepted, run_event}
use aurum.Node.History.{Evolves}
use aurum.Node.History.Runs.{Reaches-Evolves}
use aurum.Node.History.Announced.{introduce-bound}
use aurum.Examples.Setting.{world, first_two}
use aurum.Node.Startup.{new_node, Options, Node, launch}
use aurum.Node.Startup.Ready.{Started, launch-Started}

-- Port 0 asks for any free port. The ports below 1024 cannot be bound.
abbrev listen : ℕ → ℕ → Option ℕ
listen n port = if port == 0 then some (40000 + n) else if ltb port 1024 then none else some port

abbrev options : Options
options = record {
  threads = some 4;
  port = some 8080;
  websocket_port = none;
  connections_per_node = none;
}

launch-Started_example :
    (n : Node) × (launch listen options ≡ some n) × Started options 8080 40001 n
launch-Started_example = launch-Started listen options 8080 40001 refl refl

abbrev started_node : Node
started_node = record new_node {
  configuration = record {
    threads = 4;
    tcp_port = 8080;
    connections_per_node = 1;
    tcp_ready = true;
    websocket_port = 40001;
    websocket_ready = true;
  };
  tcp_accepting = true;
  websocket_accepting = true;
  thread_pool = 4;
}

started : Started options 8080 40001 started_node
unfolding new_node
started = record {
  configuration = refl;
  tcp_accepting = refl;
  websocket_accepting = refl;
  thread_pool = refl;
  seen = (record { tcp = λ e. refl; websocket = λ e. refl }, tt);
}

-- A connection from outside has been accepted.
abbrev with_peer : State
with_peer = accept_tcp world (initial world started_node.configuration)

one_accepted : Reaches world (initial world started_node.configuration) with_peer
unfolding run_event
one_accepted = there (happens tcp_accepted refl) here

Reaches-Evolves_example : Evolves (initial world started_node.configuration) with_peer
Reaches-Evolves_example = Reaches-Evolves world _ with_peer one_accepted

introduce-bound_example :
    introduce world 1 true with_peer.configuration.connections_per_node with_peer ≡ (
      get_data first_two true
        (append_discovery world true
          (Request.add_identify (world.random 0) 1 (draw world with_peer).1 8080 loopback fresh)
          (draw world with_peer).0).0
      >>= λ frame. ok (
          post
            (start 1)
            (send 1 frame (append_discovery world true fresh (draw world with_peer).0).1)))
introduce-bound_example =
    introduce-bound world options 8080 40001 started_node with_peer 1 started one_accepted
