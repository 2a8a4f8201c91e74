-- ===== src/Node/History/Announced.antt =====
-- What a node that has been started announces to its peers.
use aurum.Base.{ℕ, ◌≡◌, refl, true, ap, ◌∙◌}
use aurum.Outcome.{ok, ◌>>=◌}
use aurum.Protocol.Builder.{fresh}
use aurum.Protocol.Request
use aurum.Protocol.Frame.{get_data}
use aurum.World.{World}
use aurum.State.Defs.{State, start, draw, post}
use aurum.State.Routing.{send}
use aurum.State.Connect.{loopback, append_discovery, introduce}
use aurum.Node.Listeners.{initial}
use aurum.Node.Steps.{Reaches}
use aurum.Node.Startup.{Options, Node, or_default}
use aurum.Node.Startup.Ready.{Started}
use aurum.Node.History.{Evolves}
use aurum.Node.History.Runs.{Reaches-Evolves}

-- At any time after a start, `node::connect` introduces the node under the id drawn at the start,
-- with the bound TCP port, however many connections, frames and closed sessions lie between. It asks
-- for as many connections as the command line says.
pub introduce-bound :
    (w : World) (o : Options) (p q : ℕ) (n : Node) (s : State) (ref : ℕ)
    → Started o p q n
    → Reaches w (initial w n.configuration) s
    → introduce w ref true s.configuration.connections_per_node s ≡ (
        get_data w.crc true
          (append_discovery w true
            (Request.add_identify
              (w.random 0)
              (or_default 1 o.connections_per_node)
              (draw w s).1
              p
              loopback
              fresh)
            (draw w s).0).0
        >>= λ frame.
            ok (post (start ref) (send ref frame (append_discovery w true fresh (draw w s).0).1)))
unfolding introduce append_discovery
introduce-bound w o p q n s ref started r = rw (own_id, connections, port) refl
  where
    later : Evolves (initial w n.configuration) s
    later = Reaches-Evolves w _ s r

    own_id : s.node_id ≡ w.random 0
    own_id = later.node_id ∙ (unfold initial in refl)

    configured : s.configuration ≡ n.configuration
    configured = later.configuration ∙ (unfold initial in refl)

    connections : s.configuration.connections_per_node ≡ or_default 1 o.connections_per_node
    connections = ap (λ c. c.connections_per_node) (configured ∙ started.configuration)

    port : s.configuration.tcp_port ≡ p
    port = ap (λ c. c.tcp_port) (configured ∙ started.configuration)
