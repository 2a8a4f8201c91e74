-- ===== src/Node/Handshake/Effects.antt =====
-- What the requests of a node that opens a connection do at the other node, and the answers at it.
use aurum.Base.{
  ℕ, zero, suc, ◌+◌, ◌-◌, ◌<◌, ◌^◌, ◌≡◌, refl, sym, ap, true, false, List, [], ◌∷◌, ◌++◌,
  append-nil, arith, length, ltb, ◌&&◌, ◌==◌, not, replicate,
}
use aurum.Outcome.{ok}
use aurum.Bytes.{slice_at, Bytes}
use aurum.Protocol.Builder.{fresh}
use aurum.Protocol.Response
use aurum.Protocol.Response.{Peer, peers_payload}
use aurum.Protocol.SessionType.{tcp, is_websocket}
use aurum.World.{World}
use aurum.Node.Handshake.Messages.{asking, exploring, answering, listing}
use aurum.Session.{set_node_id, set_port, set_host}
use aurum.State.Defs.{State, Task, dial, assign}
use aurum.State.Connect.{loopback}
use aurum.Handlers.Identify.{identify_handler, spawn}
use aurum.Handlers.Discovery.{collect, discovery_handler, connect_peers}
use aurum.Handlers.Introduction.{identified, identify_handler-identity}
use aurum.Handlers.Peers.{count-peers_payload}
use aurum.Handlers.Table.{handlers}
use aurum.Kernel.RoundTrip.{Message, dispatch}

-- The connections that the accepting node is to open to the other one: one less than it is asked for,
-- and none where no port was sent.
abbrev pub dials : ℕ → ℕ → List Task
dials connections zero = []
dials connections (suc port) = replicate (connections - 1) (dial loopback (suc port))

-- The state of the accepting node after the request, which arrived at the session `b`.
abbrev pub introduced : ℕ → ℕ → State → State → State
introduced b connections sa sb =
    record (assign b (identified sa.node_id sa.configuration.tcp_port loopback (sb.object b)) sb) {
      posted = sb.posted ++ dials connections sa.configuration.tcp_port;
    }

spawn-dials :
    (connections port : ℕ) (s : State)
    → spawn connections loopback port s ≡ record s { posted = s.posted ++ dials connections port }
unfolding spawn
spawn-dials zero zero s = ap (λ t. record s { posted = t }) (sym (append-nil s.posted))
spawn-dials (suc zero) zero s = ap (λ t. record s { posted = t }) (sym (append-nil s.posted))
spawn-dials (suc (suc n)) zero s =
    let no_port : (ltb 1 (suc (suc n)) && false) ≡ false = ground arith in
    rw no_port (ap (λ t. record s { posted = t }) (sym (append-nil s.posted)))
spawn-dials zero (suc port) s = ap (λ t. record s { posted = t }) (sym (append-nil s.posted))
spawn-dials (suc zero) (suc port) s = ap (λ t. record s { posted = t }) (sym (append-nil s.posted))
spawn-dials (suc (suc n)) (suc port) s =
    let asked : (ltb 1 (suc (suc n)) && not (suc port == 0)) ≡ true = ground arith in rw asked refl

-- The peers that the accepting node lists: those of its sessions with neither of the two nodes.
abbrev pub listed_peers : ℕ → ℕ → State → State → List Peer
listed_peers b connections sa sb =
    let s = introduced b connections sa sb in collect s.object sa.node_id sb.node_id s.sessions

-- What the accepting node answers.
abbrev pub answers_of : World → ℕ → ℕ → State → State → List Message
answers_of w b connections sa sb =
    answering (w.random sa.clock) sb.node_id
    ∷ listing (w.random (sa.clock + 1)) (listed_peers b connections sa sb)
    ∷ []

pub dispatch-requests :
    (w : World) (b connections : ℕ) (tx tx' : Bytes) (sa sb : State)
    → length sa.node_id ≡ 16
    → connections < 2 ^ 16
    → sa.configuration.tcp_port < 2 ^ 16
    → (sb.object b).type ≡ tcp
    → dispatch w b
        (asking tx sa.node_id connections sa.configuration.tcp_port ∷ exploring tx' ∷ [])
        (fresh, sb)
      ≡ ok (
        Response.add_discovery tx'
            (listed_peers b connections sa sb)
            (Response.add_identify tx sb.node_id fresh),
        introduced b connections sa sb,
      )
unfolding dispatch handlers discovery_handler
dispatch-requests w b connections tx tx' sa sb h hc hp t =
    rw
      (
        identify_handler-identity sa.node_id connections sa.configuration.tcp_port loopback tx b
            fresh sb h hc hp (omega arith) t,
        spawn-dials connections sa.configuration.tcp_port
            (assign b (identified sa.node_id sa.configuration.tcp_port loopback (sb.object b)) sb),
      )
      (unfold assign set_host set_port set_node_id in ground arith)

-- The handler of the identify response only learns, and that of the discovery response connects.
pub dispatch-answers :
    (w : World) (ref : ℕ) (tx tx' node_id : Bytes) (nodes : List Peer) (s s' : State)
    → length node_id ≡ 16
    → (s.object ref).type ≡ tcp
    → length nodes < 2 ^ 32
    → connect_peers w
        (length nodes)
        4
        (peers_payload nodes)
        (assign ref (set_node_id node_id (s.object ref)) s)
      ≡ ok s'
    → dispatch w ref (answering tx node_id ∷ listing tx' nodes ∷ []) (fresh, s) ≡ ok (fresh, s')
unfolding dispatch handlers identify_handler discovery_handler
dispatch-answers w ref tx tx' node_id nodes s s' h t few met =
    let over_tcp : is_websocket (s.object ref).type ≡ false = ground arith in
    let long : ltb (length node_id) 16 ≡ false = ground (arith, h) in
    let (count, four) = count-peers_payload nodes few in
    let enough : ltb (length (peers_payload nodes)) 4 ≡ false = ground (arith, four) in
    rw
      (
        over_tcp,
        long,
        slice_at node_id [] node_id [] {off = 0} {n = 16} (sym (append-nil node_id)) refl h,
        enough,
        count,
        met,
      )
      refl
