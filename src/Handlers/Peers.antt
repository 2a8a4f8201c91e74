-- ===== src/Handlers/Peers.antt =====
-- What the discovery handler reads from the responses that the builder writes.
use aurum.Base.{
  refl, ℕ, ◌+◌, ◌^◌, ◌<◌, ◌≡◌, some, arith, length, List, ◌∷◌, ◌++◌, take, length-append, ◌≢◌, ◌≤◌,
  ◌%◌, [], take-append, ltb, false,
}
use aurum.Outcome.{ok, ◌>>=◌, bind-ok}
use aurum.World.{World}
use aurum.State.Defs.{State}
use aurum.Protocol.Builder.{Builder}
use aurum.Bytes.{Bytes, slice, read_le, to_le}
use aurum.Protocol.MessageType
use aurum.Protocol.Response.{Peer, peer_table, peer_hosts, peers_payload}
use aurum.Handlers.Discovery.{read_peer, discovery_handler, connect_peers, connect_unknown}

-- A peer with a 16-bit port and a host whose length fits 16 bits.
pub record IsListed (p : Peer) : Type 0 where
  pub host : length p.0 < 2 ^ 16
  pub port : p.1 < 2 ^ 16

-- What stands behind the first peer's port and host length.
abbrev behind : List Peer → Bytes → Bytes
behind nodes host = peer_table nodes ++ (host ++ peer_hosts nodes)

-- The first peer's host is read from right behind its entry in the table.
pub read_peer-peers_payload :
    (host : Bytes) (port : ℕ) (nodes : List Peer)
    → IsListed (host, port)
    → read_peer 4 (peers_payload ((host, port) ∷ nodes))
      ≡ ok (some ((take (length host) (behind nodes host), port), 8 + length host))
unfolding read_peer peer_table peer_hosts read_le slice
read_peer-peers_payload host port nodes listed = ground (
  arith,
  listed.host,
  listed.port,
  length-append (peer_table nodes) (host ++ peer_hosts nodes),
  length-append host (peer_hosts nodes),
)

pub count-peers_payload :
    (nodes : List Peer)
    → length nodes < 2 ^ 32
    → (read_le 4 0 (peers_payload nodes) ≡ ok (length nodes)) × (4 ≤ length (peers_payload nodes))
unfolding read_le slice
count-peers_payload nodes h = (ground arith, ground arith)

length-peer_table : (nodes : List Peer) → length nodes ≤ length (peer_table nodes)
unfolding peer_table
length-peer_table [] = omega arith
length-peer_table ((host, port) ∷ nodes) = omega (arith, length-peer_table nodes)

pub length-peers_payload : (nodes : List Peer) → length nodes ≤ length (peers_payload nodes)
length-peers_payload nodes =
    omega (arith, length-peer_table nodes, length-append (peer_table nodes) (peer_hosts nodes))

-- A discovery response that lists one peer is read back: the handler connects to that peer, unless
-- it is known.
pub discovery_handler-peers_payload :
    (w : World) (tx host : Bytes) (port ref : ℕ) (b : Builder) (s : State)
    → IsListed (host, port)
    → discovery_handler w MessageType.response tx (peers_payload ((host, port) ∷ [])) ref (b, s)
      ≡ (connect_unknown w (host, port) s >>= λ s'. ok (b, s'))
unfolding discovery_handler connect_peers
discovery_handler-peers_payload w tx host port ref b s listed =
    rw
      (
        long,
        (count-peers_payload ((host, port) ∷ []) (omega arith)).0,
        read_peer-peers_payload host port [] listed,
        whole,
      )
      (bind-ok (connect_unknown w (host, port) s) _)
  where
    long : ltb (length (peers_payload ((host, port) ∷ []))) 4 ≡ false
    long = ground arith

    whole : take (length host) (behind [] host) ≡ host
    whole = unfold peer_table peer_hosts in take-append host [] refl

-- What stands where the first peer's host is looked for, when a second peer is listed: its port, the
-- length of its host, the rest of the table, and then the hosts.
abbrev pub misread : Bytes → Peer → List Peer → Bytes
misread host (host₂, port₂) nodes =
    to_le 2 port₂
    ++ (to_le 2 (length host₂ % 2 ^ 16)
        ++ (peer_table nodes ++ (host ++ (host₂ ++ peer_hosts nodes))))

-- From a response that lists a second peer, the first peer is read with its port, but its host is
-- read from where the second peer's port and host length stand. It is as long as the host that was
-- sent, and another one if that does not begin with the low byte of the second port.
pub read_peer_garbles :
    (c : ℕ) (host host₂ : Bytes) (port port₂ : ℕ) (nodes : List Peer)
    → IsListed (c ∷ host, port)
    → c ≢ port₂ % 256
    → (read : Bytes) × (read ≡ take (length (c ∷ host)) (misread (c ∷ host) (host₂, port₂) nodes))
      × (read_peer 4 (peers_payload ((c ∷ host, port) ∷ (host₂, port₂) ∷ nodes))
          ≡ ok (some ((read, port), 8 + length (c ∷ host))))
      × (read ≢ c ∷ host)
unfolding peer_table peer_hosts
read_peer_garbles c host host₂ port port₂ nodes listed other = (
  take (length (c ∷ host)) (misread (c ∷ host) (host₂, port₂) nodes),
  refl,
  read_peer-peers_payload (c ∷ host) port ((host₂, port₂) ∷ nodes) listed,
  λ e. other (cc),
)
