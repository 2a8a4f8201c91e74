-- ===== src/Handlers/Discovery.antt =====
-- include/aurum/handlers/discovery.hpp.
use aurum.Base.{
  ℕ, zero, suc, ◌+◌, Bool, false, not, ◌&&◌, ◌||◌, Option, none, some, List, [], ◌∷◌, ◌==◌, ltb,
  if◌then◌else◌, length,
}
use aurum.Outcome.{Outcome, ok, ◌>>=◌}
use aurum.Bytes.{Bytes, same, slice, read_le}
use aurum.Protocol.Response
use aurum.Protocol.Response.{Peer}
use aurum.Protocol.MessageType
use aurum.Session.{Session}
use aurum.World.{World, Entry}
use aurum.State.Defs.{State}
use aurum.State.Connect.{connect}
use aurum.Handlers.Simple.{Handler}

-- The loop over the sessions of a request: the peers of the other nodes, given the node of the
-- requester and this node.
unfoldable pub collect : (ℕ → Session) → Bytes → Bytes → List Entry → List Peer
collect object requester self [] = []
collect object requester self (e ∷ es) =
    let rest = collect object requester self es in
    if not (same (object e.ref).node_id requester) && not (same (object e.ref).node_id self)
    then ((object e.ref).host, (object e.ref).port) ∷ rest
    else rest

-- One round of the loop over the received peers: the peer, and the offset behind it. `none` is the
-- `break` at the end of the payload.
unfoldable pub read_peer : ℕ → Bytes → Outcome (Option (Peer × ℕ))
read_peer offset payload = if ltb (length payload) (offset + 4) then ok none else (do
  port ← read_le 2 offset payload
  host_size ← read_le 2 (offset + 2) payload
  if ltb (length payload) (offset + 2 + 2 + host_size)
      then ok none
      else (slice (offset + 2 + 2) host_size payload >>= λ host.
          ok (some ((host, port), offset + 2 + 2 + host_size))))

-- The search for a session with that host and port.
unfoldable pub already_connected : (ℕ → Session) → Peer → List Entry → Bool
already_connected object (host, port) [] = false
already_connected object (host, port) (e ∷ es) =
    (same (object e.ref).host host && (object e.ref).port == port)
    || already_connected object (host, port) es

module _ (w : World) where
  unfoldable pub connect_unknown : Peer → State → Outcome State
  connect_unknown (host, port) s =
      if already_connected s.object (host, port) s.sessions
      then ok s
      else connect w host port false 0 s >>= (λ r. ok r.1)

  -- `for (_i = 0; _i < _nodes_count; ++_i)`.
  unfoldable pub connect_peers : ℕ → ℕ → Bytes → State → Outcome State
  connect_peers zero offset payload s = ok s
  connect_peers (suc n) offset payload s = read_peer offset payload >>= elim [
    | none ↦ ok s
    | some (peer, offset') ↦ connect_unknown peer s >>= λ s'. connect_peers n offset' payload s'
  ]

  unfoldable pub discovery_handler : Handler
  discovery_handler type tx payload ref (b, s) =
      if type == MessageType.request
      then ok (
        Response.add_discovery tx (collect s.object (s.object ref).node_id s.node_id s.sessions) b,
        s,
      )
      else if type == MessageType.response
      then (if ltb (length payload) 4 then ok (b, s) else (do
        nodes_count ← read_le 4 0 payload
        s' ← connect_peers nodes_count 4 payload s
        ok (b, s')))
      else ok (b, s)
