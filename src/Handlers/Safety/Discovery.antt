-- ===== src/Handlers/Safety/Discovery.antt =====
-- The discovery handler.
use aurum.Base.{ℕ, zero, suc, ◌+◌, none, some, Option, arith, length, ltb, ◌==◌}
use aurum.Outcome.{Returns, returns, Ends-if, Ends-bind}
use aurum.Bytes.{Bytes, slice-Returns, read_le-Returns}
use aurum.Protocol.MessageType
use aurum.Protocol.Response
use aurum.Protocol.Response.{Peer}
use aurum.World.{World}
use aurum.State.Defs.{State}
use aurum.State.Invariant.{Inv}
use aurum.State.Invariant.Connect.{connect-Inv}
use aurum.Handlers.Discovery.{
  read_peer, already_connected, connect_unknown, connect_peers, discovery_handler,
}
use aurum.Handlers.Safety.Defs.{IsSafe, Keeps-same, Keeps-push_back}

pub read_peer-Returns :
    (offset : ℕ) (payload : Bytes)
    → Returns (λ (r : Option (Peer × ℕ)). Unit {0}) (read_peer offset payload)
unfolding read_peer
read_peer-Returns offset payload =
    Ends-if (ltb (length payload) (offset + 4)) (λ _. returns tt)
      λ four. Ends-bind (read_le-Returns 2 offset payload (ground arith)) λ port _.
        Ends-bind (read_le-Returns 2 (offset + 2) payload (ground arith)) λ size _.
          Ends-if (ltb (length payload) (offset + 2 + 2 + size)) (λ _. returns tt)
            λ room.
              Ends-bind (slice-Returns (offset + 2 + 2) size payload (ground arith))
                λ host _. returns tt

module _ (w : World) where
  connect_unknown-Inv : (peer : Peer) (s : State) → Inv s → Returns Inv (connect_unknown w peer s)
  unfolding connect_unknown
  connect_unknown-Inv (host, port) s v =
      Ends-if (already_connected s.object (host, port) s.sessions) (λ _. returns v)
        λ _. Ends-bind (connect-Inv w host port _ _ s v) (λ r h. returns h)

  pub connect_peers-Inv :
      (n offset : ℕ) (payload : Bytes) (s : State)
      → Inv s
      → Returns Inv (connect_peers w n offset payload s)
  unfolding connect_peers
  connect_peers-Inv zero offset payload s v = returns v
  connect_peers-Inv (suc n) offset payload s v =
      Ends-bind (read_peer-Returns offset payload) (elim [
        | none ↦ λ _. returns v
        | some (peer, offset') ↦ λ _.
            Ends-bind (connect_unknown-Inv peer s v)
              (λ s' h. connect_peers-Inv n offset' payload s' h)
      ])

  pub discovery_handler-IsSafe : IsSafe (discovery_handler w)
  unfolding discovery_handler Response.add_discovery
  discovery_handler-IsSafe type tx payload ref b s v =
      Ends-if (type == MessageType.request) (λ _. returns (Keeps-push_back _ _ b s v))
        λ _.
          Ends-if (type == MessageType.response)
            (λ _.
              Ends-if (ltb (length payload) 4) (λ _. returns (Keeps-same b s v))
                λ four. Ends-bind (read_le-Returns 4 0 payload (ground arith)) λ count _.
                  Ends-bind (connect_peers-Inv count 4 payload s v)
                    (λ s' h. returns (Keeps-same b s' h)))
            (λ _. returns (Keeps-same b s v))
