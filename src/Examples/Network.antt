-- ===== src/Examples/Network.antt =====
-- The theorems about sending, connecting and identification, at concrete inputs.
use aurum.Base.{
  ◌≡◌, ◌≢◌, ◌⊎◌, refl, [], ◌∷◌, ◌++◌, ℕ, List, Bool, map, All, take, arith, true, false,
  if◌then◌else◌,
}
use aurum.Outcome.{Returns}
use aurum.Protocol.Builder.{Builder, fresh}
use aurum.Protocol.SessionType.{is_tcp}
use aurum.World.{IsFiled}
use aurum.State.Defs.{State, keyed, write}
use aurum.State.Routing.{broadcast_to_nodes}
use aurum.State.Connect.{connect}
use aurum.State.Sending.{has_tcp, targets_of, broadcast_to_nodes-once}
use aurum.State.Opening.{Opened, connect-Connected}
use aurum.Handlers.Identify.{identify_handler}
use aurum.Handlers.Identity.{identify_handler-stale}
use aurum.Examples.Setting.{world, state, id_of, peer, self, state-Inv}

broadcast_to_nodes-once_example :
    (rs : List ℕ) × ((broadcast_to_nodes (1 ∷ []) state).posted
      ≡ [] ++ map (λ r. write r (1 ∷ [])) rs)
    × All (λ (r : ℕ). is_tcp (state.object r).type ≡ true) rs
    × (targets_of state.object peer rs
        ≡ (if has_tcp state.object peer state.sessions then 1 else 0))
broadcast_to_nodes-once_example = broadcast_to_nodes-once (1 ∷ []) state peer

connect-Connected_example :
    Returns
      (λ (r : Bool × State).
        ((r.0 ≡ true) × Opened state r.1)
        ⊎ ((r.0 ≡ false) × (r.1.sessions ≡ state.sessions) × (r.1.posted ≡ [])))
      (connect world (b'n' ∷ []) 8080 true 1 state)
connect-Connected_example = connect-Connected world (b'n' ∷ []) 8080 true 1 state state-Inv

peer_not_self : peer ≢ take 16 self
peer_not_self = cc

-- TCP session 0, filed under the node id of the peer, says that it is another node.
identify_handler-stale_example :
    Returns
      (λ (r : Builder × State). ¬ All IsFiled (keyed r.1))
      (identify_handler 1 (id_of 5) self 0 (fresh, state))
identify_handler-stale_example =
    identify_handler-stale 1 (id_of 5) self (record { ref = 0; filed = peer }) []
      (record { ref = 1; filed = peer } ∷ record { ref = 2; filed = self } ∷ []) fresh state refl
      (omega arith) refl peer_not_self
