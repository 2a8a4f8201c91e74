-- ===== src/Node/Handshake.antt =====
-- Two nodes: one has connected to the other, introduces itself, and both learn who the other is.
mod Messages
mod Effects
pub use Effects.{dials, introduced, listed_peers}
use aurum.Base.{ℕ, suc, ◌+◌, ◌-◌, ◌<◌, ◌^◌, ◌≡◌, refl, ◌++◌, length, List, All}
use aurum.Outcome.{ok, Returns-ok}
use aurum.Bytes.{Bytes}
use aurum.Protocol.Response.{peers_payload}
use aurum.Protocol.SessionType.{tcp}
use aurum.Protocol.Crc.{Crc}
use aurum.World.{World}
use aurum.Session.{set_node_id}
use aurum.State.Defs.{State, assign}
use aurum.State.Invariant.{Inv}
use aurum.State.Invariant.Objects.{assign-Inv}
use aurum.Handlers.Discovery.{connect_peers}
use aurum.Handlers.Safety.Discovery.{connect_peers-Inv}
use aurum.Kernel.RoundTrip.{Message}
use Messages.{asking, listing}

module _ (wa wb : World) (same_crc : wb.crc ≡ wa.crc) (a b connections : ℕ) (sa sb later : State)
    (ha : length sa.node_id ≡ 16) (hb : length sb.node_id ≡ 16) (tb : (sb.object b).type ≡ tcp)
    (tl : (later.object a).type ≡ tcp) (hc : connections < 2 ^ 16)
    (hp : sa.configuration.tcp_port < 2 ^ 16)
    (hs : 18 + length (peers_payload (listed_peers b connections sa sb)) < 2 ^ 16)
    (vl : Inv later) where
  abbrev tx : Bytes
  tx = wa.random sa.clock

  abbrev tx₂ : Bytes
  tx₂ = wa.random (sa.clock + 1)

  abbrev request_ : Message
  request_ = asking tx sa.node_id connections sa.configuration.tcp_port

  abbrev answer_ : Message
  answer_ = listing tx₂ (listed_peers b connections sa sb)

  met :
      (met : State) × (connect_peers wa
          (length (listed_peers b connections sa sb))
          4
          (peers_payload (listed_peers b connections sa sb))
          (assign a (set_node_id sb.node_id (later.object a)) later)
        ≡ ok met)
      × Inv met
  met = Returns-ok (
      connect_peers-Inv wa (length (listed_peers b connections sa sb)) 4
        (peers_payload (listed_peers b connections sa sb)) _
        (assign-Inv a (set_node_id sb.node_id (later.object a)) later (unfold set_node_id in refl)
          vl))
