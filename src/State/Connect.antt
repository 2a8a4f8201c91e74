-- ===== src/State/Connect.antt =====
-- `state::connect`.
use aurum.Base.{ℕ, ◌+◌, Bool, true, false, [], ◌∷◌, if◌then◌else◌}
use aurum.Outcome.{Outcome, ok, ◌>>=◌}
use aurum.Bytes.{Bytes}
use aurum.Protocol.Builder.{Builder, fresh}
use aurum.Protocol.Request
use aurum.Protocol.Frame.{get_data}
use aurum.Session.{tcp_session}
use aurum.World.{World, resolve_failed, connect_failed, connected}
use aurum.State.Defs.{State, start, draw, allocate, post}
use aurum.State.Routing.{send}
use aurum.State.Registry.{add_session}

-- "127.0.0.1".
abbrev pub loopback : Bytes
loopback = b'1' ∷ b'2' ∷ b'7' ∷ b'.' ∷ b'0' ∷ b'.' ∷ b'0' ∷ b'.' ∷ b'1' ∷ []

module _ (w : World) where
  -- The discovery request that may follow the identify request.
  unfoldable pub append_discovery : Bool → Builder → State → Builder × State
  append_discovery false b s = (b, s)
  append_discovery true b s = let (s', id) = draw w s in (Request.add_discovery id b, s')

  -- The requests that open an outbound connection, sent to the session; then its start.
  unfoldable pub introduce : ℕ → Bool → ℕ → State → Outcome State
  introduce ref with_discovery connections_per_node s = do
    let (s₁, id) = draw w s
    let identify =
        Request.add_identify s.node_id connections_per_node id s.configuration.tcp_port loopback
          fresh
    let (b, s₂) = append_discovery with_discovery identify s₁
    frame ← get_data w.crc true b
    ok (post (start ref) (send ref frame s₂))

  -- The session on the connected socket, if it can be registered.
  unfoldable pub open_session : Bool → ℕ → State → Outcome (Bool × State)
  open_session with_discovery connections_per_node s =
      let (s₁, id) = draw w s in
      let (s₂, ref) = allocate (tcp_session id) s₁ in
      let (inserted, s₃) = add_session w ref s₂ in
      if inserted
      then introduce ref with_discovery connections_per_node s₃ >>= (λ s₄. ok (true, s₄))
      else ok (false, s₃)

  unfoldable pub connect : Bytes → ℕ → Bool → ℕ → State → Outcome (Bool × State)
  connect host port with_discovery connections_per_node s =
      let s' = record s { clock = s.clock + 1 } in
      elim (w.dial s.clock host port) [
        | resolve_failed ↦ ok (false, s')
        | connect_failed ↦ ok (false, s')
        | connected ↦ open_session with_discovery connections_per_node s'
      ]
