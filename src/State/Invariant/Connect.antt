-- ===== src/State/Invariant/Connect.antt =====
-- `state::connect` returns, and keeps the state well formed.
use aurum.Base.{ℕ, ◌+◌, ◌≤◌, refl, arith, length, Bool, true, false, length-append}
use aurum.Outcome.{Returns, returns, Ends-bind, Ends-if, ok}
use aurum.Bytes.{Bytes}
use aurum.Protocol.Builder.{Builder, fresh, push_back}
use aurum.Protocol.Request
use aurum.Protocol.Request.{endpoint, endpoint_size}
use aurum.Protocol.Frame.{payloads}
use aurum.Protocol.Frame.Layout.{Fits, get_data-Returns}
use aurum.Session.{tcp_session}
use aurum.World.{World, Dial, resolve_failed, connect_failed, connected}
use aurum.State.Defs.{State, draw, allocate, assign, post}
use aurum.State.Routing.{send}
use aurum.State.Registry.{add_session}
use aurum.State.Connect.{loopback, append_discovery, introduce, open_session, connect}
use aurum.State.Invariant.Defs.{Inv, SameSessions, SameSessions-Inv}
use aurum.State.Invariant.Objects.{allocate-Inv, add_session-Inv}

-- What `introduce` queues.
unfoldable pub introduction : (w : World) → Bool → ℕ → State → Builder × State
introduction w with_discovery connections s =
    append_discovery w with_discovery
      (Request.add_identify s.node_id connections (draw w s).1 s.configuration.tcp_port loopback
        fresh)
      (draw w s).0

length-endpoint-le : (port : ℕ) → length (endpoint port loopback) ≤ 11
length-endpoint-le port = ground arith

-- The requests that open a connection fit a frame.
pub introduction-Fits :
    (w : World) (with_discovery : Bool) (connections : ℕ) (s : State)
    → Inv s
    → Fits (introduction w with_discovery connections s).0.buffers
unfolding introduction append_discovery draw Request.add_identify Request.add_discovery push_back
    fresh payloads
introduction-Fits w false connections s v = record {
  requests = omega arith;
  payload = simp length-append (
      omega (
        arith,
        v.self,
        (w.random-IsUuid s.clock).sixteen,
        length-endpoint-le s.configuration.tcp_port,
      ));
}
introduction-Fits w true connections s v = record {
  requests = omega arith;
  payload = simp length-append (
      omega (
        arith,
        v.self,
        (w.random-IsUuid s.clock).sixteen,
        (w.random-IsUuid (s.clock + 1)).sixteen,
        length-endpoint-le s.configuration.tcp_port,
      ));
}

pub introduction-SameSessions :
    (w : World) (with_discovery : Bool) (connections : ℕ) (s : State)
    → SameSessions s (introduction w with_discovery connections s).1
unfolding introduction append_discovery draw
introduction-SameSessions w false connections s = record {
  sessions = refl;
  object = refl;
  next_ref = refl;
  node_id = refl;
}
introduction-SameSessions w true connections s = record {
  sessions = refl;
  object = refl;
  next_ref = refl;
  node_id = refl;
}

module _ (w : World) where
  introduce-Inv :
      (ref : ℕ) (with_discovery : Bool) (connections : ℕ) (s : State)
      → Inv s
      → Returns Inv (introduce w ref with_discovery connections s)
  unfolding introduce introduction post send
  introduce-Inv ref with_discovery connections s v =
      Ends-bind (get_data-Returns w.crc true _ (introduction-Fits w with_discovery connections s v))
        (λ frame h.
          let u =
            SameSessions-Inv s _ (introduction-SameSessions w with_discovery connections s) v in
          returns (record {
            unique = u.unique;
            allocated = u.allocated;
            sixteen = u.sixteen;
            self = u.self;
          }))

  open_session-Inv :
      (with_discovery : Bool) (connections : ℕ) (s : State)
      → Inv s
      → Returns (λ (r : Bool × State). Inv r.1) (open_session w with_discovery connections s)
  unfolding open_session
  open_session-Inv with_discovery connections s v =
      Ends-if
        (add_session w (allocate (tcp_session (draw w s).1) (draw w s).0).1
          (allocate (tcp_session (draw w s).1) (draw w s).0).0).0
        (λ inserted.
          Ends-bind (introduce-Inv _ with_discovery connections _ registered) (λ t h. returns h))
        (λ refused. returns registered)
    where
      drawn : Inv (draw w s).0
      drawn =
          unfold draw in
          record { unique = v.unique; allocated = v.allocated; sixteen = v.sixteen; self = v.self }

      object : Inv (allocate (tcp_session (draw w s).1) (draw w s).0).0
      object = allocate-Inv _ _ (unfold draw tcp_session in (w.random-IsUuid s.clock).sixteen) drawn

      registered :
          let (s', ref) = allocate (tcp_session (draw w s).1) (draw w s).0 in
          Inv (add_session w ref s').1
      registered = add_session-Inv w _ _ (unfold allocate assign in omega arith) object

  pub connect-Inv :
      (host : Bytes) (port : ℕ) (with_discovery : Bool) (connections : ℕ) (s : State)
      → Inv s
      → Returns (λ (r : Bool × State). Inv r.1) (connect w host port with_discovery connections s)
  unfolding connect
  connect-Inv host port with_discovery connections s v = by_dial (w.dial s.clock host port)
    where
      later : State
      later = record s { clock = s.clock + 1 }

      later-Inv : Inv later
      later-Inv = record {
        unique = v.unique;
        allocated = v.allocated;
        sixteen = v.sixteen;
        self = v.self;
      }

      by_dial :
          (d : Dial)
          → Returns
              (λ (r : Bool × State). Inv r.1)
              (elim d [
                | resolve_failed ↦ ok (false, later)
                | connect_failed ↦ ok (false, later)
                | connected ↦ open_session w with_discovery connections later
              ])
      by_dial resolve_failed = returns later-Inv
      by_dial connect_failed = returns later-Inv
      by_dial connected = open_session-Inv with_discovery connections later later-Inv
