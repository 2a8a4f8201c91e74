-- ===== src/Handlers/Introduction.antt =====
-- The identify request that `connect` sends, as the identify handler of the peer reads it.
use aurum.Base.{
  ℕ, ◌+◌, ◌<◌, ◌^◌, ◌≡◌, refl, sym, ap, ◌∙◌, true, false, [], ◌++◌, append-nil, append_assoc, arith,
  length, length-append, ltb, leb,
}
use mathlib.Core.Path.{fun_ext}
use aurum.Outcome.{ok}
use aurum.Bytes.{Bytes, to_le, from_le, slice_at, read_le_at}
use aurum.Protocol.Builder.{Builder}
use aurum.Protocol.MessageType
use aurum.Protocol.Response
use aurum.Protocol.Request.{endpoint}
use aurum.Protocol.SessionType.{tcp, is_websocket}
use aurum.Session.{Session, set_node_id, set_port, set_host}
use aurum.State.Defs.{State, assign}
use aurum.Handlers.Identify.{identify_handler, identify_endpoint, read_host, record_endpoint, spawn}

assign-assign :
    (ref : ℕ) (x y : Session) (s : State) → assign ref x (assign ref y s) ≡ assign ref x s
unfolding assign
assign-assign ref x y s = ap (λ o. record s { object = o }) (fun_ext (λ r. ground arith))

object-assign : (ref : ℕ) (x : Session) (s : State) → (assign ref x s).object ref ≡ x
unfolding assign
object-assign ref x s = ground arith

-- What an identify request carries.
abbrev pub identity : Bytes → ℕ → ℕ → Bytes → Bytes
identity node_id connections port host = node_id ++ (to_le 2 connections ++ endpoint port host)

-- A session of which the peer's node, port and host are known.
abbrev pub identified : Bytes → ℕ → Bytes → Session → Session
identified node_id port host session = set_host host (set_port port (set_node_id node_id session))

module _ (node_id : Bytes) (connections port : ℕ) (host payload : Bytes) (id : length node_id ≡ 16)
    (hc : connections < 2 ^ 16) (hp : port < 2 ^ 16) (hh : 0 < length host)
    (parts : payload ≡ node_id ++ (to_le 2 connections ++ (to_le 2 port ++ host))) where
  size : length payload ≡ 20 + length host
  size = omega (
    arith,
    ap length parts,
    length-append node_id (to_le 2 connections ++ (to_le 2 port ++ host)),
  )

  long : ltb 20 (length payload) ≡ true
  long = ground (arith, size)

  -- The payload with its port cut out, and with its host.
  around_port : payload ≡ (node_id ++ to_le 2 connections) ++ (to_le 2 port ++ host)
  around_port = parts ∙ sym (append_assoc node_id (to_le 2 connections) (to_le 2 port ++ host))

  around_host : payload ≡ (node_id ++ (to_le 2 connections ++ to_le 2 port)) ++ (host ++ [])
  around_host =
      parts
      ∙ sym (append_assoc node_id (to_le 2 connections ++ to_le 2 port) host)
      ∙ ap (λ t. (node_id ++ (to_le 2 connections ++ to_le 2 port)) ++ t) (sym (append-nil host))

  read_host-identity : read_host payload ≡ ok host
  unfolding read_host
  read_host-identity = rw long (
      slice_at payload (node_id ++ (to_le 2 connections ++ to_le 2 port)) host [] around_host
        (omega (arith, length-append node_id (to_le 2 connections ++ to_le 2 port)))
        (omega (arith, size)))

  record_endpoint-identity :
      (ref : ℕ) (s : State)
      → record_endpoint port host ref payload (assign ref (set_node_id node_id (s.object ref)) s)
        ≡ assign ref (identified node_id port host (s.object ref)) s
  unfolding record_endpoint
  record_endpoint-identity ref s =
      rw
        (
          long,
          object-assign ref _ s,
          assign-assign ref _ _ s,
          object-assign ref _ s,
          assign-assign ref _ _ s,
        )
        refl

  identify_endpoint-identity :
      (tx : Bytes) (ref : ℕ) (b : Builder) (s : State)
      → identify_endpoint tx payload ref (b, assign ref (set_node_id node_id (s.object ref)) s)
        ≡ ok (
          Response.add_identify tx s.node_id b,
          spawn connections host port (assign ref (identified node_id port host (s.object ref)) s),
        )
  unfolding identify_endpoint
  identify_endpoint-identity tx ref b s =
      rw
        (
          read_le_at payload node_id (to_le 2 connections) (to_le 2 port ++ host) {off = 16} {n = 2}
              parts id refl,
          read_le_at payload (node_id ++ to_le 2 connections) (to_le 2 port) host {off = 18} {n = 2}
              around_port (omega (arith, length-append node_id (to_le 2 connections))) refl,
          read_host-identity,
          connections_back,
          port_back,
          record_endpoint-identity ref s,
        )
        (unfold assign in refl)
    where
      connections_back : from_le (to_le 2 connections) ≡ connections
      connections_back = omega (arith, hc)

      port_back : from_le (to_le 2 port) ≡ port
      port_back = omega (arith, hp)

  handler-identity :
      (tx : Bytes) (ref : ℕ) (b : Builder) (s : State)
      → (s.object ref).type ≡ tcp
      → identify_handler MessageType.request tx payload ref (b, s)
        ≡ ok (
          Response.add_identify tx s.node_id b,
          spawn connections host port (assign ref (identified node_id port host (s.object ref)) s),
        )
  unfolding identify_handler
  handler-identity tx ref b s t =
      let enough : ltb (length payload) 16 ≡ false = ground (arith, size) in
      let full : leb 20 (length payload) ≡ true = ground (arith, size) in
      let over_tcp : is_websocket (s.object ref).type ≡ false = ground arith in
      rw
        (
          over_tcp,
          enough,
          slice_at payload [] node_id (to_le 2 connections ++ (to_le 2 port ++ host)) {off = 0}
              {n = 16} parts refl id,
          full,
        )
        (identify_endpoint-identity tx ref b s)

-- An identify request with the 16-byte node id of a peer, its connection count, its port and its
-- host, which is not empty, is answered with this node's id; the session gets the peer's node id,
-- port and host, and connections to it are posted where more than one is asked for.
pub identify_handler-identity :
    (node_id : Bytes) (connections port : ℕ) (host tx : Bytes) (ref : ℕ) (b : Builder) (s : State)
    → length node_id ≡ 16
    → connections < 2 ^ 16
    → port < 2 ^ 16
    → 0 < length host
    → (s.object ref).type ≡ tcp
    → identify_handler MessageType.request tx (identity node_id connections port host) ref (b, s)
      ≡ ok (
        Response.add_identify tx s.node_id b,
        spawn connections host port (assign ref (identified node_id port host (s.object ref)) s),
      )
identify_handler-identity node_id connections port host tx ref b s id hc hp hh t =
    handler-identity node_id connections port host _ id hc hp hh
      (ap (λ t. node_id ++ (to_le 2 connections ++ t)) endpoint_full) tx ref b s t
  where
    endpoint_full : endpoint port host ≡ to_le 2 port ++ host
    endpoint_full = ground arith
