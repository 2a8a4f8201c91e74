-- ===== src/Handlers/Safety/Identify.antt =====
-- The identify handler.
use aurum.Base.{ℕ, ◌-◌, ◌≤◌, refl, not, ◌&&◌, arith, length, ltb, leb, ◌==◌, if_cases}
use aurum.Outcome.{Returns, returns, Ends-if, Ends-bind, Ends-mono}
use aurum.Bytes.{Bytes, slice-Returns, read_le-Returns}
use aurum.Protocol.Builder.{Builder}
use aurum.Protocol.MessageType
use aurum.Protocol.SessionType.{is_websocket}
use aurum.Protocol.Response
use aurum.Session.{set_node_id, set_port, set_host}
use aurum.State.Defs.{State, assign}
use aurum.State.Invariant.{Inv}
use aurum.State.Invariant.Objects.{assign-Inv}
use aurum.Handlers.Identify.{read_host, record_endpoint, spawn, identify_endpoint, identify_handler}
use aurum.Handlers.Safety.Defs.{IsSafe, Keeps, Keeps-same, Keeps-push_back}

spawn-Inv : (n : ℕ) (host : Bytes) (port : ℕ) (s : State) → Inv s → Inv (spawn n host port s)
unfolding spawn
spawn-Inv n host port s v =
    if_cases Inv (ltb 1 n && (not (length host == 0) && not (port == 0))) _ _
      (λ _. record {
        unique = v.unique;
        allocated = v.allocated;
        sixteen = v.sixteen;
        self = v.self;
      })
      (λ _. v)

record_endpoint-Inv :
    (port : ℕ) (host : Bytes) (ref : ℕ) (payload : Bytes) (s : State)
    → Inv s
    → Inv (record_endpoint port host ref payload s)
unfolding record_endpoint set_host set_port
record_endpoint-Inv port host ref payload s v =
    if_cases Inv (ltb 20 (length payload)) _ _ (λ _. assign-Inv ref _ _ refl ported) (λ _. ported)
  where
    ported : Inv (assign ref (set_port port (s.object ref)) s)
    ported = assign-Inv ref _ s refl v

pub read_host-Returns : (payload : Bytes) → Returns (λ (h : Bytes). Unit {0}) (read_host payload)
unfolding read_host
read_host-Returns payload =
    Ends-if (ltb 20 (length payload))
      (λ long.
        Ends-mono (λ h e. tt) (slice-Returns 20 (length payload - 20) payload (ground arith)))
      (λ _. returns tt)

identify_endpoint-Keeps :
    (tx payload : Bytes) (ref : ℕ) (b : Builder) (s : State)
    → 20 ≤ length payload
    → Inv s
    → Returns (Keeps (length b.buffers)) (identify_endpoint tx payload ref (b, s))
unfolding identify_endpoint Response.add_identify
identify_endpoint-Keeps tx payload ref b s h v =
    Ends-bind (read_le-Returns 2 16 payload (omega arith)) λ connections _.
      Ends-bind (read_le-Returns 2 18 payload (omega arith)) λ port _.
        Ends-bind (read_host-Returns payload) λ host _. returns (
          Keeps-push_back _ _ b _
            (spawn-Inv connections host port _ (record_endpoint-Inv port host ref payload s v)))

pub identify_handler-IsSafe : IsSafe identify_handler
unfolding identify_handler Response.add_identify set_node_id
identify_handler-IsSafe type tx payload ref b s v =
    Ends-if (is_websocket (s.object ref).type) (λ _. returns (Keeps-same b s v))
      λ _.
        Ends-if (ltb (length payload) 16) (λ _. returns (Keeps-same b s v))
          λ long. Ends-bind (slice-Returns 0 16 payload (ground arith)) λ remote _.
            let named = assign-Inv ref (set_node_id remote (s.object ref)) s refl v in
            Ends-if (type == MessageType.request && leb 20 (length payload))
              (λ full. identify_endpoint-Keeps tx payload ref b _ (ground arith) named)
              λ _.
                Ends-if (type == MessageType.request && leb 16 (length payload))
                  (λ _. returns (Keeps-push_back _ _ b _ named))
                  (λ _. returns (Keeps-same b _ named))
