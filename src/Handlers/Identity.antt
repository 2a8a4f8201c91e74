-- ===== src/Handlers/Identity.antt =====
-- What the identify handler learns about the peer of a session, and what that does to the indices
-- of the session container.
use aurum.Base.{
  ℕ, ◌≤◌, ◌≡◌, ◌≢◌, ◌∙◌, subst, ◌&&◌, List, [], ◌∷◌, ◌++◌, arith, All, take, length, ltb, leb, ◌==◌,
  map,
}
use aurum.Outcome.{Returns, returns, Ends-if, Ends-bind, Ends-mono}
use aurum.Bytes.{Bytes, slice_ok, read_le-Returns}
use aurum.Protocol.Builder.{Builder}
use aurum.Protocol.MessageType
use aurum.Protocol.SessionType.{tcp, is_websocket}
use aurum.Session.{set_node_id, set_port, set_host}
use aurum.World.{IsFiled, Entry}
use aurum.State.Defs.{State, assign, keyed}
use aurum.Handlers.Identify.{identify_handler, identify_endpoint, record_endpoint, spawn}
use aurum.Handlers.Safety.Identify.{read_host-Returns}

-- The session has the node id, and the registered sessions are the same.
abbrev Learned : Bytes → ℕ → State → State → Type 0
Learned node_id ref s t = ((t.object ref).node_id ≡ node_id) × (t.sessions ≡ s.sessions)

spawn-Learned :
    (node_id : Bytes) (ref : ℕ) (s t : State) (connections : ℕ) (host : Bytes) (port : ℕ)
    → Learned node_id ref s t
    → Learned node_id ref s (spawn connections host port t)
unfolding spawn
spawn-Learned node_id ref s t connections host port h = ground arith

record_endpoint-Learned :
    (node_id : Bytes) (ref : ℕ) (s t : State) (port : ℕ) (host payload : Bytes)
    → Learned node_id ref s t
    → Learned node_id ref s (record_endpoint port host ref payload t)
unfolding record_endpoint assign set_port set_host
record_endpoint-Learned node_id ref s t port host payload h = ground arith

-- An identify message, request or response, from a TCP session with at least 16 bytes of payload
-- gives the session the node id in the payload, and leaves the container as it is.
pub identify_handler-node_id :
    (type : ℕ) (tx payload : Bytes) (ref : ℕ) (b : Builder) (s : State)
    → (s.object ref).type ≡ tcp
    → 16 ≤ length payload
    → Returns
        (λ (r : Builder × State).
          ((r.1.object ref).node_id ≡ take 16 payload) × (r.1.sessions ≡ s.sessions))
        (identify_handler type tx payload ref (b, s))
unfolding identify_handler identify_endpoint
identify_handler-node_id type tx payload ref b s t long =
    Ends-if (is_websocket (s.object ref).type) (λ e. absurd (ground arith))
      λ _.
        Ends-if (ltb (length payload) 16) (λ short. absurd (ground arith))
          λ _. rw (slice_ok 0 16 payload long) (
            Ends-if (type == MessageType.request && leb 20 (length payload))
              (λ full. Ends-bind (read_le-Returns 2 16 payload (ground arith)) λ connections _.
                Ends-bind (read_le-Returns 2 18 payload (ground arith)) λ port _.
                  Ends-bind (read_host-Returns payload) (λ host _. returns (
                    spawn-Learned _ ref s _ connections host port
                      (record_endpoint-Learned _ ref s _ port host payload assigned))))
              (λ _.
                Ends-if (type == MessageType.request && leb 16 (length payload))
                  (λ _. returns assigned) (λ _. returns assigned)))
  where
    assigned :
        Learned
          (take 16 payload)
          ref
          s
          (assign ref (set_node_id (take 16 payload) (s.object ref)) s)
    assigned = unfold assign set_node_id in ground arith

All-middle :
    (P : Entry → Type 0) (xs : List Entry) {x : Entry} (ys : List Entry)
    → All P (xs ++ (x ∷ ys))
    → P x
All-middle P [] ys h = h.0
All-middle P (_ ∷ xs) ys h = All-middle P xs ys h.1

-- What `IsFiled` says of an element.
filed_entries :
    (s : State) (es : List Entry)
    → All IsFiled (
        map
          (λ e. record {
            entry = e;
            node_id = (s.object e.ref).node_id;
            type = (s.object e.ref).type;
          })
          es)
    → All (λ (e : Entry). e.filed ≡ (s.object e.ref).node_id) es
filed_entries s [] h = tt
filed_entries s (e ∷ es) h = (h.0, filed_entries s es h.1)

-- If a registered TCP session sends an identify message with at least 16 bytes of payload, and was
-- inserted under another node id than the one in the payload, then afterwards the container does not
-- hold every session under the node id that it has: the indices by node id are stale.
pub identify_handler-stale :
    (type : ℕ) (tx payload : Bytes) (e : Entry) (before after : List Entry) (b : Builder)
    (s : State)
    → (s.object e.ref).type ≡ tcp
    → 16 ≤ length payload
    → s.sessions ≡ before ++ (e ∷ after)
    → e.filed ≢ take 16 payload
    → Returns
        (λ (r : Builder × State). ¬ All IsFiled (keyed r.1))
        (identify_handler type tx payload e.ref (b, s))
identify_handler-stale type tx payload e before after b s t long at ne =
    Ends-mono
      (λ r h filed. ne (
        All-middle (λ x. x.filed ≡ (r.1.object x.ref).node_id) before after
          (subst (All (λ (x : Entry). x.filed ≡ (r.1.object x.ref).node_id)) (h.1 ∙ at)
            (filed_entries r.1 r.1.sessions filed))
        ∙ h.0))
      (identify_handler-node_id type tx payload e.ref b s t long)
