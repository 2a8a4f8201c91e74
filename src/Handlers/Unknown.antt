-- ===== src/Handlers/Unknown.antt =====
-- The handlers on message types that are neither a request nor a response.
use aurum.Base.{
  subst, if_cases, ℕ, ◌≤◌, ◌≡◌, refl, false, ◌||◌, arith, length, ltb, ◌==◌, if◌then◌else◌,
}
use aurum.Outcome.{Returns, returns, Ends-if, Ends-mono, Ends-bind}
use aurum.Bytes.{Bytes, slice-Returns}
use aurum.Protocol.Builder.{Builder, push_back}
use aurum.Protocol.OpCode
use aurum.Protocol.MessageType
use aurum.Protocol.Response
use aurum.Protocol.SessionType.{is_websocket, tcp}
use aurum.World.{World}
use aurum.State.Defs.{State}
use aurum.Handlers.Simple.{Handler, ping_handler, whoami_handler, non_implemented_handler}
use aurum.Handlers.Identify.{identify_handler}
use aurum.Handlers.Discovery.{discovery_handler}
use aurum.Handlers.Membership.{leave_handler, join_handler}
use aurum.Handlers.Table.{handlers}
use aurum.Handlers.Replies.{Answered, answer_opcode}

-- Identification and discovery leave such a message unanswered, the other handlers answer it.
abbrev pub Reaction : ℕ → Bytes → Builder → Builder × State → Type 0
Reaction opcode tx b r =
    if opcode == OpCode.identify || opcode == OpCode.discovery
    then r.0 ≡ b
    else Answered (answer_opcode opcode) tx b r

module _ (type : ℕ) (no_request : (type == MessageType.request) ≡ false)
    (no_response : (type == MessageType.response) ≡ false) where
  abbrev Reacts : (Bytes → Builder → Builder × State → Type 0) → Handler → Type 0
  Reacts P h =
      (tx payload : Bytes) (ref : ℕ) (b : Builder) (s : State)
      → (s.object ref).type ≡ tcp
      → 16 ≤ length payload
      → Returns (P tx b) (h type tx payload ref (b, s))

  ping_handler-Reacts : Reacts (Answered OpCode.ping) ping_handler
  unfolding ping_handler Response.add_ping push_back
  ping_handler-Reacts tx payload ref b s t h = rw no_response (returns (_, refl))

  whoami_handler-Reacts : Reacts (Answered OpCode.whoami) whoami_handler
  unfolding whoami_handler Response.add_whoami push_back
  whoami_handler-Reacts tx payload ref b s t h = rw no_response (returns (_, refl))

  non_implemented_handler-Reacts :
      Reacts (Answered OpCode.op_non_implemented) non_implemented_handler
  unfolding non_implemented_handler Response.add_non_implemented push_back
  non_implemented_handler-Reacts tx payload ref b s t h = rw no_response (returns (_, refl))

  discovery_handler-Reacts : (w : World) → Reacts (λ tx b r. r.0 ≡ b) (discovery_handler w)
  unfolding discovery_handler
  discovery_handler-Reacts w tx payload ref b s t h = rw (no_request, no_response) (returns refl)

  identify_handler-Reacts : Reacts (λ tx b r. r.0 ≡ b) identify_handler
  unfolding identify_handler
  identify_handler-Reacts tx payload ref b s t h = rw no_request (
      Ends-if (is_websocket (s.object ref).type) (λ _. returns refl)
        λ _.
          Ends-if (ltb (length payload) 16) (λ _. returns refl)
            (λ long. Ends-bind (slice-Returns 0 16 payload h) (λ remote _. returns refl)))

  join_handler-Reacts : (w : World) → Reacts (Answered OpCode.join) (join_handler w)
  unfolding join_handler Response.add_join push_back
  join_handler-Reacts w tx payload ref b s t h = rw no_response (
      Ends-if (is_websocket (s.object ref).type || false) (λ e. absurd (ground arith))
        λ _.
          Ends-if (ltb (length payload) 16) (λ short. absurd (ground arith))
            (λ long. Ends-bind (slice-Returns 0 16 payload h) (λ id _. returns (_, refl))))

  leave_handler-Reacts : Reacts (Answered OpCode.leave) leave_handler
  unfolding leave_handler Response.add_leave push_back
  leave_handler-Reacts tx payload ref b s t h = rw no_response (
      Ends-if (is_websocket (s.object ref).type || false) (λ e. absurd (ground arith))
        λ _.
          Ends-if (ltb (length payload) 16) (λ short. absurd (ground arith))
            (λ long. Ends-bind (slice-Returns 0 16 payload h) (λ id _. returns (_, refl))))

-- A message from a TCP session whose type is neither that of a request nor that of a response, with
-- at least 16 bytes of payload, is answered like a request, by exactly one response with its
-- transaction id. Only identification and discovery leave it unanswered.
pub handlers-unknown_type :
    (w : World) (opcode type : ℕ) (tx payload : Bytes) (ref : ℕ) (b : Builder) (s : State)
    → 2 ≤ type
    → (s.object ref).type ≡ tcp
    → 16 ≤ length payload
    → Returns (Reaction opcode tx b) (handlers w opcode type tx payload ref (b, s))
unfolding handlers
handlers-unknown_type w opcode type tx payload ref b s unknown =
    (if_cases P (opcode == OpCode.ping) _ _
        (λ e. same_as OpCode.ping (ground arith) ping_handler (ping_handler-Reacts type n0 n1))
        λ m1.
          if_cases P (opcode == OpCode.identify) _ _
            (λ e.
              same_as OpCode.identify (ground arith) identify_handler
                (identify_handler-Reacts type n0 n1))
            λ m2.
              if_cases P (opcode == OpCode.discovery) _ _
                (λ e.
                  same_as OpCode.discovery (ground arith) (discovery_handler w)
                    (discovery_handler-Reacts type n0 n1 w))
                λ m3.
                  if_cases P (opcode == OpCode.join) _ _
                    (λ e.
                      same_as OpCode.join (ground arith) (join_handler w)
                        (join_handler-Reacts type n0 n1 w))
                    λ m4.
                      if_cases P (opcode == OpCode.leave) _ _
                        (λ e.
                          same_as OpCode.leave (ground arith) leave_handler
                            (leave_handler-Reacts type n0 n1))
                        λ m5.
                          if_cases P (opcode == OpCode.whoami) _ _
                            (λ e.
                              same_as OpCode.whoami (ground arith) whoami_handler
                                (whoami_handler-Reacts type n0 n1))
                            λ m6.
                              let answered : (opcode == OpCode.identify
                                    || opcode == OpCode.discovery)
                                  ≡ false =
                                ground arith in
                              let none_bound : answer_opcode opcode ≡ OpCode.op_non_implemented =
                                ground arith in
                              λ tx' payload' ref' b' s' t h.
                                Ends-mono (λ r k. rw (answered, none_bound) k)
                                  (non_implemented_handler-Reacts type n0 n1 tx' payload' ref' b' s'
                                    t h))
      tx payload ref b s
  where
    n0 : (type == MessageType.request) ≡ false
    n0 = ground arith

    n1 : (type == MessageType.response) ≡ false
    n1 = ground arith

    P : Handler → Type 0
    P = Reacts type n0 n1 (Reaction opcode)

    same_as : (k : ℕ) → k ≡ opcode → (h : Handler) → Reacts type n0 n1 (Reaction k) h → P h
    same_as k e h = subst (λ k'. Reacts type n0 n1 (Reaction k') h) e
