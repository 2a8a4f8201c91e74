-- ===== src/Handlers/Replies.antt =====
-- Which messages are answered, and by what.
mod Each
pub use Each.{Answered, Replied}
use aurum.Base.{
  ℕ, ◌≤◌, ◌≡◌, refl, subst, if_cases, ◌||◌, false, true, arith, length, ltb, leb, ◌==◌,
  if◌then◌else◌, [], ◌∷◌, ◌++◌, inr, ◌⊎◌, ◌<◌, inl,
}
use aurum.Outcome.{Returns, returns, Ends-if, Ends-bind, ok}
use aurum.Bytes.{Bytes, slice-Returns, read_le-Returns}
use aurum.Protocol.Builder.{Builder, push_back}
use aurum.Protocol.MessageType
use aurum.Protocol.OpCode
use aurum.Protocol.Response
use aurum.Protocol.SessionType.{tcp, is_websocket}
use aurum.World.{World}
use aurum.State.Defs.{State}
use aurum.State.Invariant.{Inv}
use aurum.Handlers.Simple.{Handler, ping_handler, whoami_handler, non_implemented_handler}
use aurum.Handlers.Identify.{identify_handler, identify_endpoint}
use aurum.Handlers.Discovery.{discovery_handler}
use aurum.Handlers.Membership.{join_handler, leave_handler}
use aurum.Handlers.Table.{handlers}
use aurum.Handlers.Safety.Identify.{read_host-Returns}
use aurum.Handlers.Safety.Discovery.{connect_peers-Inv}
use Each.{
  IsReplying, ping_handler-IsReplying, whoami_handler-IsReplying,
  non_implemented_handler-IsReplying, discovery_handler-IsReplying, identify_handler-IsReplying,
  join_handler-IsReplying, leave_handler-IsReplying,
}

-- A response queues nothing.
abbrev IsQuiet : Handler → Type 0
IsQuiet h =
    (tx payload : Bytes) (ref : ℕ) (b : Builder) (s : State)
    → Inv s
    → Returns (λ (r : Builder × State). r.0 ≡ b) (h MessageType.response tx payload ref (b, s))

ping_handler-IsQuiet : IsQuiet ping_handler
unfolding ping_handler
ping_handler-IsQuiet tx payload ref b s v = returns refl

whoami_handler-IsQuiet : IsQuiet whoami_handler
unfolding whoami_handler
whoami_handler-IsQuiet tx payload ref b s v = returns refl

non_implemented_handler-IsQuiet : IsQuiet non_implemented_handler
unfolding non_implemented_handler
non_implemented_handler-IsQuiet tx payload ref b s v = returns refl

identify_handler-IsQuiet : IsQuiet identify_handler
unfolding identify_handler
identify_handler-IsQuiet tx payload ref b s v =
    Ends-if (is_websocket (s.object ref).type) (λ _. returns refl)
      λ _.
        Ends-if (ltb (length payload) 16) (λ _. returns refl)
          λ long. Ends-bind (slice-Returns 0 16 payload (ground arith)) (λ remote _. returns refl)

discovery_handler-IsQuiet : (w : World) → IsQuiet (discovery_handler w)
unfolding discovery_handler
discovery_handler-IsQuiet w tx payload ref b s v =
    Ends-if (ltb (length payload) 4) (λ _. returns refl)
      λ four.
        Ends-bind (read_le-Returns 4 0 payload (ground arith))
          λ count _. Ends-bind (connect_peers-Inv w count 4 payload s v) (λ s' _. returns refl)

join_handler-IsQuiet : (w : World) → IsQuiet (join_handler w)
unfolding join_handler
join_handler-IsQuiet w tx payload ref b s v =
    Ends-if (is_websocket (s.object ref).type || true) (λ _. returns refl)
      (λ e. absurd (ground arith))

leave_handler-IsQuiet : IsQuiet leave_handler
unfolding leave_handler
leave_handler-IsQuiet tx payload ref b s v =
    Ends-if (is_websocket (s.object ref).type || true) (λ _. returns refl)
      (λ e. absurd (ground arith))

-- No response is answered, whatever its opcode and payload: two nodes cannot answer one another
-- for ever.
pub handlers-response :
    (w : World) (opcode : ℕ) (tx payload : Bytes) (ref : ℕ) (b : Builder) (s : State)
    → Inv s
    → Returns
        (λ (r : Builder × State). r.0 ≡ b)
        (handlers w opcode MessageType.response tx payload ref (b, s))
unfolding handlers
handlers-response w opcode =
    if_cases IsQuiet (opcode == OpCode.ping) _ _ (λ _. ping_handler-IsQuiet)
      λ _.
        if_cases IsQuiet (opcode == OpCode.identify) _ _ (λ _. identify_handler-IsQuiet)
          λ _.
            if_cases IsQuiet (opcode == OpCode.discovery) _ _ (λ _. discovery_handler-IsQuiet w)
              λ _.
                if_cases IsQuiet (opcode == OpCode.join) _ _ (λ _. join_handler-IsQuiet w)
                  λ _.
                    if_cases IsQuiet (opcode == OpCode.leave) _ _ (λ _. leave_handler-IsQuiet)
                      λ _.
                        if_cases IsQuiet (opcode == OpCode.whoami) _ _ (λ _. whoami_handler-IsQuiet)
                          (λ _. non_implemented_handler-IsQuiet)

-- The opcode of the answer: that of the request where it has a handler, and 0 for any other.
abbrev pub answer_opcode : ℕ → ℕ
answer_opcode opcode = if leb opcode 6 then opcode else 0

-- The shortest payload that is answered: identify, join and leave requests carry a 16-byte id.
abbrev pub shortest_payload : ℕ → ℕ
shortest_payload opcode =
    if opcode == OpCode.identify || (opcode == OpCode.join || opcode == OpCode.leave) then 16 else 0

-- A request from a TCP session is answered by exactly one response, which carries its transaction
-- id, and its opcode or, where no handler is bound, 0. The only exceptions are identify, join and
-- leave requests with less than 16 bytes of payload: nothing is queued for them, and they change
-- nothing.
pub handlers-request :
    (w : World) (opcode : ℕ) (tx payload : Bytes) (ref : ℕ) (b : Builder) (s : State)
    → (s.object ref).type ≡ tcp
    → Returns
        (Replied (answer_opcode opcode) (shortest_payload opcode) tx payload (b, s))
        (handlers w opcode MessageType.request tx payload ref (b, s))
unfolding handlers
handlers-request w opcode =
    if_cases P (opcode == OpCode.ping) _ _
      (λ e.
        answers OpCode.ping 0 ping_handler (ground arith) (ground arith) ping_handler-IsReplying)
      λ n1.
        if_cases P (opcode == OpCode.identify) _ _
          (λ e.
            answers OpCode.identify 16 identify_handler (ground arith) (ground arith)
              identify_handler-IsReplying)
          λ n2.
            if_cases P (opcode == OpCode.discovery) _ _
              (λ e.
                answers OpCode.discovery 0 (discovery_handler w) (ground arith) (ground arith)
                  (discovery_handler-IsReplying w))
              λ n3.
                if_cases P (opcode == OpCode.join) _ _
                  (λ e.
                    answers OpCode.join 16 (join_handler w) (ground arith) (ground arith)
                      (join_handler-IsReplying w))
                  λ n4.
                    if_cases P (opcode == OpCode.leave) _ _
                      (λ e.
                        answers OpCode.leave 16 leave_handler (ground arith) (ground arith)
                          leave_handler-IsReplying)
                      λ n5.
                        if_cases P (opcode == OpCode.whoami) _ _
                          (λ e.
                            answers OpCode.whoami 0 whoami_handler (ground arith) (ground arith)
                              whoami_handler-IsReplying)
                          (λ n6.
                            answers OpCode.op_non_implemented 0 non_implemented_handler
                              (ground arith) (ground arith) non_implemented_handler-IsReplying)
  where
    P : Handler → Type 0
    P = IsReplying (answer_opcode opcode) (shortest_payload opcode)

    answers :
        (k n : ℕ) (h : Handler)
        → k ≡ answer_opcode opcode
        → n ≡ shortest_payload opcode
        → IsReplying k n h
        → P h
    answers k n h e e' r =
        subst (λ n'. IsReplying (answer_opcode opcode) n' h) e'
          (subst (λ k'. IsReplying k' n h) e r)
