-- ===== src/Handlers/Replies/Each.antt =====
-- What each handler does on a request over TCP.
use aurum.Base.{
  ℕ, ◌≤◌, ◌≡◌, refl, ◌||◌, false, arith, length, ltb, leb, [], ◌∷◌, ◌++◌, inr, ◌⊎◌, ◌<◌, inl,
}
use aurum.Outcome.{Returns, returns, Ends-if, Ends-bind, ok}
use aurum.Bytes.{Bytes, slice-Returns, read_le-Returns}
use aurum.Protocol.Builder.{Builder, push_back}
use aurum.Protocol.MessageType
use aurum.Protocol.OpCode
use aurum.Protocol.Response
use aurum.Protocol.SessionType.{tcp, is_websocket}
use aurum.World.{World}
use aurum.State.Defs.{State}
use aurum.Handlers.Simple.{Handler, ping_handler, whoami_handler, non_implemented_handler}
use aurum.Handlers.Identify.{identify_handler, identify_endpoint}
use aurum.Handlers.Discovery.{discovery_handler}
use aurum.Handlers.Membership.{join_handler, leave_handler}
use aurum.Handlers.Safety.Identify.{read_host-Returns}

-- One response is queued behind the others: the opcode, the type of a response, the transaction id
-- of the request, and more.
abbrev pub Answered : ℕ → Bytes → Builder → Builder × State → Type 0
Answered opcode tx b r =
    (rest : Bytes) × (r.0.buffers
      ≡ b.buffers ++ ((opcode ∷ MessageType.response ∷ (tx ++ rest)) ∷ []))

-- A payload of `shortest` bytes or more is answered; on a shorter one nothing is done.
abbrev pub Replied : ℕ → ℕ → Bytes → Bytes → Builder × State → Builder × State → Type 0
Replied opcode shortest tx payload (b, s) r =
    ((shortest ≤ length payload) × Answered opcode tx b r)
    ⊎ ((length payload < shortest) × (r ≡ (b, s)))

abbrev pub IsReplying : ℕ → ℕ → Handler → Type 0
IsReplying opcode shortest h =
    (tx payload : Bytes) (ref : ℕ) (b : Builder) (s : State)
    → (s.object ref).type ≡ tcp
    → Returns (Replied opcode shortest tx payload (b, s))
        (h MessageType.request tx payload ref (b, s))

-- An answer to any payload.
answered :
    (opcode : ℕ) (tx payload : Bytes) (b : Builder) (s : State) (r : Builder × State)
    → Answered opcode tx b r
    → Returns (Replied opcode 0 tx payload (b, s)) (ok r)
answered opcode tx payload b s r a = returns (inl (omega arith, a))

pub ping_handler-IsReplying : IsReplying OpCode.ping 0 ping_handler
unfolding ping_handler Response.add_ping push_back
ping_handler-IsReplying tx payload ref b s t = answered OpCode.ping tx payload b s _ (_, refl)

pub whoami_handler-IsReplying : IsReplying OpCode.whoami 0 whoami_handler
unfolding whoami_handler Response.add_whoami push_back
whoami_handler-IsReplying tx payload ref b s t = answered OpCode.whoami tx payload b s _ (_, refl)

pub non_implemented_handler-IsReplying :
    IsReplying OpCode.op_non_implemented 0 non_implemented_handler
unfolding non_implemented_handler Response.add_non_implemented push_back
non_implemented_handler-IsReplying tx payload ref b s t =
    answered OpCode.op_non_implemented tx payload b s _ (_, refl)

pub discovery_handler-IsReplying : (w : World) → IsReplying OpCode.discovery 0 (discovery_handler w)
unfolding discovery_handler Response.add_discovery push_back
discovery_handler-IsReplying w tx payload ref b s t =
    answered OpCode.discovery tx payload b s _ (_, refl)

pub identify_handler-IsReplying : IsReplying OpCode.identify 16 identify_handler
unfolding identify_handler identify_endpoint Response.add_identify push_back
identify_handler-IsReplying tx payload ref b s t =
    Ends-if (is_websocket (s.object ref).type) (λ w. absurd (ground arith))
      λ _.
        Ends-if (ltb (length payload) 16) (λ short. returns (inr (ground arith, refl)))
          λ long.
            let h : 16 ≤ length payload = ground arith in
            Ends-bind (slice-Returns 0 16 payload h) λ remote _.
              Ends-if (leb 20 (length payload))
                (λ full. Ends-bind (read_le-Returns 2 16 payload (ground arith)) λ connections _.
                  Ends-bind (read_le-Returns 2 18 payload (ground arith)) λ port _.
                    Ends-bind (read_host-Returns payload) (λ host _. returns (inl (h, (_, refl)))))
                λ _.
                  Ends-if (leb 16 (length payload)) (λ _. returns (inl (h, (_, refl))))
                    (λ short. absurd (ground arith))

pub join_handler-IsReplying : (w : World) → IsReplying OpCode.join 16 (join_handler w)
unfolding join_handler Response.add_join push_back
join_handler-IsReplying w tx payload ref b s t =
    Ends-if (is_websocket (s.object ref).type || false) (λ e. absurd (ground arith))
      λ _.
        Ends-if (ltb (length payload) 16) (λ short. returns (inr (ground arith, refl)))
          λ long.
            let h : 16 ≤ length payload = ground arith in
            Ends-bind (slice-Returns 0 16 payload h) (λ id _. returns (inl (h, (_, refl))))

pub leave_handler-IsReplying : IsReplying OpCode.leave 16 leave_handler
unfolding leave_handler Response.add_leave push_back
leave_handler-IsReplying tx payload ref b s t =
    Ends-if (is_websocket (s.object ref).type || false) (λ e. absurd (ground arith))
      λ _.
        Ends-if (ltb (length payload) 16) (λ short. returns (inr (ground arith, refl)))
          λ long.
            let h : 16 ≤ length payload = ground arith in
            Ends-bind (slice-Returns 0 16 payload h) (λ id _. returns (inl (h, (_, refl))))
