-- ===== src/Handlers/Safety.antt =====
-- Every handler returns: it reads within its payload, whatever the message. It keeps the state well
-- formed, and appends one response at most.
pub mod Defs
pub mod Identify
pub mod Discovery
pub mod Membership
use aurum.Base.{ℕ, ◌≡◌, ◌==◌, if◌then◌else◌, if_cases}
use aurum.Outcome.{Returns}
use aurum.Bytes.{Bytes}
use aurum.Protocol.Builder.{Builder}
use aurum.Protocol.OpCode
use aurum.World.{World}
use aurum.State.Defs.{State}
use aurum.State.Invariant.{Inv}
use aurum.Handlers.Simple.{Handler, ping_handler, whoami_handler, non_implemented_handler}
use aurum.Handlers.Table.{handlers}
use Defs.{Keeps, IsSafe, ping_handler-IsSafe, whoami_handler-IsSafe, non_implemented_handler-IsSafe}
use Identify.{identify_handler-IsSafe}
use Discovery.{discovery_handler-IsSafe}
use Membership.{join_handler-IsSafe, leave_handler-IsSafe}

-- Whatever the opcode, the message type and the payload, the handler called reads nothing outside
-- the payload, throws nothing, keeps the state well formed, and queues at most one response.
pub handlers-IsSafe : (w : World) (opcode : ℕ) → IsSafe (handlers w opcode)
unfolding handlers
handlers-IsSafe w opcode =
    if_cases IsSafe (opcode == OpCode.ping) _ _ (λ _. ping_handler-IsSafe)
      λ _.
        if_cases IsSafe (opcode == OpCode.identify) _ _ (λ _. identify_handler-IsSafe)
          λ _.
            if_cases IsSafe (opcode == OpCode.discovery) _ _ (λ _. discovery_handler-IsSafe w)
              λ _.
                if_cases IsSafe (opcode == OpCode.join) _ _ (λ _. join_handler-IsSafe w)
                  λ _.
                    if_cases IsSafe (opcode == OpCode.leave) _ _ (λ _. leave_handler-IsSafe)
                      λ _.
                        if_cases IsSafe (opcode == OpCode.whoami) _ _ (λ _. whoami_handler-IsSafe)
                          (λ _. non_implemented_handler-IsSafe)
