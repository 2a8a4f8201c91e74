-- ===== src/Handlers/Safety/Defs.antt =====
-- What a handler promises, and the handlers that only answer.
use aurum.Base.{ℕ, ◌+◌, ◌≤◌, [], ◌∷◌, arith, length, length-append, ◌==◌}
use aurum.Outcome.{Returns, returns, Ends-if}
use aurum.Bytes.{Bytes}
use aurum.Protocol.Builder.{Builder, push_back}
use aurum.Protocol.MessageType
use aurum.Protocol.Response
use aurum.State.Defs.{State}
use aurum.State.Invariant.{Inv}
use aurum.Handlers.Simple.{Handler, ping_handler, whoami_handler, non_implemented_handler}

-- A well-formed state, and at most one response more than `n`.
pub record Keeps (n : ℕ) (r : Builder × State) : Type 0 where
  pub inv : Inv r.1
  pub responses : length r.0.buffers ≤ n + 1

abbrev pub IsSafe : Handler → Type 0
IsSafe h =
    (type : ℕ) (tx payload : Bytes) (ref : ℕ) (b : Builder) (s : State)
    → Inv s
    → Returns (Keeps (length b.buffers)) (h type tx payload ref (b, s))

pub Keeps-same : (b : Builder) (s : State) → Inv s → Keeps (length b.buffers) (b, s)
Keeps-same b s v = record { inv = v; responses = omega arith }

pub Keeps-push_back :
    (buffer : Bytes) (size : ℕ) (b : Builder) (s : State)
    → Inv s
    → Keeps (length b.buffers) (push_back buffer size b, s)
unfolding push_back
Keeps-push_back buffer size b s v = record {
  inv = v;
  responses = omega (arith, length-append b.buffers (buffer ∷ []));
}

pub ping_handler-IsSafe : IsSafe ping_handler
unfolding ping_handler Response.add_ping
ping_handler-IsSafe type tx payload ref b s v =
    Ends-if (type == MessageType.response) (λ _. returns (Keeps-same b s v))
      (λ _. returns (Keeps-push_back _ _ b s v))

pub whoami_handler-IsSafe : IsSafe whoami_handler
unfolding whoami_handler Response.add_whoami
whoami_handler-IsSafe type tx payload ref b s v =
    Ends-if (type == MessageType.response) (λ _. returns (Keeps-same b s v))
      (λ _. returns (Keeps-push_back _ _ b s v))

pub non_implemented_handler-IsSafe : IsSafe non_implemented_handler
unfolding non_implemented_handler Response.add_non_implemented
non_implemented_handler-IsSafe type tx payload ref b s v =
    Ends-if (type == MessageType.response) (λ _. returns (Keeps-same b s v))
      (λ _. returns (Keeps-push_back _ _ b s v))
