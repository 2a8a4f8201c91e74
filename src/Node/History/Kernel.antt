-- ===== src/Node/History/Kernel.antt =====
-- `Evolves` for the kernel.
use aurum.Base.{ℕ, ◌+◌, ◌-◌, ◌*◌, not, Option, none, some, List, [], ◌∷◌, length, ltb, ◌==◌}
use aurum.Outcome.{returns, Ends-if, Ends-bind}
use aurum.Bytes.{Bytes, slice, read_le, byte_at}
use aurum.Protocol.Builder.{Builder, fresh}
use aurum.Protocol.Frame.{get_buffers}
use aurum.World.{World}
use aurum.State.Defs.{State}
use aurum.Kernel.{
  sub_size, read_lengths, handle_message, handle_messages, answer, handle_checked, handle,
}
use aurum.Node.History.{Evolves, LaterWith, after}
use aurum.Node.History.Handlers.{handlers-IsFollowed}

module _ (s₀ : State) (w : World) where
  handle_messages-Later :
      (ls : List ℕ) (offset : ℕ) (frame : Bytes) (ref : ℕ) (b : Builder) (s : State)
      → Evolves s₀ s
      → LaterWith s₀ (handle_messages w ls offset frame ref (b, s))
  unfolding handle_messages handle_message
  handle_messages-Later [] offset frame ref b s h = returns h
  handle_messages-Later (l ∷ ls) offset frame ref b s h =
      Ends-if (ltb (sub_size (length frame - 2) offset) l) (λ _. returns h)
        λ _.
          Ends-if (ltb l 18) (λ _. returns h)
            λ _.
              Ends-bind
                (after (byte_at offset frame) λ opcode. after (byte_at (offset + 1) frame) λ type.
                  after (slice (offset + 2) 16 frame) λ tx.
                    after (slice (offset + 18) (l - 18) frame)
                      λ payload. handlers-IsFollowed s₀ w opcode type tx payload ref b s h)
                (λ (b', s') k. handle_messages-Later ls (offset + l) frame ref b' s' k)

  answer-Later :
      (ref : ℕ) (b : Option Builder) (s : State) → Evolves s₀ s → LaterWith s₀ (answer w ref (b, s))
  unfolding answer
  answer-Later ref none s h = returns h
  answer-Later ref (some b) s h = after (get_buffers w.crc _ b) λ reply. returns h

  pub handle-Later :
      (frame : Option Bytes) (ref : ℕ) (s : State)
      → Evolves s₀ s
      → LaterWith s₀ (handle w frame ref s)
  unfolding handle handle_checked
  handle-Later none ref s h = returns h
  handle-Later (some frame) ref s h =
      Ends-if (ltb (length frame) 2) (λ _. returns h)
        λ _. after (slice 0 (length frame - 2) frame) λ covered.
          after (read_le 2 (length frame - 2) frame) λ expected.
            Ends-if (not (w.crc.checksum covered == expected)) (λ _. returns h)
              λ _.
                Ends-if (ltb (length frame - 2) 2) (λ _. returns h)
                  λ _. after (read_le 2 0 frame) λ n.
                    Ends-if (ltb (sub_size (length frame - 2) 2) (n * 2)) (λ _. returns h)
                      λ _. after (read_lengths n 2 frame) λ (ls, offset).
                        Ends-bind (handle_messages-Later ls offset frame ref fresh s h)
                          (λ (b, s') k. answer-Later ref b s' k)
