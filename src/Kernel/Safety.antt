-- ===== src/Kernel/Safety.antt =====
-- `handle` on any frame, well formed or not.
use aurum.Base.{
  ℕ, zero, suc, ◌+◌, ◌-◌, ◌*◌, ◌^◌, ◌≤◌, ◌<◌, ◌≡◌, refl, not, Option, none, some, List, [], ◌∷◌,
  arith, length, All, ltb, ◌==◌,
}
use aurum.Outcome.{
  Ends, Returns, returns, Ends-if, Ends-bind, Ends-mono, Returns-Ends, payload_too_large,
}
use aurum.Bytes.{Bytes, IsByte, byte_at, slice-Returns, read_le-Returns, read_le_lt}
use aurum.Protocol.Builder.{Builder, fresh}
use aurum.Protocol.SessionType.{is_tcp}
use aurum.Protocol.Frame.{get_buffers}
use aurum.Protocol.Frame.Layout.{get_data-Ends}
use aurum.World.{World}
use aurum.State.Defs.{State}
use aurum.State.Invariant.{Inv}
use aurum.Handlers.Safety.{handlers-IsSafe}
use aurum.Handlers.Safety.Defs.{Keeps}
use aurum.Kernel.{
  sub_size, read_lengths, handle_message, handle_messages, answer, handle_checked, handle,
}

-- As many lengths as were announced, and the offset behind them.
pub read_lengths-Returns :
    (n offset : ℕ) (frame : Bytes)
    → offset + 2 * n ≤ length frame
    → Returns
        (λ (r : List ℕ × ℕ). (length r.0 ≡ n) × (r.1 ≡ offset + 2 * n))
        (read_lengths n offset frame)
unfolding read_lengths
read_lengths-Returns zero offset frame h = returns (refl, omega arith)
read_lengths-Returns (suc n) offset frame h =
    Ends-bind (read_le-Returns 2 offset frame (omega arith)) λ l _.
      Ends-bind (read_lengths-Returns n (offset + 2) frame (omega arith))
        λ (ls, end) (e, f). returns (omega arith, omega arith)

-- The state stays well formed, and at most `n` responses are queued.
pub record Handled (n : ℕ) (r : Option Builder × State) : Type 0 where
  pub inv : Inv r.1
  pub responses : (b : Builder) → r.0 ≡ some b → length b.buffers ≤ n

module _ (w : World) where
  handle_message-Returns :
      (offset l : ℕ) (frame : Bytes) (ref : ℕ) (b : Builder) (s : State)
      → 18 ≤ l
      → offset + l ≤ length frame
      → Inv s
      → Returns (Keeps (length b.buffers)) (handle_message w offset l frame ref (b, s))
  unfolding handle_message byte_at
  handle_message-Returns offset l frame ref b s long room v =
      Ends-bind (read_le-Returns 1 offset frame (omega arith)) λ opcode _.
        Ends-bind (read_le-Returns 1 (offset + 1) frame (omega arith)) λ type _.
          Ends-bind (slice-Returns (offset + 2) 16 frame (omega arith)) λ tx _.
            Ends-bind (slice-Returns (offset + 18) (l - 18) frame (omega arith))
              λ payload _. handlers-IsSafe w opcode type tx payload ref b s v

  handle_messages-Returns :
      (ls : List ℕ) (offset : ℕ) (frame : Bytes) (ref : ℕ) (b : Builder) (s : State)
      → length frame < 2 ^ 64
      → offset + 2 ≤ length frame
      → Inv s
      → Returns
          (Handled (length b.buffers + length ls))
          (handle_messages w ls offset frame ref (b, s))
  unfolding handle_messages
  handle_messages-Returns [] offset frame ref b s small room v =
      returns (record { inv = v; responses = λ b' e. ground arith })
  handle_messages-Returns (l ∷ ls) offset frame ref b s small room v =
      Ends-if (ltb (sub_size (length frame - 2) offset) l) (λ _. returns dropped)
        λ inside.
          Ends-if (ltb l 18) (λ _. returns dropped)
            λ long.
              Ends-bind
                (handle_message-Returns offset l frame ref b s (ground arith) (ground arith) v)
                λ (b', s') kept.
                  Ends-mono
                    (λ r h. record {
                      inv = h.inv;
                      responses = λ c e. omega (arith, kept.responses, h.responses c e);
                    })
                    (handle_messages-Returns ls (offset + l) frame ref b' s' small (ground arith)
                      kept.inv)
    where
      dropped : Handled (length b.buffers + length (l ∷ ls)) (none, s)
      dropped = record { inv = v; responses = λ c e. cc }

  answer-Ends :
      (ref : ℕ) (r : Option Builder × State)
      → Handled 65535 r
      → Ends (λ e. e ≡ payload_too_large) (λ (a : Option Bytes × State). Inv a.1) (answer w ref r)
  unfolding answer get_buffers
  answer-Ends ref (none, s) h = returns h.inv
  answer-Ends ref (some b, s) h =
      Ends-bind (get_data-Ends w.crc (is_tcp (s.object ref).type) b (h.responses b refl))
        (λ reply _. returns h.inv)

  handle_checked-Ends :
      (frame : Bytes) (ref : ℕ) (s : State)
      → All IsByte frame
      → length frame < 2 ^ 64
      → 2 ≤ length frame
      → Inv s
      → Ends
          (λ e. e ≡ payload_too_large)
          (λ (a : Option Bytes × State). Inv a.1)
          (handle_checked w frame ref s)
  unfolding handle_checked
  handle_checked-Ends frame ref s bytes small two v =
      Ends-if (ltb (length frame - 2) 2) (λ _. returns v)
        λ four. Ends-bind (Returns-Ends (read_le_lt 2 0 frame bytes (ground arith))) λ n bound.
          Ends-if (ltb (sub_size (length frame - 2) 2) (n * 2)) (λ _. returns v)
            λ covered.
              Ends-bind (Returns-Ends (read_lengths-Returns n 2 frame (ground arith)))
                λ (ls, offset) (count, end).
                  Ends-bind
                    (Returns-Ends
                      (handle_messages-Returns ls offset frame ref fresh s small (ground arith) v))
                    λ r h. answer-Ends ref r (record {
                      inv = h.inv;
                      responses =
                          λ b e. unfold fresh in omega (arith, h.responses b e, bound, count);
                    })

  -- Whatever bytes a peer sends, `handle` reads nothing outside the frame and its payloads, and
  -- leaves the state well formed. It throws nothing but the error for more than 4294836217 bytes of
  -- responses.
  pub handle-Inv :
      (frame : Bytes) (ref : ℕ) (s : State)
      → All IsByte frame
      → length frame < 2 ^ 64
      → Inv s
      → Ends
          (λ e. e ≡ payload_too_large)
          (λ (a : Option Bytes × State). Inv a.1)
          (handle w (some frame) ref s)
  unfolding handle
  handle-Inv frame ref s bytes small v =
      Ends-if (ltb (length frame) 2) (λ _. returns v)
        λ two.
          Ends-bind (Returns-Ends (slice-Returns 0 (length frame - 2) frame (ground arith)))
            λ covered _.
              Ends-bind (Returns-Ends (read_le-Returns 2 (length frame - 2) frame (ground arith)))
                λ expected _.
                  Ends-if (not (w.crc.checksum covered == expected)) (λ _. returns v)
                    (λ _. handle_checked-Ends frame ref s bytes small (ground arith) v)
