-- ===== src/Kernel.antt =====
-- src/aurum/session_kernel.cpp: the parser of a frame, which calls the handler of each message.
pub mod Safety
pub mod RoundTrip
pub mod Reference
use aurum.Base.{
  ℕ, zero, suc, ◌+◌, ◌-◌, ◌*◌, ◌%◌, ◌^◌, not, Option, none, some, List, [], ◌∷◌, ◌==◌, ltb,
  if◌then◌else◌, length,
}
use aurum.Outcome.{Outcome, ok, ◌>>=◌}
use aurum.Bytes.{Bytes, slice, read_le, byte_at}
use aurum.Protocol.Builder.{Builder, fresh}
use aurum.Protocol.SessionType.{is_tcp}
use aurum.Protocol.Frame.{get_buffers}
use aurum.World.{World}
use aurum.State.Defs.{State}
use aurum.Handlers.Table.{handlers}

-- Subtraction of `std::size_t`s.
abbrev pub sub_size : ℕ → ℕ → ℕ
sub_size a b = (a + 2 ^ 64 - b) % 2 ^ 64

-- The loop that reads the lengths of the messages: the lengths, and the offset behind them.
unfoldable pub read_lengths : ℕ → ℕ → Bytes → Outcome (List ℕ × ℕ)
read_lengths zero offset frame = ok ([], offset)
read_lengths (suc n) offset frame = do
  l ← read_le 2 offset frame
  (ls, end) ← read_lengths n (offset + 2) frame
  ok (l ∷ ls, end)

module _ (w : World) where
  -- One message: opcode, type, transaction id and payload, handed to the handler of the opcode.
  unfoldable pub handle_message : ℕ → ℕ → Bytes → ℕ → Builder × State → Outcome (Builder × State)
  handle_message offset message_length frame ref bs = do
    opcode ← byte_at offset frame
    type ← byte_at (offset + 1) frame
    tx ← slice (offset + 2) 16 frame
    payload ← slice (offset + 18) (message_length - 18) frame
    handlers w opcode type tx payload ref bs

  -- The loop over the messages. `none` is the early `return nullptr`; what the handlers before it
  -- did to the state stays.
  unfoldable pub handle_messages :
      List ℕ → ℕ → Bytes → ℕ → Builder × State → Outcome (Option Builder × State)
  handle_messages [] offset frame ref (b, s) = ok (some b, s)
  handle_messages (l ∷ ls) offset frame ref (b, s) =
      if ltb (sub_size (length frame - 2) offset) l
      then ok (none, s)
      else if ltb l 18
      then ok (none, s)
      else (handle_message offset l frame ref (b, s) >>= λ bs.
          handle_messages ls (offset + l) frame ref bs)

  -- The answer of `handle`, once the messages are done.
  unfoldable pub answer : ℕ → Option Builder × State → Outcome (Option Bytes × State)
  answer ref (none, s) = ok (none, s)
  answer ref (some b, s) = do
    reply ← get_buffers w.crc (is_tcp (s.object ref).type) b
    ok (some reply, s)

  -- The part of `handle` behind the comparison of the checksums.
  unfoldable pub handle_checked : Bytes → ℕ → State → Outcome (Option Bytes × State)
  handle_checked frame ref s = if ltb (length frame - 2) 2 then ok (none, s) else (do
    number_of_requests ← read_le 2 0 frame
    if ltb (sub_size (length frame - 2) 2) (number_of_requests * 2) then ok (none, s) else (do
      (lengths, offset) ← read_lengths number_of_requests 2 frame
      result ← handle_messages lengths offset frame ref (fresh, s)
      answer ref result))

  -- `none` is a null pointer: no frame, or no reply.
  unfoldable pub handle : Option Bytes → ℕ → State → Outcome (Option Bytes × State)
  handle none ref s = ok (none, s)
  handle (some frame) ref s = if ltb (length frame) 2 then ok (none, s) else (do
    covered ← slice 0 (length frame - 2) frame
    expected ← read_le 2 (length frame - 2) frame
    if not (w.crc.checksum covered == expected) then ok (none, s) else handle_checked frame ref s)
