-- ===== src/Kernel/RoundTrip.antt =====
-- `handle` on the frames that `get_data` produces.
mod Messages
pub use Messages.{Message, encode, IsSendable, length-encode, handle_message-encode}
unfoldable pub use Messages.{dispatch}
use aurum.Base.{
  ℕ, zero, suc, ◌+◌, ◌-◌, ◌*◌, ◌%◌, ◌^◌, ◌≤◌, ◌<◌, ◌≡◌, refl, sym, ap, ◌∙◌, not, Option, none, some,
  false, List, [], ◌∷◌, ◌++◌, arith, length, All, ltb, ◌==◌, if◌then◌else◌, Bool, map, append_assoc,
  length-append, append-nil, if_cases,
}
use aurum.Outcome.{Outcome, ok, fault, ◌>>=◌}
use aurum.Bytes.{
  Bytes, to_le, from_le, length-to_le, from_le-to_le, slice, read_le, slice_at, read_le_at,
}
use aurum.Protocol.Builder.{Builder, fresh}
use aurum.Protocol.Frame.{length_table, payloads, content, body}
use aurum.Protocol.Frame.Layout.{length-content, length-length_table, length-body}
use aurum.World.{World}
use aurum.State.Defs.{State}
use aurum.Kernel.{sub_size, read_lengths, handle_messages, answer, handle_checked, handle}
use Messages.{read_lengths-length_table, handle_messages-encode}

encode_short :
    (ms : List Message) → All IsSendable ms → All (λ (p : Bytes). length p < 2 ^ 16) (map encode ms)
encode_short [] h = tt
encode_short (m ∷ ms) (hm, h) = (omega (arith, length-encode m hm, hm.short), encode_short ms h)

length-map : (ms : List Message) → length (map encode ms) ≡ length ms
length-map [] = refl
length-map (m ∷ ms) = ap suc (length-map ms)

module _ (w : World) (ref : ℕ) where
  -- The shape of the answer: what the messages queued goes to `answer`.
  answer-dispatch :
      (m : Outcome (Builder × State))
      → ((m >>= λ r. ok (some r.0, r.1)) >>= λ r. answer w ref r)
        ≡ (m >>= λ (b, s'). answer w ref (some b, s'))
  answer-dispatch (ok (b, s')) = refl
  answer-dispatch (fault e) = refl

  module _ (ms : List Message) (s : State) (sendable : All IsSendable ms) (few : length ms < 2 ^ 16)
      (small : length (body w.crc (map encode ms)) < 2 ^ 64) where
    abbrev ps : List Bytes
    ps = map encode ms

    abbrev frame : Bytes
    frame = body w.crc ps

    abbrev quantity : Bytes
    quantity = to_le 2 (length ps % 2 ^ 16)

    abbrev sum : Bytes
    sum = to_le 2 (w.crc.checksum (content ps))

    parts : frame ≡ quantity ++ (length_table ps ++ (payloads ps ++ sum))
    unfolding body content
    parts = ap (λ (t : Bytes). quantity ++ t) (append_assoc (length_table ps) (payloads ps) sum)

    size : length frame ≡ 2 + 2 * length ms + length (payloads ps) + 2
    size = omega (arith, length-body w.crc ps, length-map ms)

    -- The parser behind the checksum.
    handle_checked-body :
        handle_checked w frame ref s
        ≡ (dispatch w ref ms (fresh, s) >>= λ (b, s'). answer w ref (some b, s'))
    unfolding handle_checked
    handle_checked-body =
        rw
          (
            enough,
            read_le_at frame [] quantity _ parts refl refl,
            value,
            covered,
            read_lengths-length_table ps frame quantity (payloads ps ++ sum) {offset = 2}
                (encode_short ms sendable) parts refl,
            handle_messages-encode w ref ms frame (quantity ++ length_table ps) sum
                (2 + 2 * length ps) fresh s sendable small refl
                (parts ∙ sym (append_assoc quantity (length_table ps) (payloads ps ++ sum)))
                (omega (arith, length-length_table ps)),
          )
          (answer-dispatch (dispatch w ref ms (fresh, s)))
      where
        enough : ltb (length frame - 2) 2 ≡ false
        enough = ground (arith, size)

        value : from_le quantity ≡ length ps
        value = omega (arith, length-map ms, few)

        covered : ltb (sub_size (length frame - 2) 2) (length ps * 2) ≡ false
        covered = ground (arith, size, length-map ms, small)

    -- A frame without its header, as `get_data` builds it from up to 65535 messages, each with a
    -- 16-byte transaction id and shorter than 65536 bytes in all, has the effect of the messages,
    -- if it is shorter than 2^64 bytes: their handlers are called in order on an empty builder, and
    -- what they queue is the answer.
    pub handle-body :
        handle w (some frame) ref s
        ≡ (dispatch w ref ms (fresh, s) >>= λ (b, s'). answer w ref (some b, s'))
    unfolding handle
    handle-body =
        rw
          (
            enough,
            slice_at frame [] (content ps) sum {off = 0} {n = length frame - 2} sealed refl covered,
            read_le_at frame (content ps) sum [] {off = length frame - 2} {n = 2} tail covered refl,
            expected,
            intact,
          )
          handle_checked-body
      where
        enough : ltb (length frame) 2 ≡ false
        enough = ground (arith, size)

        sealed : frame ≡ content ps ++ sum
        sealed = unfold body in refl

        tail : frame ≡ content ps ++ (sum ++ [])
        tail = sealed

        covered : length (content ps) ≡ length frame - 2
        covered = omega (arith, ap length sealed, length-append (content ps) sum)

        expected : from_le sum ≡ w.crc.checksum (content ps)
        expected = omega (arith, w.crc.checksum_lt (content ps))

        intact : not (w.crc.checksum (content ps) == w.crc.checksum (content ps)) ≡ false
        intact = ground arith
