-- ===== src/Kernel/Reference/Truncation.antt =====
-- What the kernel makes of a message that is too long for its place in the table of lengths.
use aurum.Base.{
  ℕ, ◌+◌, ◌-◌, ◌*◌, ◌%◌, ◌^◌, ◌<◌, ◌≡◌, refl, ap, ◌∙◌, not, Bool, true, false, some, List, [], ◌∷◌,
  ◌++◌, append-nil, arith, length, length-append, take, drop, take-append, drop-append, All,
  All-append, ltb, ◌==◌, if◌then◌else◌,
}
use aurum.Bytes.{Bytes, IsByte, to_le, to_le-IsByte, from_le}
use aurum.Protocol.Frame.{length_table, payloads, content, body}
use aurum.World.{World}
use aurum.State.Defs.{State}
use aurum.Kernel.{handle}
use aurum.Kernel.RoundTrip.{Message}
use aurum.Kernel.Reference.{parse_content, parse, meaning, handle-reference}
use aurum.Kernel.Reference.Loop.{cut}
use aurum.Kernel.Reference.Parts.{message_of}

-- The message that is cut out, if it is one.
abbrev pub seen : Bytes → List Message × Bool
seen p =
    let l = length p % 2 ^ 16 in
    if ltb l 18 then ([], false) else (message_of (take l p) ∷ [], true)

module _ (w : World) (ref : ℕ) (p : Bytes) where
  abbrev frame : Bytes
  frame = body w.crc (p ∷ [])

  abbrev covered : Bytes
  covered = content (p ∷ [])

  abbrev sum : Bytes
  sum = to_le 2 (w.crc.checksum covered)

  parts : covered ≡ 1 ∷ 0 ∷ (to_le 2 (length p % 2 ^ 16) ++ p)
  unfolding content length_table payloads
  parts = rw append-nil refl

  cut-seen : cut ((length p % 2 ^ 16) ∷ []) p ≡ seen p
  unfolding cut
  cut-seen = let fits : ltb (length p) (length p % 2 ^ 16) ≡ false = ground arith in rw fits refl

  parse_content-seen : parse_content 1 (to_le 2 (length p % 2 ^ 16) ++ p) ≡ some (seen p)
  unfolding parse_content
  parse_content-seen = rw (room, value) (ap some cut-seen)
    where
      room : ltb (length (to_le 2 (length p % 2 ^ 16) ++ p)) (2 * 1) ≡ false
      room = ground arith

      value : from_le (take 2 (to_le 2 (length p % 2 ^ 16) ++ p)) ≡ length p % 2 ^ 16
      value = omega arith

  parse-seen : parse w.crc frame ≡ some (seen p)
  unfolding parse body
  parse-seen = rw (enough, front, back, expected, intact, parts) parse_content-seen
    where
      size : length frame ≡ length covered + 2
      size = omega (arith, length-append covered sum)

      enough : ltb (length frame) 4 ≡ false
      enough = ground (arith, size, ap length parts)

      front : take (length frame - 2) frame ≡ covered
      front = take-append covered sum (omega (arith, size))

      back : drop (length frame - 2) frame ≡ sum
      back = drop-append covered sum (omega (arith, size))

      expected : from_le sum ≡ w.crc.checksum covered
      expected = omega (arith, w.crc.checksum_lt covered)

      intact : not (w.crc.checksum covered == w.crc.checksum covered) ≡ false
      intact = ground arith

  -- The frame that `get_data` builds for one message, handled by the kernel: the message's length
  -- stands in the table modulo 2^16. If that is less than 18, then the kernel answers nothing and
  -- calls no handler. Otherwise it handles the message cut off after that many bytes, and ignores
  -- the rest. The message is any list of bytes with which the frame is shorter than 2^64.
  pub handle-seen :
      (s : State)
      → All IsByte p
      → length (body w.crc (p ∷ [])) < 2 ^ 64
      → handle w (some (body w.crc (p ∷ []))) ref s ≡ meaning w ref (some (seen p)) s
  handle-seen s h small =
      handle-reference w ref (body w.crc (p ∷ [])) s bytes small
      ∙ ap (λ r. meaning w ref r s) parse-seen
    where
      bytes : All IsByte (body w.crc (p ∷ []))
      bytes =
          unfold body in
          All-append IsByte covered sum
            (rw parts (
              omega arith,
              (omega arith, All-append IsByte (to_le 2 (length p % 2 ^ 16)) p (to_le-IsByte 2 _) h),
            ))
            (to_le-IsByte 2 _)
