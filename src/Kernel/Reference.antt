-- ===== src/Kernel/Reference.antt =====
-- A reading of frames that is independent of the cursor and the checks of the kernel: a frame is a
-- list of messages, and whether all of them could be cut out.
mod Parts
pub mod Loop
pub mod Truncation
use aurum.Kernel.Reference.Parts.{handle_message-message_of, split_off, read_lengths-u16s, u16s_lt}
use aurum.Base.{
  take-drop, ℕ, zero, suc, ◌+◌, ◌-◌, ◌*◌, ◌%◌, ◌^◌, ◌≤◌, ◌<◌, ◌≡◌, refl, sym, ap, ◌∙◌, not, Bool,
  true, false, ◌||◌, Option, none, some, List, [], ◌∷◌, ◌++◌, arith, length, length-append,
  length-take, length-drop, take, drop, All, All-take, All-drop, ltb, ◌==◌, if◌then◌else◌,
  append_assoc, Bool-cases, inl, inr, subst, append-nil,
}
use aurum.Outcome.{Outcome, ok, ◌>>=◌, bind_through}
use aurum.Bytes.{Bytes, IsByte, from_le, slice_at, read_le_at, slice, read_le}
use aurum.Protocol.Builder.{Builder, fresh}
use aurum.Protocol.Crc.{Crc}
use aurum.World.{World}
use aurum.State.Defs.{State}
use aurum.Kernel.{
  sub_size, read_lengths, handle_message, handle_messages, answer, handle_checked, handle, handlers,
}
use aurum.Kernel.RoundTrip.{Message, dispatch}
use Parts.{message_of, u16s}
use aurum.Kernel.Reference.Loop.{cut, verdict, handle_messages-cut}

-- The content of a frame between its quantity and its checksum: a table of lengths, and messages.
pub parse_content : ℕ → Bytes → Option (List Message × Bool)
parse_content quantity content =
    if ltb (length content) (2 * quantity)
    then none
    else some (cut (u16s quantity content) (drop (2 * quantity) content))

-- A frame: its last two bytes are the checksum of the others.
pub parse : Crc → Bytes → Option (List Message × Bool)
parse crc frame =
    let covered = take (length frame - 2) frame in
    let sum = drop (length frame - 2) frame in
    if ltb (length frame) 4 || not (crc.checksum covered == from_le sum)
    then none
    else parse_content (from_le (take 2 covered)) (drop 2 covered)

module _ (w : World) (ref : ℕ) where
  -- What a reading of a frame means: its messages are handled on an empty builder.
  abbrev pub meaning : Option (List Message × Bool) → State → Outcome (Option Bytes × State)
  meaning none s = ok (none, s)
  meaning (some (ms, complete)) s =
      dispatch w ref ms (fresh, s) >>= verdict complete >>= answer w ref

  -- The part behind the checksum.
  handle_checked-parse_content :
      (frame quantity content sum : Bytes) (s : State)
      → All IsByte content
      → length frame < 2 ^ 64
      → frame ≡ quantity ++ (content ++ sum)
      → length quantity ≡ 2
      → length sum ≡ 2
      → handle_checked w frame ref s ≡ meaning (parse_content (from_le quantity) content) s
  unfolding handle_checked parse_content
  handle_checked-parse_content frame quantity content sum s h small e hq hs =
      rw (enough, read_le_at frame [] quantity _ e refl hq, guard)
        (elim (Bool-cases (ltb (length content) (2 * n))) [
          | inl outside ↦ rw outside refl
          | inr inside ↦
              rw
                (
                  inside,
                  read_lengths-u16s n frame quantity content sum {offset = 2} e hq (table inside),
                  handle_messages-cut w ref (u16s n content) frame
                      (quantity ++ take (2 * n) content) (drop (2 * n) content) sum (2 + 2 * n)
                      fresh s (u16s_lt n content h (table inside)) small
                      (here ∙ sym (append_assoc quantity _ _)) (past_table inside) hs,
                )
                refl
        ])
    where
      n : ℕ
      n = from_le quantity

      room : length frame ≡ 4 + length content
      room = omega (
        arith,
        ap length e,
        length-append quantity (content ++ sum),
        length-append content sum,
        hq,
        hs,
      )

      enough : ltb (length frame - 2) 2 ≡ false
      enough = ground (arith, room)

      guard : ltb (sub_size (length frame - 2) 2) (n * 2) ≡ ltb (length content) (2 * n)
      guard = ground (arith, room, small)

      table : ltb (length content) (2 * n) ≡ false → 2 * n ≤ length content
      table inside = ground (arith, inside)

      here : frame ≡ quantity ++ (take (2 * n) content ++ (drop (2 * n) content ++ sum))
      here = e ∙ ap (λ t. quantity ++ t) (split_off (2 * n) content sum)

      past_table :
          ltb (length content) (2 * n) ≡ false
          → length (quantity ++ take (2 * n) content) ≡ 2 + 2 * n
      past_table inside = omega (
        arith,
        length-append quantity (take (2 * n) content),
        length-take (2 * n) content (table inside),
        hq,
      )

  -- The kernel is a parser of whole frames followed by the handlers. On every frame that is shorter
  -- than 2^64, whatever its bytes are: if the frame has fewer than four bytes, a wrong checksum or
  -- no room for its table of lengths, then `handle` answers nothing and keeps the state. Otherwise
  -- it calls the handlers of the messages that the table cuts out, in order and on an empty builder,
  -- up to the first message that is shorter than 18 bytes or does not fit. It answers with what they
  -- queued if there was no such message, else it answers nothing.
  pub handle-reference :
      (frame : Bytes) (s : State)
      → All IsByte frame
      → length frame < 2 ^ 64
      → handle w (some frame) ref s ≡ meaning (parse w.crc frame) s
  unfolding handle parse handle_checked
  handle-reference frame s h small = elim (Bool-cases (ltb (length frame) 4)) [
    | inl few ↦ rw few (too_few few)
    | inr enough ↦
        rw (enough, two enough, read_covered, read_sum (two enough))
          (elim (Bool-cases (not (w.crc.checksum covered == from_le sum))) [
            | inl wrong ↦ rw wrong refl
            | inr intact ↦ rw intact (
                handle_checked-parse_content frame (take 2 covered) (drop 2 covered) sum s
                  (All-drop IsByte 2 covered (All-take IsByte _ frame h)) small
                  (parts ∙ split_off 2 covered sum)
                  (length-take 2 covered (ground (arith, size, enough)))
                  (ground (arith, length-drop (length frame - 2) frame, enough)))
          ])
  ]
    where
      covered : Bytes
      covered = take (length frame - 2) frame

      sum : Bytes
      sum = drop (length frame - 2) frame

      size : length covered ≡ length frame - 2
      size = length-take (length frame - 2) frame (omega arith)

      parts : frame ≡ covered ++ sum
      parts = take-drop (length frame - 2) frame

      two : ltb (length frame) 4 ≡ false → ltb (length frame) 2 ≡ false
      two enough = ground (arith, enough)

      read_covered : slice 0 (length frame - 2) frame ≡ ok covered
      read_covered = slice_at frame [] covered sum parts refl size

      read_sum :
          ltb (length frame) 2 ≡ false → read_le 2 (length frame - 2) frame ≡ ok (from_le sum)
      read_sum two =
          read_le_at frame covered sum [] (parts ∙ ap (λ t. covered ++ t) (sym (append-nil sum)))
            size (ground (arith, length-drop (length frame - 2) frame, two))

      too_few : ltb (length frame) 4 ≡ true → handle w (some frame) ref s ≡ ok (none, s)
      too_few few = elim (Bool-cases (ltb (length frame) 2)) [
        | inl none_left ↦ rw none_left refl
        | inr two ↦
            let short : ltb (length frame - 2) 2 ≡ true = ground (arith, few) in
            rw (two, read_covered, read_sum two)
              (elim (Bool-cases (not (w.crc.checksum covered == from_le sum))) [
                | inl wrong ↦ rw wrong refl
                | inr intact ↦ rw (intact, short) refl
              ])
      ]
