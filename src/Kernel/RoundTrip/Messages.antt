-- ===== src/Kernel/RoundTrip/Messages.antt =====
-- Messages as the builders queue them, and the loops of the kernel over a frame of such messages.
use aurum.Base.{
  ℕ, suc, ◌+◌, ◌-◌, ◌*◌, ◌%◌, ◌^◌, ◌≤◌, ◌<◌, ◌≡◌, refl, sym, ap, ◌∙◌, some, false, List, [], ◌∷◌,
  ◌++◌, arith, length, All, ltb, map, append_assoc, length-append,
}
use aurum.Outcome.{Outcome, ok, ◌>>=◌, bind_through}
use aurum.Bytes.{Bytes, to_le, from_le, byte_at, slice_at, read_le_at}
use aurum.Protocol.Builder.{Builder}
use aurum.Protocol.Frame.{length_table, payloads}
use aurum.World.{World}
use aurum.State.Defs.{State}
use aurum.Handlers.Table.{handlers}
use aurum.Kernel.{sub_size, read_lengths, handle_message, handle_messages}

-- A message, as the builders queue it.
pub record Message : Type 0 where
  pub opcode : ℕ
  pub type : ℕ
  pub tx : Bytes
  pub payload : Bytes

abbrev pub encode : Message → Bytes
encode m = m.opcode ∷ m.type ∷ (m.tx ++ m.payload)

-- The transaction id is a uuid, and the length fits its 16 bits.
pub record IsSendable (m : Message) : Type 0 where
  pub tx : length m.tx ≡ 16
  pub short : 18 + length m.payload < 2 ^ 16

pub length-encode : (m : Message) → IsSendable m → length (encode m) ≡ 18 + length m.payload
length-encode m h = omega (arith, length-append m.tx m.payload, h.tx)

-- The lengths in the table are those of the payloads.
pub read_lengths-length_table :
    (ps : List Bytes) (frame front back : Bytes) {offset : ℕ}
    → All (λ (p : Bytes). length p < 2 ^ 16) ps
    → frame ≡ front ++ (length_table ps ++ back)
    → length front ≡ offset
    → read_lengths (length ps) offset frame ≡ ok (map length ps, offset + 2 * length ps)
unfolding read_lengths length_table
read_lengths-length_table [] frame front back {offset} h e hf =
    let end : offset + 2 * 0 ≡ offset = omega arith in rw end
read_lengths-length_table (p ∷ ps) frame front back {offset} (short, h) e hf = rw (
  read_le_at frame front entry (length_table ps ++ back) here hf refl,
  read_lengths-length_table ps frame (front ++ entry) back {offset = offset + 2} h
      (here ∙ sym (append_assoc front entry (length_table ps ++ back)))
      (omega (arith, length-append front entry, hf)),
  value,
  end,
)
  where
    entry : Bytes
    entry = to_le 2 (length p % 2 ^ 16)

    here : frame ≡ front ++ (entry ++ (length_table ps ++ back))
    here = e

    value : from_le entry ≡ length p
    value = omega arith

    end : offset + 2 + 2 * length ps ≡ offset + 2 * suc (length ps)
    end = omega arith

module _ (w : World) (ref : ℕ) where
  -- What the messages of a frame mean: their handlers are called in order.
  unfoldable pub dispatch : List Message → Builder × State → Outcome (Builder × State)
  dispatch [] bs = ok bs
  dispatch (m ∷ ms) bs = handlers w m.opcode m.type m.tx m.payload ref bs >>= λ bs'. dispatch ms bs'

  pub handle_message-encode :
      (m : Message) (frame front back : Bytes) (offset : ℕ) (bs : Builder × State)
      → IsSendable m
      → frame ≡ front ++ (encode m ++ back)
      → length front ≡ offset
      → handle_message w offset (18 + length m.payload) frame ref bs
        ≡ handlers w m.opcode m.type m.tx m.payload ref bs
  unfolding handle_message byte_at
  handle_message-encode m frame front back offset bs h e hf = rw (
    read_le_at frame front (m.opcode ∷ []) _ e hf refl,
    read_le_at frame (front ++ (m.opcode ∷ [])) (m.type ∷ []) _ at_type (grow (m.opcode ∷ [])) refl,
    slice_at frame (front ++ (m.opcode ∷ m.type ∷ [])) m.tx (m.payload ++ back) at_tx
        (grow (m.opcode ∷ m.type ∷ [])) h.tx,
    slice_at frame (front ++ (m.opcode ∷ m.type ∷ m.tx)) m.payload back at_payload past_tx
        payload_length,
    opcode,
    type,
  )
    where
      grow : (xs : Bytes) → length (front ++ xs) ≡ offset + length xs
      grow xs = omega (arith, length-append front xs, hf)

      at_type :
          frame ≡ (front ++ (m.opcode ∷ [])) ++ ((m.type ∷ []) ++ ((m.tx ++ m.payload) ++ back))
      at_type = rw e (sym (append_assoc front (m.opcode ∷ []) _))

      at_tx : frame ≡ (front ++ (m.opcode ∷ m.type ∷ [])) ++ (m.tx ++ (m.payload ++ back))
      at_tx = rw e (simp append_assoc)

      at_payload : frame ≡ (front ++ (m.opcode ∷ m.type ∷ m.tx)) ++ (m.payload ++ back)
      at_payload = rw e (simp append_assoc)

      past_tx : length (front ++ (m.opcode ∷ m.type ∷ m.tx)) ≡ offset + 18
      past_tx = omega (arith, grow (m.opcode ∷ m.type ∷ m.tx), h.tx)

      payload_length : length m.payload ≡ 18 + length m.payload - 18
      payload_length = omega arith

      opcode : from_le (m.opcode ∷ []) ≡ m.opcode
      opcode = omega arith

      type : from_le (m.type ∷ []) ≡ m.type
      type = omega arith

  -- The message loop, on messages that stand in the frame from the offset on.
  pub handle_messages-encode :
      (ms : List Message) (frame front back : Bytes) (offset : ℕ) (b : Builder) (s : State)
      → All IsSendable ms
      → length frame < 2 ^ 64
      → length back ≡ 2
      → frame ≡ front ++ (payloads (map encode ms) ++ back)
      → length front ≡ offset
      → handle_messages w (map length (map encode ms)) offset frame ref (b, s)
        ≡ (dispatch ms (b, s) >>= λ r. ok (some r.0, r.1))
  unfolding handle_messages dispatch payloads
  handle_messages-encode [] frame front back offset b s h small hb e hf = refl
  handle_messages-encode (m ∷ ms) frame front back offset b s (hm, h) small hb e hf =
      rw
        (
          length-encode m hm,
          inside,
          long,
          handle_message-encode m frame front _ offset (b, s) hm here hf,
        )
        (bind_through (handlers w m.opcode m.type m.tx m.payload ref (b, s)) _ _ λ (b', s').
          handle_messages-encode ms frame (front ++ encode m) back
            (offset + (18 + length m.payload)) b' s' h small hb
            (here ∙ sym (append_assoc front (encode m) rest)) next)
    where
      rest : Bytes
      rest = payloads (map encode ms) ++ back

      here : frame ≡ front ++ (encode m ++ rest)
      here = rw e (ap (◌++◌ front) (append_assoc (encode m) _ back))

      room : length frame ≡ offset + (18 + length m.payload) + length rest
      room = omega (
        arith,
        ap length here,
        length-append front (encode m ++ rest),
        length-append (encode m) rest,
        length-encode m hm,
        hf,
      )

      back_length : 2 ≤ length rest
      back_length = omega (arith, length-append (payloads (map encode ms)) back, hb)

      inside : ltb (sub_size (length frame - 2) offset) (18 + length m.payload) ≡ false
      inside = ground (arith, room, back_length)

      long : ltb (18 + length m.payload) 18 ≡ false
      long = ground arith

      next : length (front ++ encode m) ≡ offset + (18 + length m.payload)
      next = omega (arith, length-append front (encode m), length-encode m hm, hf)
