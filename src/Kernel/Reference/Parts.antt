-- ===== src/Kernel/Reference/Parts.antt =====
-- The parts of a frame: its 16-bit integers, and its messages.
use aurum.Base.{
  take-drop, ℕ, zero, suc, ◌+◌, ◌*◌, ◌^◌, ◌≤◌, ◌<◌, ◌≡◌, refl, sym, ap, subst, ◌∙◌, List, [], ◌∷◌,
  ◌++◌, arith, length, length-append, length-take, length-drop, take, drop, All, All-take, All-drop,
  append_assoc,
}
use aurum.Outcome.{ok}
use aurum.Bytes.{Bytes, IsByte, from_le, from_le_lt, read_le_at}
use aurum.Kernel.{read_lengths, World, Builder, State, handle_message, handlers}
use aurum.Kernel.RoundTrip.{Message, encode, IsSendable, handle_message-encode}

pub split_off : (n : ℕ) (xs back : Bytes) → xs ++ back ≡ take n xs ++ (drop n xs ++ back)
split_off n xs back =
    ap (λ t. t ++ back) (take-drop n xs) ∙ append_assoc (take n xs) (drop n xs) back

-- Opcode, type, transaction id and payload.
abbrev pub message_of : Bytes → Message
message_of bytes = record {
  opcode = from_le (take 1 bytes);
  type = from_le (take 1 (drop 1 bytes));
  tx = take 16 (drop 2 bytes);
  payload = drop 18 bytes;
}

pub encode-message_of : (bytes : Bytes) → 18 ≤ length bytes → encode (message_of bytes) ≡ bytes
encode-message_of [] h = absurd (omega arith)
encode-message_of (op ∷ []) h = absurd (omega arith)
encode-message_of (op ∷ ty ∷ rest) h =
    let opcode : op + 256 * 0 ≡ op = omega arith in
    let type : ty + 256 * 0 ≡ ty = omega arith in
    rw (opcode, type) (ap (λ t. op ∷ ty ∷ t) (sym (take-drop 16 rest)))

pub message_of-IsSendable :
    (bytes : Bytes) → 18 ≤ length bytes → length bytes < 2 ^ 16 → IsSendable (message_of bytes)
message_of-IsSendable bytes h short = record {
  tx = length-take 16 (drop 2 bytes) (omega (arith, length-drop 2 bytes));
  short = omega (arith, length-drop 18 bytes);
}

-- The first `n` 16-bit integers.
abbrev pub u16s : ℕ → Bytes → List ℕ
u16s zero bytes = []
u16s (suc n) bytes = from_le (take 2 bytes) ∷ u16s n (drop 2 bytes)

pub u16s_lt :
    (n : ℕ) (bytes : Bytes)
    → All IsByte bytes
    → 2 * n ≤ length bytes
    → All (λ l. l < 2 ^ 16) (u16s n bytes)
u16s_lt zero bytes h enough = tt
u16s_lt (suc n) bytes h enough = (
  subst (λ k. from_le (take 2 bytes) < 256 ^ k) (length-take 2 bytes (omega arith))
      (from_le_lt (take 2 bytes) (All-take IsByte 2 bytes h)),
  u16s_lt n (drop 2 bytes) (All-drop IsByte 2 bytes h) (omega (arith, length-drop 2 bytes)),
)

pub read_lengths-u16s :
    (n : ℕ) (frame front rest back : Bytes) {offset : ℕ}
    → frame ≡ front ++ (rest ++ back)
    → length front ≡ offset
    → 2 * n ≤ length rest
    → read_lengths n offset frame ≡ ok (u16s n rest, offset + 2 * n)
unfolding read_lengths
read_lengths-u16s zero frame front rest back {offset} e hf enough =
    let end : offset + 2 * 0 ≡ offset = omega arith in rw end
read_lengths-u16s (suc n) frame front rest back {offset} e hf enough =
    rw
      (
        read_le_at frame front (take 2 rest) (drop 2 rest ++ back) here hf piece,
        read_lengths-u16s n frame (front ++ take 2 rest) (drop 2 rest) back {offset = offset + 2}
            (here ∙ sym (append_assoc front (take 2 rest) _))
            (omega (arith, length-append front (take 2 rest), piece, hf))
            (omega (arith, length-drop 2 rest)),
        end,
      )
      refl
  where
    here : frame ≡ front ++ (take 2 rest ++ (drop 2 rest ++ back))
    here = e ∙ ap (λ t. front ++ t) (split_off 2 rest back)

    piece : length (take 2 rest) ≡ 2
    piece = length-take 2 rest (omega arith)

    end : offset + 2 + 2 * n ≡ offset + 2 * suc n
    end = omega arith

module _ (w : World) (ref : ℕ) where
  -- A message in the frame is handed to its handler.
  pub handle_message-message_of :
      (bytes frame front back : Bytes) (offset : ℕ) (bs : Builder × State)
      → 18 ≤ length bytes
      → length bytes < 2 ^ 16
      → frame ≡ front ++ (bytes ++ back)
      → length front ≡ offset
      → handle_message w offset (length bytes) frame ref bs
        ≡ handlers w
            (message_of bytes).opcode
            (message_of bytes).type
            (message_of bytes).tx
            (message_of bytes).payload
            ref
            bs
  handle_message-message_of bytes frame front back offset bs h short e hf =
      let size : length bytes ≡ 18 + length (message_of bytes).payload =
        omega (arith, length-drop 18 bytes) in
      rw size (
        handle_message-encode w ref (message_of bytes) frame front back offset bs
          (message_of-IsSendable bytes h short)
          (e ∙ ap (λ t. front ++ (t ++ back)) (sym (encode-message_of bytes h))) hf)
