-- ===== src/Kernel/Reference/Loop.antt =====
-- The message loop of the kernel, and what it cuts out.
use aurum.Kernel.Reference.Parts.{handle_message-message_of, split_off}
use aurum.Base.{
  ℕ, ◌+◌, ◌-◌, ◌^◌, ◌<◌, ◌≡◌, refl, sym, ap, ◌∙◌, Bool, true, false, ◌||◌, Option, none, some, List,
  [], ◌∷◌, ◌++◌, arith, length, length-append, length-take, take, drop, All, ltb, if◌then◌else◌,
  append_assoc, Bool-cases, inl, inr, subst,
}
use aurum.Outcome.{Outcome, ok, ◌>>=◌, bind_through}
use aurum.Bytes.{Bytes}
use aurum.Protocol.Builder.{Builder}
use aurum.World.{World}
use aurum.State.Defs.{State}
use aurum.Kernel.{sub_size, handle_message, handle_messages, handlers}
use aurum.Kernel.RoundTrip.{Message, dispatch}
use aurum.Kernel.Reference.Parts.{message_of}

-- The messages that the lengths cut out, and whether each could be: a message is 18 bytes at least.
unfoldable pub cut : List ℕ → Bytes → List Message × Bool
cut [] content = ([], true)
cut (l ∷ ls) content =
    let rest = cut ls (drop l content) in
    if ltb (length content) l || ltb l 18
    then ([], false)
    else (message_of (take l content) ∷ rest.0, rest.1)

-- The builder is kept if all the messages could be cut out.
abbrev pub verdict : Bool → Builder × State → Outcome (Option Builder × State)
verdict complete (b, s) = ok (if complete then some b else none, s)

module _ (w : World) (ref : ℕ) where
  -- The message loop of the kernel, from a place in the frame on.
  pub handle_messages-cut :
      (ls : List ℕ) (frame front content sum : Bytes) (offset : ℕ) (b : Builder) (s : State)
      → All (λ l. l < 2 ^ 16) ls
      → length frame < 2 ^ 64
      → frame ≡ front ++ (content ++ sum)
      → length front ≡ offset
      → length sum ≡ 2
      → handle_messages w ls offset frame ref (b, s)
        ≡ (dispatch w ref (cut ls content).0 (b, s) >>= verdict (cut ls content).1)
  unfolding handle_messages cut dispatch
  handle_messages-cut [] frame front content sum offset b s h small e hf hs = refl
  handle_messages-cut (l ∷ ls) frame front content sum offset b s (hl, h) small e hf hs =
      elim (Bool-cases (ltb (length content) l)) [
        | inl outside ↦ rw (guard, outside) refl
        | inr inside ↦ elim (Bool-cases (ltb l 18)) [
          | inl short ↦ rw (guard, inside, short) refl
          | inr long ↦
              rw (guard, inside, long, handled inside long)
                (bind_through (handlers w m.opcode m.type m.tx m.payload ref (b, s)) _ _ λ (b', s').
                  handle_messages-cut ls frame (front ++ take l content) (drop l content) sum
                    (offset + l) b' s' h small (here ∙ sym (append_assoc front (take l content) _))
                    (next inside) hs)
        ]
      ]
    where
      m : Message
      m = message_of (take l content)

      room : length frame ≡ offset + length content + 2
      room = omega (
        arith,
        ap length e,
        length-append front (content ++ sum),
        length-append content sum,
        hf,
        hs,
      )

      guard : ltb (sub_size (length frame - 2) offset) l ≡ ltb (length content) l
      guard = ground (arith, room, small)

      here : frame ≡ front ++ (take l content ++ (drop l content ++ sum))
      here = e ∙ ap (λ t. front ++ t) (split_off l content sum)

      size : ltb (length content) l ≡ false → length (take l content) ≡ l
      size inside = length-take l content (ground (arith, inside))

      handled :
          ltb (length content) l ≡ false
          → ltb l 18 ≡ false
          → handle_message w offset l frame ref (b, s)
            ≡ handlers w m.opcode m.type m.tx m.payload ref (b, s)
      handled inside long =
          subst
            (λ k.
              handle_message w offset k frame ref (b, s)
              ≡ handlers w m.opcode m.type m.tx m.payload ref (b, s))
            (size inside)
            (handle_message-message_of w ref (take l content) frame front (drop l content ++ sum)
              offset (b, s) (ground (arith, size inside, long)) (omega (arith, size inside, hl))
              here hf)

      next : ltb (length content) l ≡ false → length (front ++ take l content) ≡ offset + l
      next inside = omega (arith, length-append front (take l content), size inside, hf)
