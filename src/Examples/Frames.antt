-- ===== src/Examples/Frames.antt =====
-- The theorems about whole frames and the messages in them, at concrete inputs.
use aurum.Base.{refl, ◌≡◌, [], ◌∷◌, ◌++◌, some, arith}
use aurum.Bytes.{Bytes}
use aurum.Protocol.Builder.{fresh, flush}
use aurum.Protocol.Response
use aurum.Protocol.Tracking.{
  Tracked, Built-Tracked, opened, flushed, answers_discovery, answers_leave,
}
use aurum.Kernel.{handle}
use aurum.Kernel.Reference.{parse, meaning, handle-reference}
use aurum.Kernel.Reference.Truncation.{seen, handle-seen}
use aurum.Protocol.Frame.{body, content, length_table, payloads}
use aurum.Examples.Setting.{first_two, world, state, id_of}

-- A frame of a ping, with a byte too many behind it.
abbrev padded : Bytes
padded = 1 ∷ 0 ∷ 18 ∷ 0 ∷ 1 ∷ 0 ∷ (id_of 5 ++ (9 ∷ 1 ∷ 0 ∷ []))

handle-reference_example :
    handle world (some padded) 0 state ≡ meaning world 0 (parse world.crc padded) state
handle-reference_example = handle-reference world 0 padded state (ground arith) (omega arith)

-- A discovery response with one peer, and a leave response, after a flush.
Built-Tracked_example : Tracked (
    Response.add_leave
      (id_of 6)
      1
      (Response.add_discovery (id_of 5) ((b'n' ∷ [], 8080) ∷ []) (flush fresh)))
Built-Tracked_example = Built-Tracked (
    answers_leave (id_of 6) 1 refl
      (answers_discovery (id_of 5) ((b'n' ∷ [], 8080) ∷ []) refl (flushed opened)))

abbrev ping_request : Bytes
ping_request = 1 ∷ 0 ∷ id_of 5

handle-seen_example :
    handle world (some (body first_two (ping_request ∷ []))) 0 state
    ≡ meaning world 0 (some (seen ping_request)) state
unfolding body content length_table payloads
handle-seen_example = handle-seen world 0 ping_request state (ground arith) (omega arith)
