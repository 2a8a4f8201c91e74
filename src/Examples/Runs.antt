-- ===== src/Examples/Runs.antt =====
-- Runs of the functions on concrete inputs.
use aurum.Base.{◌≡◌, refl, [], ◌∷◌, ◌++◌, some, ℕ_discrete, true}
use aurum.Outcome.{ok}
use aurum.Bytes.{bytes_discrete, slice, read_le, byte_at}
use aurum.Protocol.Builder.{push_back, fresh}
use aurum.Protocol.Request
use aurum.Protocol.Response
use aurum.Protocol.Frame.{
  get_data, get_buffers, serialize, body, content, payloads, length_table, header_size,
  payload_size,
}
use aurum.Handlers.Simple.{ping_handler}
use aurum.Handlers.Table.{handlers}
use aurum.Kernel.{handle, handle_checked, read_lengths, handle_messages, handle_message, answer}
use aurum.Examples.Setting.{world, first_two, state, id_of}

-- Everything that a run of the frame builder computes with.
builds : Unit {0}
unfolding push_back fresh get_data get_buffers serialize body content payloads length_table
    header_size payload_size
builds = tt

-- Everything that a run of the kernel computes with.
handles : Unit {0}
unfolding builds handle handle_checked read_lengths handle_messages handle_message answer handlers
    slice read_le byte_at bytes_discrete ℕ_discrete
handles = tt

ping_frame :
    get_data first_two true (Request.add_ping (id_of 5) fresh)
    ≡ ok (24 ∷ 0 ∷ 0 ∷ 0 ∷ 1 ∷ 0 ∷ 18 ∷ 0 ∷ 1 ∷ 0 ∷ (id_of 5 ++ (1 ∷ 0 ∷ [])))
unfolding builds Request.add_ping
ping_frame = refl

-- A ping from TCP session 0 is answered by a frame with a header.
ping_reply :
    handle world (some (1 ∷ 0 ∷ 18 ∷ 0 ∷ 1 ∷ 0 ∷ (id_of 5 ++ (1 ∷ 0 ∷ [])))) 0 state
    ≡ ok (some (25 ∷ 0 ∷ 0 ∷ 0 ∷ 1 ∷ 0 ∷ 19 ∷ 0 ∷ 1 ∷ 1 ∷ (id_of 5 ++ (200 ∷ 1 ∷ 0 ∷ []))), state)
unfolding handles ping_handler Response.add_ping
ping_reply = refl
