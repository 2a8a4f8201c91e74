-- ===== src/Examples/Instances.antt =====
-- The theorems at concrete inputs.
use aurum.Base.{
  ◌<◌, ◌^◌, ◌↔◌, ◌≡◌, refl, [], ◌∷◌, ◌++◌, some, arith, Option, true, false, ◌≢◌, length, take, ◌+◌,
}
use aurum.Outcome.{Returns, ◌>>=◌, Ends, payload_too_large, ok}
use aurum.Bytes.{to_le, Bytes}
use aurum.State.Defs.{State}
use aurum.State.Invariant.{Inv}
use aurum.Kernel.{handle, answer}
use aurum.Kernel.RoundTrip.{Message, encode, dispatch, handle-body}
use aurum.Protocol.Frame.{
  body, content, length_table, payloads, get_data, serialize, header_size, payload_size,
}
use aurum.Protocol.Frame.Layout.{Fits, get_data-Fits, get_data_framing}
use aurum.Protocol.Builder.{Builder, fresh}
use aurum.Protocol.MessageType
use aurum.Protocol.Response.{peers_payload}
use aurum.Handlers.Table.{handlers}
use aurum.Handlers.Replies.{Replied, handlers-request, handlers-response}
use aurum.Handlers.Discovery.{discovery_handler, connect_unknown, read_peer}
use aurum.Handlers.Peers.{discovery_handler-peers_payload, read_peer_garbles, misread}
use aurum.Kernel.Safety.{handle-Inv}
use aurum.Examples.Setting.{state-Inv, first_two, world, state, id_of}

-- A frame of a ping, cut short by its length table.
handle-Inv_example :
    Ends
      (λ e. e ≡ payload_too_large)
      (λ (a : Option Bytes × State). Inv a.1)
      (handle world (some (1 ∷ 0 ∷ 99 ∷ 0 ∷ 1 ∷ 0 ∷ (id_of 5 ++ (1 ∷ 0 ∷ [])))) 0 state)
handle-Inv_example = handle-Inv world _ 0 state (omega arith) (omega arith) state-Inv

abbrev ping_message : Message
ping_message = record { opcode = 1; type = 0; tx = id_of 5; payload = [] }

handle-body_example : handle world (some (body first_two (encode ping_message ∷ []))) 0 state ≡ (
    dispatch world 0 (ping_message ∷ []) (fresh, state) >>= λ (b, s'). answer world 0 (some b, s'))
unfolding body content length_table payloads
handle-body_example =
    handle-body world 0 (ping_message ∷ []) state (record { tx = refl; short = omega arith }, tt)
      (omega arith) (omega arith)

-- A ping, which has no payload, from TCP session 0.
handlers-request_example :
    Returns
      (Replied 1 0 (id_of 5) [] (fresh, state))
      (handlers world 1 MessageType.request (id_of 5) [] 0 (fresh, state))
handlers-request_example = handlers-request world 1 (id_of 5) [] 0 fresh state refl

-- A discovery response with a count of peers and no peer.
handlers-response_example :
    Returns
      (λ (r : Builder × State). r.0 ≡ fresh)
      (handlers world 3 MessageType.response (id_of 5) (9 ∷ 0 ∷ 0 ∷ 0 ∷ []) 0 (fresh, state))
handlers-response_example =
    handlers-response world 3 (id_of 5) (9 ∷ 0 ∷ 0 ∷ 0 ∷ []) 0 fresh state state-Inv

abbrev one_queued : Builder
one_queued = record { buffers = (1 ∷ 0 ∷ id_of 5) ∷ []; total_payload_size = 18 }

get_data-Fits_example :
    ((out : Bytes) × (get_data first_two true one_queued ≡ ok out)) ↔ Fits one_queued.buffers
unfolding payloads
get_data-Fits_example = get_data-Fits first_two true one_queued (λ e. cc) (omega arith)

get_data_framing_example :
    (rest : Bytes) × (get_data first_two false one_queued ≡ ok rest)
    × ((24 ∷ 0 ∷ 0 ∷ 0 ∷ 1 ∷ 0 ∷ 18 ∷ 0 ∷ 1 ∷ 0 ∷ (id_of 5 ++ (1 ∷ 0 ∷ [])))
        ≡ to_le 4 (length rest) ++ rest)
    × (length rest < 2 ^ 32)
unfolding get_data serialize body content payloads length_table header_size payload_size
get_data_framing_example = get_data_framing first_two one_queued _ (λ e. cc) (omega arith) refl

-- The host "n1" with port 8080.
abbrev host_n1 : Bytes
host_n1 = b'n' ∷ b'1' ∷ []

discovery_handler-peers_payload_example :
    discovery_handler world MessageType.response
      (id_of 5)
      (peers_payload ((host_n1, 8080) ∷ []))
      0
      (fresh, state)
    ≡ (connect_unknown world (host_n1, 8080) state >>= λ s'. ok (fresh, s'))
discovery_handler-peers_payload_example =
    discovery_handler-peers_payload world (id_of 5) host_n1 8080 0 fresh state
      (record { host = omega arith; port = omega arith })

-- The same host twice, with ports 8080 and 8081.
read_peer_garbles_example :
    (read : Bytes) × (read ≡ take (length host_n1) (misread host_n1 (host_n1, 8081) []))
    × (read_peer 4 (peers_payload ((host_n1, 8080) ∷ (host_n1, 8081) ∷ []))
        ≡ ok (some ((read, 8080), 8 + length host_n1)))
    × (read ≢ host_n1)
read_peer_garbles_example =
    read_peer_garbles b'n' (b'1' ∷ []) host_n1 8080 8081 []
      (record { host = omega arith; port = omega arith }) (omega arith)
