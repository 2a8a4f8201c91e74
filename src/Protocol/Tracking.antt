-- ===== src/Protocol/Tracking.antt =====
-- The size that a builder of src/aurum/protocol/frame_builder.cpp keeps beside its payloads.
use aurum.Base.{
  ℕ, ◌+◌, ◌%◌, ◌^◌, ◌≤◌, ◌≡◌, refl, List, [], ◌∷◌, ◌++◌, arith, length, length-append, All,
  All-append,
}
use aurum.Bytes.{Bytes, to_le, length-to_le}
use aurum.Protocol.SessionType.{SessionType, type_byte}
use aurum.Protocol.Builder.{Builder, fresh, push_back, flush}
use aurum.Protocol.ExitCode
use aurum.Protocol.Request
use aurum.Protocol.Response
use aurum.Protocol.Response.{Peer, peer_table, peer_hosts, peers_size}
use aurum.Protocol.Frame.{payload_size}

-- The builders that the operations of `request_builder` and `response_builder` make, in any order. A
-- uuid has 16 bytes.
pub data Built : Builder → Type 0 where
  opened : Built fresh
  flushed : {b : Builder} → Built b → Built (flush b)
  asks_ping : {b : Builder} (id : Bytes) → length id ≡ 16 → Built b → Built (Request.add_ping id b)
  asks_identify :
      {b : Builder} (node_id : Bytes) (connections : ℕ) (id : Bytes) (port : ℕ) (host : Bytes)
      → length node_id ≡ 16
      → length id ≡ 16
      → Built b
      → Built (Request.add_identify node_id connections id port host b)
  asks_discovery :
      {b : Builder} (id : Bytes) → length id ≡ 16 → Built b → Built (Request.add_discovery id b)
  asks_join :
      {b : Builder} (websocket_id id : Bytes)
      → length websocket_id ≡ 16
      → length id ≡ 16
      → Built b
      → Built (Request.add_join websocket_id id b)
  asks_leave :
      {b : Builder} (websocket_id id : Bytes)
      → length websocket_id ≡ 16
      → length id ≡ 16
      → Built b
      → Built (Request.add_leave websocket_id id b)
  asks_whoami :
      {b : Builder} (id : Bytes) → length id ≡ 16 → Built b → Built (Request.add_whoami id b)
  answers_ping :
      {b : Builder} (id : Bytes) (exit_code : ℕ)
      → length id ≡ 16
      → Built b
      → Built (Response.add_ping id exit_code b)
  answers_identify :
      {b : Builder} (id node_id : Bytes)
      → length id ≡ 16
      → length node_id ≡ 16
      → Built b
      → Built (Response.add_identify id node_id b)
  refuses :
      {b : Builder} (op : ℕ) (id : Bytes)
      → length id ≡ 16
      → Built b
      → Built (Response.add_non_implemented op id b)
  answers_discovery :
      {b : Builder} (id : Bytes) (nodes : List Peer)
      → length id ≡ 16
      → Built b
      → Built (Response.add_discovery id nodes b)
  answers_join :
      {b : Builder} (id : Bytes) (count : ℕ)
      → length id ≡ 16
      → Built b
      → Built (Response.add_join id count b)
  answers_leave :
      {b : Builder} (id : Bytes) (count : ℕ)
      → length id ≡ 16
      → Built b
      → Built (Response.add_leave id count b)
  answers_whoami :
      {b : Builder} (id session_id node_id : Bytes) (type : SessionType)
      → length id ≡ 16
      → length session_id ≡ 16
      → length node_id ≡ 16
      → Built b
      → Built (Response.add_whoami id session_id node_id type b)

-- The size kept is the one that `get_data` adds up, and each payload is a whole message.
pub record Tracked (b : Builder) : Type 0 where
  pub total : b.total_payload_size ≡ payload_size 0 b.buffers
  pub whole : All (λ (p : Bytes). 18 ≤ length p) b.buffers

payload_size-append :
    (acc : ℕ) (ps : List Bytes) (p : Bytes)
    → payload_size acc (ps ++ (p ∷ [])) ≡ (payload_size acc ps + length p) % 2 ^ 64
unfolding payload_size
payload_size-append acc [] p = refl
payload_size-append acc (q ∷ ps) p = payload_size-append ((acc + length q) % 2 ^ 64) ps p

push_back-Tracked :
    (p : Bytes) (size : ℕ) (b : Builder)
    → length p ≡ size
    → 18 ≤ size
    → Tracked b
    → Tracked (push_back p size b)
unfolding push_back
push_back-Tracked p size b h long t = record {
  total = omega (arith, h, t.total, payload_size-append 0 b.buffers p);
  whole = All-append _ b.buffers (p ∷ []) t.whole (omega (arith, h, long), tt);
}

length-peers :
    (nodes : List Peer) → length (peer_table nodes) + length (peer_hosts nodes) ≡ peers_size nodes
unfolding peer_table peer_hosts peers_size
length-peers [] = refl
length-peers ((host, port) ∷ nodes) =
    omega (arith, length-append host (peer_hosts nodes), length-peers nodes)

length-endpoint :
    (port : ℕ) (host : Bytes)
    → length (Request.endpoint port host) ≡ Request.endpoint_size port host
length-endpoint port host = ground arith

-- Whatever is queued and flushed in whatever order, the size that the builder keeps is the number of
-- payload bytes that `get_data` adds up, modulo 2^64, and each payload has the 18 bytes of a message
-- header at least, if every uuid handed over has 16 bytes.
pub Built-Tracked : {b : Builder} → Built b → Tracked b
unfolding fresh flush payload_size Request.add_ping Request.add_identify Request.add_discovery
    Request.add_join Request.add_leave Request.add_whoami Response.add_ping Response.add_identify
    Response.add_non_implemented Response.add_discovery Response.add_join Response.add_leave
    Response.add_whoami
Built-Tracked opened = record { total = refl; whole = tt }
Built-Tracked (flushed t) = record { total = refl; whole = tt }
Built-Tracked (asks_ping id h t) =
    push_back-Tracked _ 18 _ (omega (arith, h)) (omega arith) (Built-Tracked t)
Built-Tracked (asks_identify {b} node_id connections id port host hn h t) =
    push_back-Tracked _ (36 + Request.endpoint_size port host) b
      (omega (
        arith,
        length-append id (node_id ++ (to_le 2 connections ++ Request.endpoint port host)),
        length-append node_id (to_le 2 connections ++ Request.endpoint port host),
        length-endpoint port host,
        hn,
        h,
      ))
      (omega arith) (Built-Tracked t)
Built-Tracked (asks_discovery id h t) =
    push_back-Tracked _ 18 _ (omega (arith, h)) (omega arith) (Built-Tracked t)
Built-Tracked (asks_join websocket_id id hw h t) =
    push_back-Tracked _ 34 _ (omega (arith, length-append id websocket_id, hw, h)) (omega arith)
      (Built-Tracked t)
Built-Tracked (asks_leave websocket_id id hw h t) =
    push_back-Tracked _ 34 _ (omega (arith, length-append id websocket_id, hw, h)) (omega arith)
      (Built-Tracked t)
Built-Tracked (asks_whoami id h t) =
    push_back-Tracked _ 18 _ (omega (arith, h)) (omega arith) (Built-Tracked t)
Built-Tracked (answers_ping id exit_code h t) =
    push_back-Tracked _ 19 _ (omega (arith, length-append id (exit_code ∷ []), h)) (omega arith)
      (Built-Tracked t)
Built-Tracked (answers_identify id node_id h hn t) =
    push_back-Tracked _ 34 _ (omega (arith, length-append id node_id, h, hn)) (omega arith)
      (Built-Tracked t)
Built-Tracked (refuses op id h t) =
    push_back-Tracked _ 19 _ (omega (arith, length-append id (ExitCode.non_implemented ∷ []), h))
      (omega arith) (Built-Tracked t)
Built-Tracked (answers_discovery {b} id nodes h t) =
    push_back-Tracked _ (18 + 4 + peers_size nodes) b
      (omega (
        arith,
        length-append id (Response.peers_payload nodes),
        length-append (peer_table nodes) (peer_hosts nodes),
        length-peers nodes,
        h,
      ))
      (omega arith) (Built-Tracked t)
Built-Tracked (answers_join id count h t) =
    push_back-Tracked _ 26 _
      (omega (arith, length-append id (to_le 8 count), length-to_le 8 count, h)) (omega arith)
      (Built-Tracked t)
Built-Tracked (answers_leave id count h t) =
    push_back-Tracked _ 26 _
      (omega (arith, length-append id (to_le 8 count), length-to_le 8 count, h)) (omega arith)
      (Built-Tracked t)
Built-Tracked (answers_whoami id session_id node_id type h hs hn t) =
    push_back-Tracked _ 51 _
      (omega (
        arith,
        length-append id (session_id ++ (node_id ++ (type_byte type ∷ []))),
        length-append session_id (node_id ++ (type_byte type ∷ [])),
        length-append node_id (type_byte type ∷ []),
        h,
        hs,
        hn,
      ))
      (omega arith) (Built-Tracked t)
