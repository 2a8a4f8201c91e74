-- ===== src/Client/Websocket.antt =====
-- src/aurum/websocket_client.cpp. `none` is a call that throws, or that waits for a message which
-- has not arrived.
use aurum.Base.{Bool, true, false, Option, none, some, List, [], ◌∷◌, ◌++◌, if◌then◌else◌}
use aurum.Bytes.{Bytes}
use aurum.World.{Dial, resolve_failed, connect_failed, connected}

pub record WebsocketClient : Type 0 where
  pub is_open : Bool
  pub sent : List Bytes
  -- The messages that have arrived and not been read.
  pub received : List Bytes

-- The outcomes of resolving, connecting, and of the handshake, which throws if it fails.
unfoldable pub connect : Dial → Bool → WebsocketClient → Bool × WebsocketClient
connect resolve_failed shaken c = (false, c)
connect connect_failed shaken c = (false, c)
connect connected false c = (false, c)
connect connected true c = (true, record c { is_open = true })

unfoldable pub send : Bytes → WebsocketClient → Option WebsocketClient
send message c = if c.is_open then some (record c { sent = c.sent ++ (message ∷ []) }) else none

-- A read returns one whole message.
unfoldable pub read : WebsocketClient → Option (Bytes × WebsocketClient)
read c =
    if c.is_open
    then elim c.received [
      | [] ↦ none
      | message ∷ messages ↦ some (message, record c { received = messages })
    ]
    else none

unfoldable pub disconnect : WebsocketClient → WebsocketClient
disconnect c = if c.is_open then record c { is_open = false } else c
