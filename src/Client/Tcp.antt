-- ===== src/Client/Tcp.antt =====
-- src/aurum/tcp_client.cpp. `none` is a call that throws, or that waits for bytes which have not
-- arrived.
use aurum.Base.{ℕ, Bool, true, false, Option, none, some, [], ◌++◌, if◌then◌else◌}
use aurum.Bytes.{Bytes, to_le, from_le}
use aurum.World.{Dial, resolve_failed, connect_failed, connected}
use aurum.Node.Stream.{exact}
use mathlib.Core.Option
use aurum.Outcome.Optional.{◌>>=◌}

pub record TcpClient : Type 0 where
  pub is_open : Bool
  -- What has been written to the socket, and what has arrived and not been read.
  pub sent : Bytes
  pub received : Bytes

unfoldable pub tcp_client : TcpClient
tcp_client = record { is_open = false; sent = []; received = [] }

-- `boost::asio::connect` and `resolve` throw if they fail.
unfoldable pub connect : Dial → TcpClient → Option TcpClient
connect resolve_failed c = none
connect connect_failed c = none
connect connected c = some (record c { is_open = true })

-- `boost::asio::write` on a closed socket throws.
unfoldable pub send : Bytes → TcpClient → Option TcpClient
send data_ c = if c.is_open then some (record c { sent = c.sent ++ data_ }) else none

-- `boost::asio::read` of exactly `n` bytes.
unfoldable pub read_exact : ℕ → TcpClient → Option (Bytes × TcpClient)
read_exact n c =
    if c.is_open
    then Option.map (λ (p : Bytes × Bytes). (p.0, record c { received = p.1 })) (exact n c.received)
    else none

-- The length header, the body, and the header written in front of the body again.
unfoldable pub read : TcpClient → Option (Bytes × TcpClient)
read c = do
  (header, c') ← read_exact 4 c
  let length_ = from_le header
  (body, c'') ← read_exact length_ c'
  some (to_le 4 length_ ++ body, c'')

unfoldable pub disconnect : TcpClient → TcpClient
disconnect c = if c.is_open then record c { is_open = false } else c
