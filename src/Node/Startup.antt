-- ===== src/Node/Startup.antt =====
-- `main`, the constructor of `node`, `parse_args`, `run` up to its waiting for the threads, and the
-- constructors of both listeners. The configuration is made of atomics that other threads read while
-- the node starts, so every value it had is kept. The parser of the command line and the acceptors
-- are parameters.
pub mod Ready
use aurum.Base.{ℕ, zero, suc, ◌+◌, Bool, true, false, Option, none, some, List, [], ◌∷◌, suc}
use aurum.Outcome.Optional.{◌>>=◌}
use aurum.State.Defs.{Configuration, default_configuration}

-- What the parser of the command line found. A missing option reads as its default.
pub record Options : Type 0 where
  pub threads : Option ℕ
  pub port : Option ℕ
  pub websocket_port : Option ℕ
  pub connections_per_node : Option ℕ

abbrev pub or_default : ℕ → Option ℕ → ℕ
or_default default none = default
or_default default (some n) = n

pub record Node : Type 0 where
  pub configuration : Configuration
  -- The values that the configuration had before, the latest first.
  pub past : List Configuration
  -- The number of acceptors opened so far.
  pub clock : ℕ
  -- The acceptors that wait for a connection.
  pub tcp_accepting : Bool
  pub websocket_accepting : Bool
  -- The number of threads that run the io_context.
  pub thread_pool : ℕ
  pub stopped : Bool

-- The constructor of `node`, which makes a default configuration.
unfoldable pub new_node : Node
new_node = record {
  configuration = default_configuration;
  past = [];
  clock = 0;
  tcp_accepting = false;
  websocket_accepting = false;
  thread_pool = 0;
  stopped = false;
}

-- A store to one of the atomics.
unfoldable pub store : Configuration → Node → Node
store c n = record n { configuration = c; past = n.configuration ∷ n.past }

unfoldable pub store_tcp_port : ℕ → Node → Node
store_tcp_port port n = store (record n.configuration { tcp_port = port }) n

unfoldable pub store_tcp_ready : Bool → Node → Node
store_tcp_ready ready n = store (record n.configuration { tcp_ready = ready }) n

unfoldable pub store_websocket_port : ℕ → Node → Node
store_websocket_port port n = store (record n.configuration { websocket_port = port }) n

unfoldable pub store_websocket_ready : Bool → Node → Node
store_websocket_ready ready n = store (record n.configuration { websocket_ready = ready }) n

unfoldable pub store_threads : ℕ → Node → Node
store_threads threads n = store (record n.configuration { threads = threads }) n

unfoldable pub store_connections_per_node : ℕ → Node → Node
store_connections_per_node connections n =
    store (record n.configuration { connections_per_node = connections }) n

-- The four stores of `node::parse_args`, in its order.
unfoldable pub parse_args : Options → Node → Node
parse_args o n = store_connections_per_node (or_default 1 o.connections_per_node) (
    store_websocket_port (or_default 0 o.websocket_port)
      (store_threads (or_default 1 o.threads) (store_tcp_port (or_default 0 o.port) n)))

-- `tcp_listener::start` and `websocket_listener::start`: the first `do_accept`.
unfoldable pub start_tcp : Node → Node
start_tcp n = record n { tcp_accepting = true }

unfoldable pub start_websocket : Node → Node
start_websocket n = record n { websocket_accepting = true }

-- The loop that makes the threads. It reads the number of threads anew before each; nothing stores
-- to it meanwhile, so there are as many rounds.
unfoldable pub spawn_workers : ℕ → Node → Node
spawn_workers zero n = n
spawn_workers (suc rounds) n = spawn_workers rounds (record n { thread_pool = n.thread_pool + 1 })

-- `node::stop`.
unfoldable pub stop : Node → Node
stop n = record n { stopped = true }

-- `listen n port` is the port that the n-th acceptor is bound to when it asks for `port`, or `none`
-- if its constructor throws.
module _ (listen : ℕ → ℕ → Option ℕ) where
  abbrev on_bound : (ℕ → Node → Node) → Option ℕ → Node → Option Node
  on_bound stores none n = none
  on_bound stores (some port) n = some (stores port (record n { clock = n.clock + 1 }))

  -- The constructor of `tcp_listener`.
  unfoldable pub tcp_listener : Node → Option Node
  tcp_listener n =
      on_bound (λ port n'. store_tcp_ready true (store_tcp_port port n'))
        (listen n.clock n.configuration.tcp_port) n

  -- The constructor of `websocket_listener`.
  unfoldable pub websocket_listener : Node → Option Node
  websocket_listener n =
      on_bound (λ port n'. store_websocket_ready true (store_websocket_port port n'))
        (listen n.clock n.configuration.websocket_port) n

  -- `node::run`, up to the wait for the threads.
  unfoldable pub run : Node → Option Node
  run n = do
    n₁ ← tcp_listener n
    n₂ ← websocket_listener (start_tcp n₁)
    let n₃ = start_websocket n₂
    some (spawn_workers n₃.configuration.threads n₃)

  -- `main`.
  unfoldable pub launch : Options → Option Node
  launch o = run (parse_args o new_node)
