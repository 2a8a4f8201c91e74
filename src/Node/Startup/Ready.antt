-- ===== src/Node/Startup/Ready.antt =====
-- What other threads see of a node that starts.
use aurum.Base.{
  refl, some, none, inl, inr, ℕ, zero, suc, ◌+◌, Option-cases, ◌≡◌, true, ◌∷◌, All, Option, false,
  none, ◌↔◌, ◌⊎◌, arith,
}
use aurum.State.Defs.{Configuration}
use aurum.Node.Startup.{
  Options, Node, or_default, spawn_workers, launch, run, tcp_listener, websocket_listener,
  parse_args, new_node, store, store_tcp_port, store_tcp_ready, store_websocket_port,
  store_websocket_ready, store_threads, store_connections_per_node, start_tcp, start_websocket,
}

-- A port that is marked ready is the bound one.
pub record Ready (tcp_bound websocket_bound : ℕ) (c : Configuration) : Type 0 where
  pub tcp : c.tcp_ready ≡ true → c.tcp_port ≡ tcp_bound
  pub websocket : c.websocket_ready ≡ true → c.websocket_port ≡ websocket_bound

-- A node that has started with these options and these bound ports.
pub record Started (o : Options) (tcp_bound websocket_bound : ℕ) (n : Node) : Type 0 where
  pub configuration : n.configuration ≡ record {
    threads = or_default 1 o.threads;
    tcp_port = tcp_bound;
    connections_per_node = or_default 1 o.connections_per_node;
    tcp_ready = true;
    websocket_port = websocket_bound;
    websocket_ready = true;
  }
  pub tcp_accepting : n.tcp_accepting ≡ true
  pub websocket_accepting : n.websocket_accepting ≡ true
  pub thread_pool : n.thread_pool ≡ or_default 1 o.threads
  pub seen : All (Ready tcp_bound websocket_bound) (n.configuration ∷ n.past)

spawn_workers_lem :
    (k : ℕ) (n : Node) → spawn_workers k n ≡ record n { thread_pool = n.thread_pool + k }
unfolding spawn_workers
spawn_workers_lem zero n =
    let same : n.thread_pool + 0 ≡ n.thread_pool = omega arith in rw same refl
spawn_workers_lem (suc k) n =
    let count : n.thread_pool + 1 + k ≡ n.thread_pool + suc k = omega arith in
    rw (spawn_workers_lem k (record n { thread_pool = n.thread_pool + 1 }), count) refl

module _ (p q : ℕ) where
  no_port-Ready :
      (c : Configuration) → c.tcp_ready ≡ false → c.websocket_ready ≡ false → Ready p q c
  no_port-Ready c ht hw = record { tcp = λ e. cc; websocket = λ e. cc }

  tcp_port-Ready : (c : Configuration) → c.tcp_port ≡ p → c.websocket_ready ≡ false → Ready p q c
  tcp_port-Ready c h hw = record { tcp = λ e. h; websocket = λ e. cc }

  both_ports-Ready : (c : Configuration) → c.tcp_port ≡ p → c.websocket_port ≡ q → Ready p q c
  both_ports-Ready c h k = record { tcp = λ e. h; websocket = λ e. k }

module _ (listen : ℕ → ℕ → Option ℕ) (o : Options) where
  -- If both acceptors can be bound, then the node starts with the options of the command line or
  -- their defaults, except that the ports are the bound ones. It accepts connections on both and
  -- runs as many threads as asked for. Whenever another thread sees a ready flag set during the
  -- start, the port that it then reads is the bound one and not the one asked for.
  pub launch-Started :
      (p q : ℕ)
      → listen 0 (or_default 0 o.port) ≡ some p
      → listen 1 (or_default 0 o.websocket_port) ≡ some q
      → (n : Node) × (launch listen o ≡ some n) × Started o p q n
  unfolding launch run tcp_listener websocket_listener parse_args new_node store store_tcp_port
      store_tcp_ready store_websocket_port store_websocket_ready store_threads
      store_connections_per_node start_tcp start_websocket
  launch-Started p q hp hq = (
    started,
    rw (hp, hq, spawn_workers_lem (or_default 1 o.threads) _) refl,
    record {
      configuration = refl;
      tcp_accepting = refl;
      websocket_accepting = refl;
      thread_pool = omega arith;
      seen = (
        both_ports-Ready p q _ refl refl,
        (
          both_ports-Ready p q _ refl refl,
          (
            tcp_port-Ready p q _ refl refl,
            (
              tcp_port-Ready p q _ refl refl,
              (
                no_port-Ready p q _ refl refl,
                (
                  no_port-Ready p q _ refl refl,
                  (
                    no_port-Ready p q _ refl refl,
                    (no_port-Ready p q _ refl refl, (no_port-Ready p q _ refl refl, tt)),
                  ),
                ),
              ),
            ),
          ),
        ),
      );
    },
  )
    where
      on_tcp : Node
      on_tcp =
          store_tcp_ready true (store_tcp_port p (record (parse_args o new_node) { clock = 1 }))

      on_both : Node
      on_both =
          store_websocket_ready true
            (store_websocket_port q (record (start_tcp on_tcp) { clock = 2 }))

      started : Node
      started = record (start_websocket on_both) { thread_pool = 0 + or_default 1 o.threads }

  -- The start throws exactly if one of the acceptors cannot be bound.
  pub launch_throws : (launch listen o ≡ none) ↔ (
      (listen 0 (or_default 0 o.port) ≡ none) ⊎ (listen 1 (or_default 0 o.websocket_port) ≡ none))
  unfolding launch run tcp_listener websocket_listener parse_args new_node store store_tcp_port
      store_tcp_ready store_websocket_port store_websocket_ready store_threads
      store_connections_per_node start_tcp start_websocket
  launch_throws = (
    λ thrown. elim (Option-cases (listen 0 (or_default 0 o.port))) [
      | inl no_tcp ↦ inl no_tcp
      | inr (p, hp) ↦ elim (Option-cases (listen 1 (or_default 0 o.websocket_port))) [
        | inl no_websocket ↦ inr no_websocket
        | inr (q, hq) ↦ let (n, started, _) = launch-Started p q hp hq in absurd cc
      ]
    ],
    λ unbound. elim unbound [
      | inl no_tcp ↦ rw no_tcp refl
      | inr no_websocket ↦ elim (Option-cases (listen 0 (or_default 0 o.port))) [
        | inl no_tcp ↦ rw no_tcp refl
        | inr (p, hp) ↦ rw (hp, no_websocket) refl
      ]
    ],
  )
