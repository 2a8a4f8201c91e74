-- ===== src/Node/History/Handlers.antt =====
-- `Evolves` for the handlers.
use aurum.Base.{
  replicate, arith, ◌≡◌, ◌-◌, ℕ, zero, suc, refl, not, ◌&&◌, ◌||◌, false, Option, none, some,
  length, ltb, leb, ◌==◌, if_cases,
}
use aurum.Outcome.{ok, returns, Ends-if, Ends-bind, ◌>>=◌}
use aurum.Bytes.{Bytes, slice, read_le}
use aurum.Protocol.Builder.{Builder}
use aurum.Protocol.MessageType
use aurum.Protocol.OpCode
use aurum.Protocol.SessionType.{is_websocket}
use aurum.Session.{set_node_id, set_port, set_host}
use aurum.World.{World}
use aurum.State.Defs.{State, assign, dial}
use aurum.Handlers.Simple.{Handler, ping_handler, whoami_handler, non_implemented_handler}
use aurum.Handlers.Identify.{read_host, record_endpoint, spawn, identify_endpoint, identify_handler}
use aurum.Handlers.Discovery.{
  read_peer, already_connected, connect_unknown, connect_peers, discovery_handler,
}
use aurum.Protocol.Response.{Peer}
use aurum.Handlers.Membership.{leave_handler, register, join_handler}
use aurum.Handlers.Table.{handlers}
use aurum.Node.History.{
  Evolves, Later, LaterWith, after, fields-Evolves, assign-Evolves, allocate-Evolves, starts_of,
  starts_of-append, posted-Evolves,
}
use aurum.Node.History.Registry.{add_session-Evolves, connect-Later}

module _ (s₀ : State) where
  -- The handler changes the state only as `Evolves` allows.
  abbrev pub IsFollowed : Handler → Type 0
  IsFollowed handler =
      (type : ℕ) (tx payload : Bytes) (ref : ℕ) (b : Builder) (s : State)
      → Evolves s₀ s
      → LaterWith s₀ (handler type tx payload ref (b, s))

  ping_handler-IsFollowed : IsFollowed ping_handler
  unfolding ping_handler
  ping_handler-IsFollowed type tx payload ref b s h =
      Ends-if (type == _) (λ _. returns h) (λ _. returns h)

  whoami_handler-IsFollowed : IsFollowed whoami_handler
  unfolding whoami_handler
  whoami_handler-IsFollowed type tx payload ref b s h =
      Ends-if (type == _) (λ _. returns h) (λ _. returns h)

  non_implemented_handler-IsFollowed : IsFollowed non_implemented_handler
  unfolding non_implemented_handler
  non_implemented_handler-IsFollowed type tx payload ref b s h =
      Ends-if (type == _) (λ _. returns h) (λ _. returns h)

  record_endpoint-Evolves :
      (port : ℕ) (host : Bytes) (ref : ℕ) (payload : Bytes) (s : State)
      → Evolves s₀ s
      → Evolves s₀ (record_endpoint port host ref payload s)
  unfolding record_endpoint set_host set_port
  record_endpoint-Evolves port host ref payload s h =
      if_cases (Evolves s₀) (ltb 20 (length payload)) _ _
        (λ _. assign-Evolves ref _ _ refl refl ported) (λ _. ported)
    where
      ported : Evolves s₀ (assign ref (set_port port (s.object ref)) s)
      ported = assign-Evolves ref _ s refl refl h

  replicate-starts_of :
      (r n : ℕ) (host : Bytes) (port : ℕ) → starts_of r (replicate n (dial host port)) ≡ 0
  replicate-starts_of r zero host port = refl
  replicate-starts_of r (suc n) host port = replicate-starts_of r n host port

  spawn-Evolves :
      (n : ℕ) (host : Bytes) (port : ℕ) (s : State)
      → Evolves s₀ s
      → Evolves s₀ (spawn n host port s)
  unfolding spawn
  spawn-Evolves n host port s h =
      if_cases (Evolves s₀) (ltb 1 n && (not (length host == 0) && not (port == 0))) _ _
        (λ _.
          posted-Evolves _ s
            (λ r. omega (
              arith,
              starts_of-append r s.posted (replicate (n - 1) (dial host port)),
              replicate-starts_of r (n - 1) host port,
            ))
            h)
        (λ _. h)

  identify_endpoint-Later :
      (tx payload : Bytes) (ref : ℕ) (b : Builder) (s : State)
      → Evolves s₀ s
      → LaterWith s₀ (identify_endpoint tx payload ref (b, s))
  unfolding identify_endpoint
  identify_endpoint-Later tx payload ref b s h = after (read_le 2 16 payload) λ connections.
      after (read_le 2 18 payload) λ port. after (read_host payload) λ host.
        returns (
          spawn-Evolves connections host port _ (record_endpoint-Evolves port host ref payload s h))

  identify_handler-IsFollowed : IsFollowed identify_handler
  unfolding identify_handler set_node_id
  identify_handler-IsFollowed type tx payload ref b s h =
      Ends-if (is_websocket (s.object ref).type) (λ _. returns h)
        λ _.
          Ends-if (ltb (length payload) 16) (λ _. returns h)
            λ _. after (slice 0 16 payload) λ remote.
              let named = assign-Evolves ref (set_node_id remote (s.object ref)) s refl refl h in
              Ends-if (type == MessageType.request && leb 20 (length payload))
                (λ _. identify_endpoint-Later tx payload ref b _ named)
                λ _.
                  Ends-if (type == MessageType.request && leb 16 (length payload))
                    (λ _. returns named) (λ _. returns named)

  leave_handler-IsFollowed : IsFollowed leave_handler
  unfolding leave_handler
  leave_handler-IsFollowed type tx payload ref b s h =
      Ends-if (is_websocket (s.object ref).type || type == MessageType.response) (λ _. returns h)
        λ _.
          Ends-if (ltb (length payload) 16) (λ _. returns h)
            λ _.
              after (slice 0 16 payload) λ id. returns (fields-Evolves s refl refl refl refl refl h)

  module _ (w : World) where
    join_handler-IsFollowed : IsFollowed (join_handler w)
    unfolding join_handler register
    join_handler-IsFollowed type tx payload ref b s h =
        Ends-if (is_websocket (s.object ref).type || type == MessageType.response) (λ _. returns h)
          λ _.
            Ends-if (ltb (length payload) 16) (λ _. returns h)
              λ _.
                after (slice 0 16 payload)
                  λ id. returns (add_session-Evolves w _ _ (allocate-Evolves _ s h))

    connect_unknown-Later :
        (peer : Peer) (s : State) → Evolves s₀ s → Later s₀ (connect_unknown w peer s)
    unfolding connect_unknown
    connect_unknown-Later (host, port) s h =
        Ends-if (already_connected s.object (host, port) s.sessions) (λ _. returns h)
          (λ _. Ends-bind (connect-Later w host port false 0 s h) (λ r k. returns k))

    connect_peers-Later :
        (n offset : ℕ) (payload : Bytes) (s : State)
        → Evolves s₀ s
        → Later s₀ (connect_peers w n offset payload s)
    unfolding connect_peers
    connect_peers-Later zero offset payload s h = returns h
    connect_peers-Later (suc n) offset payload s h =
        after (read_peer offset payload)
          (by_peer λ offset' s' k. connect_peers-Later n offset' payload s' k)
      where
        by_peer :
            ((offset' : ℕ) (s' : State)
              → Evolves s₀ s'
              → Later s₀ (connect_peers w n offset' payload s'))
            → (found : Option (Peer × ℕ))
            → Later s₀ (elim found [
              | none ↦ ok s
              | some (peer, offset') ↦
                  connect_unknown w peer s >>= λ s'. connect_peers w n offset' payload s'
            ])
        by_peer rest none = returns h
        by_peer rest (some (peer, offset')) =
            Ends-bind (connect_unknown-Later peer s h) (λ s' k. rest offset' s' k)

    discovery_handler-IsFollowed : IsFollowed (discovery_handler w)
    unfolding discovery_handler
    discovery_handler-IsFollowed type tx payload ref b s h =
        Ends-if (type == MessageType.request) (λ _. returns h)
          λ _.
            Ends-if (type == MessageType.response)
              (λ _.
                Ends-if (ltb (length payload) 4) (λ _. returns h)
                  λ _.
                    after (read_le 4 0 payload)
                      λ n. Ends-bind (connect_peers-Later n 4 payload s h) (λ s' k. returns k))
              (λ _. returns h)

    pub handlers-IsFollowed : (opcode : ℕ) → IsFollowed (handlers w opcode)
    unfolding handlers
    handlers-IsFollowed opcode =
        if_cases IsFollowed (opcode == OpCode.ping) _ _ (λ _. ping_handler-IsFollowed)
          λ _.
            if_cases IsFollowed (opcode == OpCode.identify) _ _ (λ _. identify_handler-IsFollowed)
              λ _.
                if_cases IsFollowed (opcode == OpCode.discovery) _ _
                  (λ _. discovery_handler-IsFollowed)
                  λ _.
                    if_cases IsFollowed (opcode == OpCode.join) _ _ (λ _. join_handler-IsFollowed)
                      λ _.
                        if_cases IsFollowed (opcode == OpCode.leave) _ _
                          (λ _. leave_handler-IsFollowed)
                          λ _.
                            if_cases IsFollowed (opcode == OpCode.whoami) _ _
                              (λ _. whoami_handler-IsFollowed)
                              (λ _. non_implemented_handler-IsFollowed)
