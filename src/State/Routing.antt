-- ===== src/State/Routing.antt =====
-- `state::broadcast_to_nodes` and `state::send_to_node`.
use aurum.Base.{
  ℕ, ◌+◌, ◌%◌, ◌^◌, Bool, true, false, ◌||◌, Option, none, some, List, [], ◌∷◌, ◌++◌, length,
  get_elem?, if◌then◌else◌,
}
use aurum.Bytes.{Bytes, same}
use aurum.Protocol.SessionType.{is_tcp}
use aurum.Session.{Session}
use aurum.World.{World, Entry}
use aurum.State.Defs.{State, write, post, keyed}

-- `std::find` on `_visited_nodes`.
unfoldable pub visited : Bytes → List Bytes → Bool
visited node_id [] = false
visited node_id (n ∷ ns) = same n node_id || visited node_id ns

-- The loop over the sessions that collects one TCP session for each node id.
unfoldable pub targets : (ℕ → Session) → List Bytes → List Entry → List ℕ
targets object nodes [] = []
targets object nodes (e ∷ es) = elim (is_tcp (object e.ref).type) [
  | false ↦ targets object nodes es
  | true ↦ elim (visited (object e.ref).node_id nodes) [
    | true ↦ targets object nodes es
    | false ↦ e.ref ∷ targets object (nodes ++ ((object e.ref).node_id ∷ [])) es
  ]
]

-- `session::send` of both classes: the write is posted to the session's strand.
unfoldable pub send : ℕ → Bytes → State → State
send ref message s = post (write ref message) s

-- The loop that sends to each target.
unfoldable pub send_each : List ℕ → Bytes → State → State
send_each [] message s = s
send_each (r ∷ rs) message s = send_each rs message (send r message s)

unfoldable pub broadcast_to_nodes : Bytes → State → State
broadcast_to_nodes message s = send_each (targets s.object [] s.sessions) message s

-- `round_robin_indices_[node_id]`: a missing key reads as 0.
unfoldable pub rr_index : Bytes → List (Bytes × ℕ) → ℕ
rr_index node_id [] = 0
rr_index node_id ((n, i) ∷ m) = if same n node_id then i else rr_index node_id m

unfoldable pub rr_store : Bytes → ℕ → List (Bytes × ℕ) → List (Bytes × ℕ)
rr_store node_id v [] = (node_id, v) ∷ []
rr_store node_id v ((n, i) ∷ m) =
    if same n node_id then (n, v) ∷ m else (n, i) ∷ rr_store node_id v m

-- `round_robin_indices_[node_id]++` on a `std::size_t`.
unfoldable pub rr_advance : Bytes → State → State
rr_advance node_id s = record s {
  round_robin_indices =
      rr_store node_id ((rr_index node_id s.round_robin_indices + 1) % 2 ^ 64)
        s.round_robin_indices;
}

-- `_it` advanced to the `_index`-th element of the range; the message is sent to it.
unfoldable pub send_nth : Option ℕ → Bytes → State → State
send_nth none message s = s
send_nth (some ref) message s = send ref message s

unfoldable pub send_in_range : List ℕ → Bytes → Bytes → State → State
send_in_range [] node_id message s = s
send_in_range (r ∷ rs) node_id message s =
    let index = rr_index node_id s.round_robin_indices in
    send_nth (get_elem? (r ∷ rs) (index % length (r ∷ rs))) message (rr_advance node_id s)

unfoldable pub send_to_node : World → Bytes → Bytes → State → State
send_to_node w node_id message s =
    send_in_range (w.equal_range_tcp node_id (keyed s)) node_id message s
