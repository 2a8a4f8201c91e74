-- ===== src/Node/Threads/Cases.antt =====
-- The pieces that branch.
use aurum.Base.{Option, get_elem?, refl, [], ◌∷◌, ℕ, ◌≡◌, none, some, List, Option-cases, inl, inr}
use aurum.Outcome.{Fault, Ends, returns, ok}
use aurum.Bytes.{Bytes}
use aurum.Protocol.SessionType.{SessionType, tcp, websocket}
use aurum.World.{World, Entry}
use aurum.State.Defs.{keyed, State, find_id, erase_id}
use aurum.State.Registry.{close_socket}
use aurum.State.Routing.{send_to_node, send_in_range, send_nth, send_each, rr_advance}
use aurum.State.Invariant.{SameSessions, SameSessions-refl}
use aurum.Node.History.{Evolves, Evolves-refl, fields-Evolves}
use aurum.Node.Threads.{chosen, pick, Todo, removes, closes, leaves, erase_next, close_next}

module _ {F : Fault → Type 0} (P : Todo × State → Type 0) (ids : List Bytes) (s : State) where
  pub erase_next-Ends :
      (id : Bytes)
      → (find_id s.object id s.sessions ≡ none → P (removes ids, s))
      → ((e : Entry)
          → find_id s.object id s.sessions ≡ some e
          → P (closes e.ref ids, record s { sessions = erase_id s.object id s.sessions }))
      → Ends F P (erase_next id ids s)
  erase_next-Ends id missed erased = elim (Option-cases (find_id s.object id s.sessions)) [
    | inl missing ↦ rw (missing, erase_next) (returns (missed missing))
    | inr (e, found) ↦ rw (found, erase_next) (returns (erased e found))
  ]

  pub close_next-Ends :
      (w : World) (ref : ℕ)
      → P (removes ids, close_socket w ref s)
      → P (leaves ref ids, close_socket w ref s)
      → Ends F P (close_next w ref ids s)
  close_next-Ends w ref by_tcp by_websocket = by_type (s.object ref).type
    where
      by_type :
          (type : SessionType)
          → Ends F P (elim type [
            | tcp ↦ ok (removes ids, close_socket w ref s)
            | websocket ↦ ok (leaves ref ids, close_socket w ref s)
          ])
      by_type tcp = returns by_tcp
      by_type websocket = returns by_websocket

pub pick-SameSessions :
    (rs : List ℕ) (node_id : Bytes) (s : State) → SameSessions s (pick rs node_id s).1
unfolding rr_advance
pick-SameSessions [] node_id s = SameSessions-refl s
pick-SameSessions (r ∷ rs) node_id s = record {
  sessions = refl;
  object = refl;
  next_ref = refl;
  node_id = refl;
}

pub pick-Evolves : (rs : List ℕ) (node_id : Bytes) (s : State) → Evolves s (pick rs node_id s).1
unfolding rr_advance
pick-Evolves [] node_id s = Evolves-refl s
pick-Evolves (r ∷ rs) node_id s = fields-Evolves s refl refl refl refl refl (Evolves-refl s)

-- Where the target is sent to right after it was chosen.
send_in_range-pick :
    (rs : List ℕ) (node_id message : Bytes) (s : State)
    → send_in_range rs node_id message s
      ≡ send_each (pick rs node_id s).0 message (pick rs node_id s).1
unfolding send_in_range send_each
send_in_range-pick [] node_id message s = refl
send_in_range-pick (r ∷ rs) node_id message s = send_nth-chosen (get_elem? (r ∷ rs) _)
  where
    send_nth-chosen :
        (target : Option ℕ)
        → send_nth target message (rr_advance node_id s)
          ≡ send_each (chosen target) message (rr_advance node_id s)
    send_nth-chosen none = unfold send_nth send_each in refl
    send_nth-chosen (some ref) = unfold send_nth send_each in refl

pub send_to_node-pick :
    (w : World) (node_id message : Bytes) (s : State)
    → let (target, s') = pick (w.equal_range_tcp node_id (keyed s)) node_id s in
      send_to_node w node_id message s ≡ send_each target message s'
unfolding send_to_node
send_to_node-pick w node_id message s = send_in_range-pick _ node_id message s
