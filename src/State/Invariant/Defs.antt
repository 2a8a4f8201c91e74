-- ===== src/State/Invariant/Defs.antt =====
-- The well-formedness of the application state, and what keeps it because it does not touch the
-- registered sessions.
use aurum.Base.{ℕ, ◌≤◌, ◌<◌, ◌≡◌, refl, List, [], ◌∷◌, length, All}
use aurum.Bytes.{Bytes}
use aurum.State.Defs.{State, count_id, post}
use aurum.State.Routing.{send, send_each, broadcast_to_nodes}

pub record Inv (s : State) : Type 0 where
  -- No two registered sessions have the same id.
  pub unique : (id : Bytes) → count_id s.object id s.sessions ≤ 1
  -- A registered pointer is that of an object.
  pub allocated : All (λ e. e.ref < s.next_ref) s.sessions
  -- Ids are 16 bytes.
  pub sixteen : (r : ℕ) → length (s.object r).id ≡ 16
  pub self : length s.node_id ≡ 16

-- Nothing that a registered session is known by has changed.
pub record SameSessions (s t : State) : Type 0 where
  pub sessions : t.sessions ≡ s.sessions
  pub object : t.object ≡ s.object
  pub next_ref : t.next_ref ≡ s.next_ref
  pub node_id : t.node_id ≡ s.node_id

pub SameSessions-refl : (s : State) → SameSessions s s
SameSessions-refl s = record { sessions = refl; object = refl; next_ref = refl; node_id = refl }

pub send-SameSessions : (r : ℕ) (m : Bytes) (s : State) → SameSessions s (send r m s)
unfolding send post
send-SameSessions r m s = record { sessions = refl; object = refl; next_ref = refl; node_id = refl }

pub send_each-SameSessions :
    (rs : List ℕ) (m : Bytes) (s : State) → SameSessions s (send_each rs m s)
unfolding send_each send post
send_each-SameSessions [] m s = SameSessions-refl s
send_each-SameSessions (r ∷ rs) m s =
    let rest = send_each-SameSessions rs m (send r m s) in
    record {
      sessions = rest.sessions;
      object = rest.object;
      next_ref = rest.next_ref;
      node_id = rest.node_id;
    }

pub broadcast-SameSessions : (m : Bytes) (s : State) → SameSessions s (broadcast_to_nodes m s)
unfolding broadcast_to_nodes
broadcast-SameSessions m s = send_each-SameSessions _ m s

pub SameSessions-Inv : (s t : State) → SameSessions s t → Inv s → Inv t
SameSessions-Inv s t same v = record {
  unique = λ id. rw (same.object, same.sessions) (v.unique id);
  allocated = rw (same.sessions, same.next_ref) v.allocated;
  sixteen = λ r. rw same.object (v.sixteen r);
  self = rw same.node_id v.self;
}
