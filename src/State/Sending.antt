-- ===== src/State/Sending.antt =====
-- Where `state::broadcast_to_nodes` and `state::send_to_node` send.
use native.Mathlib.Nat.{mod-lt}
use mathlib.Core.Bool.{Bool-set}
use mathlib.Core.List.Perm
use aurum.Base.{
  zero, suc, ltb, ℕ, ◌+◌, ◌%◌, ◌^◌, ◌<◌, ◌≡◌, ◌⊎◌, inl, inr, refl, sym, ◌∙◌, ap, Bool, true, false,
  ◌||◌, ◌&&◌, some, List, [], ◌∷◌, ◌++◌, append_assoc, append-nil, map, arith, All, All-perm,
  length, get_elem?, sum_by, sum_by-perm, Perm, if◌then◌else◌,
}
use aurum.Bytes.{Bytes, same}
use aurum.Protocol.SessionType.{is_tcp}
use aurum.Session.{Session}
use aurum.World.{World, Entry, Keyed, IsFiled, with_node_tcp}
use aurum.State.Defs.{State, write, post, keyed}
use aurum.State.Routing.{
  visited, targets, send, send_each, broadcast_to_nodes, rr_index, rr_store, rr_advance, send_nth,
  send_in_range, send_to_node,
}

abbrev key : (ℕ → Session) → Entry → Keyed
key o e = record { entry = e; node_id = (o e.ref).node_id; type = (o e.ref).type }

-- There is a registered TCP session with the node.
pub has_tcp : (ℕ → Session) → Bytes → List Entry → Bool
has_tcp o node_id [] = false
has_tcp o node_id (e ∷ es) =
    (is_tcp (o e.ref).type && same (o e.ref).node_id node_id) || has_tcp o node_id es

-- The sessions with the node among the targets.
pub targets_of : (ℕ → Session) → Bytes → List ℕ → ℕ
targets_of o node_id rs = sum_by (λ r. if same (o r).node_id node_id then 1 else 0) rs

visited-append :
    (node_id new : Bytes) (nodes : List Bytes)
    → visited node_id (nodes ++ (new ∷ [])) ≡ visited node_id nodes || same new node_id
unfolding visited
visited-append node_id new [] = ground arith
visited-append node_id new (n ∷ nodes) = ground (arith, visited-append node_id new nodes)

targets-once :
    (o : ℕ → Session) (node_id : Bytes) (nodes : List Bytes) (es : List Entry)
    → targets_of o node_id (targets o nodes es)
      ≡ (if visited node_id nodes then 0 else if has_tcp o node_id es then 1 else 0)
unfolding targets targets_of has_tcp
targets-once o node_id nodes [] = ground arith
targets-once o node_id nodes (e ∷ es) = ground (
  arith,
  targets-once o node_id nodes es,
  targets-once o node_id (nodes ++ ((o e.ref).node_id ∷ [])) es,
  visited-append node_id (o e.ref).node_id nodes,
)

targets-tcp :
    (o : ℕ → Session) (nodes : List Bytes) (es : List Entry)
    → All (λ (r : ℕ). is_tcp (o r).type ≡ true) (targets o nodes es)
unfolding targets
targets-tcp o nodes [] = tt
targets-tcp o nodes (e ∷ es) =
    ground (arith, targets-tcp o nodes es, targets-tcp o (nodes ++ ((o e.ref).node_id ∷ [])) es)

send_each-posted :
    (rs : List ℕ) (m : Bytes) (s : State)
    → (send_each rs m s).posted ≡ s.posted ++ map (λ r. write r m) rs
unfolding send_each send post
send_each-posted [] m s = sym (append-nil s.posted)
send_each-posted (r ∷ rs) m s =
    send_each-posted rs m (send r m s)
    ∙ append_assoc s.posted (write r m ∷ []) (map (λ r'. write r' m) rs)

-- A broadcast posts writes of the message to TCP sessions only, and for each node exactly one if
-- there is a registered TCP session with it, else none.
pub broadcast_to_nodes-once :
    (message : Bytes) (s : State) (node_id : Bytes)
    → (rs : List ℕ) × ((broadcast_to_nodes message s).posted
        ≡ s.posted ++ map (λ r. write r message) rs)
      × All (λ (r : ℕ). is_tcp (s.object r).type ≡ true) rs
      × (targets_of s.object node_id rs ≡ (if has_tcp s.object node_id s.sessions then 1 else 0))
unfolding broadcast_to_nodes
broadcast_to_nodes-once message s node_id = (
  targets s.object [] s.sessions,
  send_each-posted _ message s,
  targets-tcp s.object [] s.sessions,
  targets-once s.object node_id [] s.sessions ∙ (unfold visited in refl),
)

get_elem-All :
    (P : ℕ → Type 0) (rs : List ℕ) (i : ℕ)
    → i < length rs
    → All P rs
    → (r : ℕ) × (get_elem? rs i ≡ some r) × P r
get_elem-All P [] i h all = absurd (omega arith)
get_elem-All P (r ∷ rs) zero h all = (r, refl, all.0)
get_elem-All P (r ∷ rs) (suc i) h all = get_elem-All P rs i (omega arith) all.1

pub rr_index-store :
    (node_id other : Bytes) (v : ℕ) (m : List (Bytes × ℕ))
    → rr_index other (rr_store node_id v m) ≡ (if same node_id other then v else rr_index other m)
unfolding rr_index rr_store
rr_index-store node_id other v [] = ground arith
rr_index-store node_id other v ((n, i) ∷ m) = ground (arith, rr_index-store node_id other v m)

-- The session is a TCP session with the node.
abbrev IsPeer : (ℕ → Session) → Bytes → ℕ → Type 0
IsPeer o node_id r = is_tcp (o r).type && same (o r).node_id node_id ≡ true

with_node_tcp-IsPeer :
    (o : ℕ → Session) (node_id : Bytes) (es : List Entry)
    → All (IsPeer o node_id) (with_node_tcp node_id (map (key o) es))
with_node_tcp-IsPeer o node_id [] = tt
with_node_tcp-IsPeer o node_id (e ∷ es) = ground (arith, with_node_tcp-IsPeer o node_id es)

with_node_tcp-has_tcp :
    (o : ℕ → Session) (node_id : Bytes) (es : List Entry)
    → ltb 0 (length (with_node_tcp node_id (map (key o) es))) ≡ has_tcp o node_id es
unfolding has_tcp
with_node_tcp-has_tcp o node_id [] = refl
with_node_tcp-has_tcp o node_id (e ∷ es) = ground (arith, with_node_tcp-has_tcp o node_id es)

-- One write of the message to a session of the node, and the node's index goes on by one.
pub record Sent (node_id message : Bytes) (s t : State) : Type 0 where
  pub ref : ℕ
  pub peer : is_tcp (s.object ref).type && same (s.object ref).node_id node_id ≡ true
  pub posted : t.posted ≡ s.posted ++ (write ref message ∷ [])
  pub index :
      (other : Bytes)
      → rr_index other t.round_robin_indices ≡ (
          if same node_id other
          then (rr_index node_id s.round_robin_indices + 1) % 2 ^ 64
          else rr_index other s.round_robin_indices)

send_in_range-Sent :
    (rs : List ℕ) (node_id message : Bytes) (s : State)
    → 0 < length rs
    → All (IsPeer s.object node_id) rs
    → Sent node_id message s (send_in_range rs node_id message s)
unfolding send_in_range rr_advance
send_in_range-Sent [] node_id message s h all = absurd (omega arith)
send_in_range-Sent (r ∷ rs) node_id message s h all =
    let index = rr_index node_id s.round_robin_indices in
    let (ref, at, peer) =
      get_elem-All (IsPeer s.object node_id) (r ∷ rs) (index % length (r ∷ rs)) (mod-lt index h)
        all in
    rw at (
      unfold send_nth send post in
      record {
        ref = ref;
        peer = peer;
        posted = refl;
        index = λ other. rr_index-store node_id other _ s.round_robin_indices;
      })

length-sum_by : (rs : List ℕ) → length rs ≡ sum_by (λ r. 1) rs
length-sum_by [] = refl
length-sum_by (r ∷ rs) = omega (arith, length-sum_by rs)

pub length-perm : {rs ss : List ℕ} → Perm rs ss → length rs ≡ length ss
length-perm p = length-sum_by _ ∙ sum_by-perm (λ r. 1) p ∙ sym (length-sum_by _)

module _ (w : World) where
  -- In a state in which every registered session still has the node id under which the container
  -- filed it: if a TCP session with the node is registered, one write of the message is posted to
  -- such a session, and the node's index, but no other, goes on by one; otherwise nothing happens.
  pub send_to_node-Sent :
      (node_id message : Bytes) (s : State)
      → All IsFiled (keyed s)
      → ((has_tcp s.object node_id s.sessions ≡ true)
          × Sent node_id message s (send_to_node w node_id message s))
        ⊎ ((has_tcp s.object node_id s.sessions ≡ false) × (send_to_node w node_id message s ≡ s))
  unfolding send_to_node
  send_to_node-Sent node_id message s filed =
      by_range (w.equal_range_tcp node_id (keyed s)) found peers
    where
      matching : Perm (w.equal_range_tcp node_id (keyed s)) (with_node_tcp node_id (keyed s))
      matching = w.equal_range_tcp-perm node_id (keyed s) filed

      found :
          ltb 0 (length (w.equal_range_tcp node_id (keyed s))) ≡ has_tcp s.object node_id s.sessions
      found = ap (ltb 0) (length-perm matching) ∙ with_node_tcp-has_tcp s.object node_id s.sessions

      peers : All (IsPeer s.object node_id) (w.equal_range_tcp node_id (keyed s))
      peers =
          All-perm (IsPeer s.object node_id) (λ r. Bool-set _ _) (Perm.symm matching)
            (with_node_tcp-IsPeer s.object node_id s.sessions)

      by_range :
          (rs : List ℕ)
          → ltb 0 (length rs) ≡ has_tcp s.object node_id s.sessions
          → All (IsPeer s.object node_id) rs
          → ((has_tcp s.object node_id s.sessions ≡ true)
              × Sent node_id message s (send_in_range rs node_id message s))
            ⊎ ((has_tcp s.object node_id s.sessions ≡ false)
                × (send_in_range rs node_id message s ≡ s))
      by_range [] h all = inr (sym h, unfold send_in_range in refl)
      by_range (r ∷ rs) h all =
          inl (ground arith, send_in_range-Sent (r ∷ rs) node_id message s (omega arith) all)
