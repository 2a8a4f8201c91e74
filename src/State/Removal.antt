-- ===== src/State/Removal.antt =====
-- Which sessions `remove_session`, `disconnect` and `disconnect_all` leave.
pub mod Lists
use aurum.State.Removal.Lists.{
  without-missing, erase_id-without, without-none, without-ids, without-without,
}
use aurum.Base.{
  ℕ, ◌≤◌, ◌≡◌, refl, sym, ◌∙◌, ap, List, [], ◌∷◌, arith, All, map, inl, inr, Option-cases, none,
  some, if◌then◌else◌, ◌==◌, Bool, true, false, if_cases, ltb, Perm,
}
use mathlib.Core.List.Perm
use aurum.Outcome.{Returns, returns, Ends-bind, Ends-mono, ok, Returns-both}
use aurum.Bytes.{Bytes, same}
use aurum.Protocol.SessionType.{SessionType, tcp, websocket}
use aurum.Session.{Session, close}
use aurum.World.{World, IsFiled}
use aurum.State.Defs.{State, keyed, draw, assign, find_id, erase_id, count_id}
use aurum.State.Routing.{broadcast_to_nodes}
use aurum.State.Registry.{
  close_socket, leave_frame, announce_leave, disconnect_session, remove_session, remove_each,
  disconnect, disconnect_all,
}
use aurum.State.Invariant.{Inv, SameSessions, broadcast-SameSessions}
use aurum.State.Invariant.Registry.{
  leave_frame-Returns, announce_leave-Inv, disconnect_session-Inv, erase-Inv, remove_session-Inv,
  close_socket-Inv,
}
use aurum.State.Counts.{find_id-some, find_id-count}
use Lists.{listed, without, other_nodes}

-- No session has changed what it is known by, the registered ones or others.
pub record SameKeys (o p : ℕ → Session) : Type 0 where
  pub id : (r : ℕ) → (p r).id ≡ (o r).id
  pub type : (r : ℕ) → (p r).type ≡ (o r).type
  pub node_id : (r : ℕ) → (p r).node_id ≡ (o r).node_id
  pub host : (r : ℕ) → (p r).host ≡ (o r).host
  pub port : (r : ℕ) → (p r).port ≡ (o r).port

SameKeys-eq : {o p : ℕ → Session} → p ≡ o → SameKeys o p
SameKeys-eq h = record {
  id = λ r. rw h;
  type = λ r. rw h;
  node_id = λ r. rw h;
  host = λ r. rw h;
  port = λ r. rw h;
}

SameKeys-trans : {o p q : ℕ → Session} → SameKeys o p → SameKeys p q → SameKeys o q
SameKeys-trans a b = record {
  id = λ r. b.id r ∙ a.id r;
  type = λ r. b.type r ∙ a.type r;
  node_id = λ r. b.node_id r ∙ a.node_id r;
  host = λ r. b.host r ∙ a.host r;
  port = λ r. b.port r ∙ a.port r;
}

-- What disconnecting one session keeps.
record Closed (s t : State) : Type 0 where
  sessions : t.sessions ≡ s.sessions
  keys : SameKeys s.object t.object

-- The sessions with the ids are gone; the others are registered in the same order as before.
pub record Removed (ids : List Bytes) (s t : State) : Type 0 where
  pub inv : Inv t
  pub sessions : t.sessions ≡ without s.object ids s.sessions
  pub keys : SameKeys s.object t.object

module _ (w : World) where
  pub close_socket-SameKeys :
      (ref : ℕ) (s : State) → SameKeys s.object (close_socket w ref s).object
  unfolding close_socket assign close
  close_socket-SameKeys ref s = record {
    id = λ r. ground arith;
    type = λ r. ground arith;
    node_id = λ r. ground arith;
    host = λ r. ground arith;
    port = λ r. ground arith;
  }

  pub close_socket-sessions : (ref : ℕ) (s : State) → (close_socket w ref s).sessions ≡ s.sessions
  unfolding close_socket assign
  close_socket-sessions ref s = ground arith

  announce_leave-Closed :
      (ref : ℕ) (s : State) → Inv s → Returns (Closed s) (announce_leave w ref s)
  unfolding announce_leave draw
  announce_leave-Closed ref s v =
      Ends-bind (leave_frame-Returns w _ _ (v.sixteen ref) (w.random-IsUuid s.clock).sixteen)
        (λ frame h.
          let b = broadcast-SameSessions frame (draw w s).0 in
          returns (record {
            sessions = unfold draw in b.sessions;
            keys = SameKeys-eq (unfold draw in b.object);
          }))

  disconnect_session-Closed :
      (ref : ℕ) (s : State) → Inv s → Returns (Closed s) (disconnect_session w ref s)
  unfolding disconnect_session
  disconnect_session-Closed ref s v = by_type (s.object ref).type
    where
      closed : Closed s (close_socket w ref s)
      closed = record { sessions = close_socket-sessions ref s; keys = close_socket-SameKeys ref s }

      by_type :
          (type : SessionType)
          → Returns (Closed s) (elim type [
            | tcp ↦ ok (close_socket w ref s)
            | websocket ↦ announce_leave w ref (close_socket w ref s)
          ])
      by_type tcp = returns closed
      by_type websocket =
          Ends-mono
            (λ t c. record {
              sessions = c.sessions ∙ closed.sessions;
              keys = SameKeys-trans closed.keys c.keys;
            })
            (announce_leave-Closed ref _ (close_socket-Inv w ref s v))

  pub remove_session-Removed :
      (id : Bytes) (s : State)
      → Inv s
      → Returns
          (λ (r : Bool × State).
            (r.0 ≡ ltb 0 (count_id s.object id s.sessions)) × Removed (id ∷ []) s r.1)
          (remove_session w id s)
  unfolding remove_session
  remove_session-Removed id s v = elim (Option-cases (find_id s.object id s.sessions)) [
    | inl missing ↦
        rw (missing, remove_session)
          (returns (
            sym (rw (find_id-count s.object id s.sessions missing)),
            record {
              inv = v;
              sessions = sym (
                  without-missing s.object id s.sessions
                    (find_id-count s.object id s.sessions missing));
              keys = SameKeys-eq refl;
            },
          ))
    | inr (e, found) ↦
        rw (found, remove_session)
          (Ends-bind
            (Returns-both (disconnect_session-Inv w e.ref _ (erase-Inv w id s v))
              (disconnect_session-Closed e.ref _ (erase-Inv w id s v)))
            (λ t h. returns (
              ground (arith, find_id-some s.object id s.sessions {e = e} found),
              record {
                inv = h.0;
                sessions = h.1.sessions ∙ erase_id-without s.object id s.sessions (v.unique id);
                keys = h.1.keys;
              },
            )))
  ]

  -- The elements are compared by the ids that the sessions had at the start.
  pub remove_each-Removed :
      (ids : List Bytes) (s : State) → Inv s → Returns (Removed ids s) (remove_each w ids s)
  unfolding remove_each
  remove_each-Removed [] s v = returns (record {
    inv = v;
    sessions = sym (without-none s.object s.sessions);
    keys = SameKeys-eq refl;
  })
  remove_each-Removed (id ∷ ids) s v = Ends-bind (remove_session-Removed id s v) (λ r h.
      Ends-mono
        (λ t g. record {
          inv = g.inv;
          sessions =
              g.sessions
              ∙ without-ids r.1.object s.object ids r.1.sessions h.1.keys.id
              ∙ ap (without s.object ids) h.1.sessions
              ∙ without-without s.object id ids s.sessions;
          keys = SameKeys-trans h.1.keys g.keys;
        })
        (remove_each-Removed ids r.1 h.1.inv))
