-- ===== src/Handlers/Safety/Membership.antt =====
-- The join and leave handlers.
use aurum.Base.{
  ℕ, zero, suc, ◌≤◌, ◌≡◌, ◌||◌, arith, length, ltb, ◌==◌, List, All, Option-cases, inl, inr,
}
use native.Mathlib.Nat.{le_trans}
use aurum.Outcome.{returns, Ends-if, Ends-bind}
use aurum.Bytes.{Bytes, slice-Returns}
use aurum.Protocol.MessageType
use aurum.Protocol.SessionType.{is_websocket}
use aurum.Protocol.Response
use aurum.Session.{Session, websocket_session, set_node_id}
use aurum.World.{World, Entry}
use aurum.State.Defs.{State, allocate, assign, find_id, erase_id, count_id}
use aurum.State.Counts.{count_id-erase_id_le, erase_id-All}
use aurum.State.Invariant.{Inv}
use aurum.State.Invariant.Objects.{allocate-Inv, add_session-Inv}
use aurum.Handlers.Membership.{erase_all, leave_handler, register, join_handler}
use aurum.Handlers.Safety.Defs.{IsSafe, Keeps-same, Keeps-push_back}

-- What a run of `erase_all` leaves.
pub erase_all-le :
    (fuel : ℕ) (o : ℕ → Session) (id other : Bytes) (es : List Entry) (n : ℕ)
    → count_id o other (erase_all fuel o id es n).0 ≤ count_id o other es
unfolding erase_all
erase_all-le zero o id other es n = omega arith
erase_all-le (suc fuel) o id other es n = elim (Option-cases (find_id o id es)) [
  | inl missing ↦ rw (missing, erase_all) (omega arith)
  | inr (e, found) ↦
      rw (found, erase_all)
        (le_trans (erase_all-le fuel o id other (erase_id o id es) _)
          (count_id-erase_id_le o id other es))
]

erase_all-All :
    (P : Entry → Type 0) (fuel : ℕ) (o : ℕ → Session) (id : Bytes) (es : List Entry) (n : ℕ)
    → All P es
    → All P (erase_all fuel o id es n).0
unfolding erase_all
erase_all-All P zero o id es n h = h
erase_all-All P (suc fuel) o id es n h = elim (Option-cases (find_id o id es)) [
  | inl missing ↦ rw (missing, erase_all) h
  | inr (e, found) ↦
      rw (found, erase_all)
        (erase_all-All P fuel o id (erase_id o id es) _ (erase_id-All P o id es h))
]

pub erase_all-Inv :
    (id : Bytes) (s : State)
    → Inv s
    → Inv (record s { sessions = (erase_all (length s.sessions) s.object id s.sessions 0).0 })
erase_all-Inv id s v = record {
  unique = λ other.
      le_trans (erase_all-le (length s.sessions) s.object id other s.sessions 0) (v.unique other);
  allocated = erase_all-All _ (length s.sessions) s.object id s.sessions 0 v.allocated;
  sixteen = v.sixteen;
  self = v.self;
}

pub leave_handler-IsSafe : IsSafe leave_handler
unfolding leave_handler Response.add_leave
leave_handler-IsSafe type tx payload ref b s v =
    Ends-if (is_websocket (s.object ref).type || type == MessageType.response)
      (λ _. returns (Keeps-same b s v))
      λ _.
        Ends-if (ltb (length payload) 16) (λ _. returns (Keeps-same b s v))
          λ long.
            Ends-bind (slice-Returns 0 16 payload (ground arith))
              λ id _. returns (Keeps-push_back _ _ b _ (erase_all-Inv id s v))

module _ (w : World) where
  pub register-Inv :
      (websocket_id : Bytes) (ref : ℕ) (s : State)
      → length websocket_id ≡ 16
      → Inv s
      → Inv (register w websocket_id ref s)
  unfolding register
  register-Inv websocket_id ref s h v =
      add_session-Inv w _ _ (unfold allocate assign in omega arith) (
        allocate-Inv (set_node_id (s.object ref).node_id (websocket_session websocket_id)) s
          (unfold set_node_id websocket_session in h) v)

  pub join_handler-IsSafe : IsSafe (join_handler w)
  unfolding join_handler Response.add_join
  join_handler-IsSafe type tx payload ref b s v =
      Ends-if (is_websocket (s.object ref).type || type == MessageType.response)
        (λ _. returns (Keeps-same b s v))
        λ _.
          Ends-if (ltb (length payload) 16) (λ _. returns (Keeps-same b s v))
            λ long.
              Ends-bind (slice-Returns 0 16 payload (ground arith))
                λ id sixteen. returns (Keeps-push_back _ _ b _ (register-Inv id ref s sixteen v))
