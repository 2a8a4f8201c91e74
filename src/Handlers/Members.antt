-- ===== src/Handlers/Members.antt =====
-- What the join and leave handlers do to the registry, and what they answer.
use aurum.Base.{
  ap₂, ℕ, zero, suc, ◌+◌, ◌%◌, ◌^◌, ◌≤◌, ◌<◌, ◌≡◌, ◌≢◌, refl, sym, ◌∙◌, ap, subst, List, [], ◌∷◌,
  arith, take, length, length-take, Option-cases, inl, inr, ◌||◌, ◌==◌, ltb,
}
use aurum.Outcome.{Returns, returns, Ends-if}
use aurum.Bytes.{Bytes, slice_ok}
use aurum.Protocol.Builder.{Builder}
use aurum.Protocol.MessageType
use aurum.Protocol.SessionType.{tcp, is_websocket}
use aurum.Protocol.Response
use aurum.Session.{Session, websocket_session, set_node_id}
use aurum.World.{World, Entry}
use aurum.State.Defs.{State, allocate, assign, find_id, erase_id, count_id}
use aurum.State.Counts.{count_id-erase_id, find_id-count, length-erase_id}
use aurum.State.Invariant.{Inv}
use aurum.State.Invariant.Objects.{allocate-Inv, add_session-once}
use aurum.State.Removal.Lists.{without, without-erase_id, without-missing}
use aurum.Handlers.Membership.{erase_all, leave_handler, register, join_handler}

-- With a round for each element, exactly the elements with the id go.
pub erase_all-without :
    (fuel : ℕ) (o : ℕ → Session) (id : Bytes) (es : List Entry) (n : ℕ)
    → length es ≤ fuel
    → (erase_all fuel o id es n).0 ≡ without o (id ∷ []) es
unfolding erase_all
erase_all-without zero o id [] n h = sym (without-missing o id [] (unfold count_id in refl))
erase_all-without zero o id (e ∷ es) n h = absurd (omega arith)
erase_all-without (suc fuel) o id es n h = elim (Option-cases (find_id o id es)) [
  | inl missing ↦
      rw (missing, erase_all) (sym (without-missing o id es (find_id-count o id es missing)))
  | inr (e, found) ↦
      rw (found, erase_all)
        (erase_all-without fuel o id (erase_id o id es) _
            (omega (arith, length-erase_id o id es {e = e} found))
          ∙ without-erase_id o id es)
]

erase_all-count :
    (fuel : ℕ) (o : ℕ → Session) (id : Bytes) (es : List Entry) (n : ℕ)
    → length es ≤ fuel
    → n < 2 ^ 64
    → (erase_all fuel o id es n).1 ≡ (n + count_id o id es) % 2 ^ 64
unfolding erase_all count_id
erase_all-count zero o id [] n h small = omega arith
erase_all-count zero o id (e ∷ es) n h small = absurd (omega arith)
erase_all-count (suc fuel) o id es n h small = elim (Option-cases (find_id o id es)) [
  | inl missing ↦ rw (missing, erase_all) (omega (arith, find_id-count o id es missing))
  | inr (e, found) ↦
      rw (found, erase_all)
        (omega (
          arith,
          erase_all-count fuel o id (erase_id o id es) ((n + 1) % 2 ^ 64)
              (omega (arith, length-erase_id o id es {e = e} found)) (omega arith),
          count_id-erase_id o id es {e = e} found,
        ))
]

-- The loop of the leave handler ends: with at least as many rounds as there are elements, and on any
-- registry, even one in which an id occurs several times, it ends with the same result. The
-- elements with the id are gone, the others are left in their order, and the count has grown by the
-- number of elements erased, modulo 2^64.
pub erase_all_ends :
    (fuel : ℕ) (o : ℕ → Session) (id : Bytes) (es : List Entry) (count : ℕ)
    → length es ≤ fuel
    → count < 2 ^ 64
    → erase_all fuel o id es count ≡ (without o (id ∷ []) es, (count + count_id o id es) % 2 ^ 64)
erase_all_ends fuel o id es count h small =
    ap₂ (λ left erased. (left, erased)) (erase_all-without fuel o id es count h)
      (erase_all-count fuel o id es count h small)

-- A leave message from a TCP session, with at least 16 bytes of payload and not a response, removes
-- the session with the id in the payload and no other, and the answer says how many there were.
pub leave_handler-without :
    (type : ℕ) (tx payload : Bytes) (ref : ℕ) (b : Builder) (s : State)
    → Inv s
    → (s.object ref).type ≡ tcp
    → type ≢ MessageType.response
    → 16 ≤ length payload
    → Returns
        (λ (r : Builder × State).
          (r.0 ≡ Response.add_leave tx (count_id s.object (take 16 payload) s.sessions) b)
          × (r.1.sessions ≡ without s.object (take 16 payload ∷ []) s.sessions))
        (leave_handler type tx payload ref (b, s))
unfolding leave_handler
leave_handler-without type tx payload ref b s v t ne long =
    Ends-if (is_websocket (s.object ref).type || type == MessageType.response)
      (λ e. absurd (ground arith))
      λ _.
        Ends-if (ltb (length payload) 16) (λ short. absurd (ground arith))
          λ _. rw (slice_ok 0 16 payload long) (
            returns (
              ap (λ n. Response.add_leave tx n b) (counted (take 16 payload)),
              erase_all-without (length s.sessions) s.object (take 16 payload) s.sessions 0
                  (omega arith),
            ))
  where
    counted :
        (id : Bytes)
        → (erase_all (length s.sessions) s.object id s.sessions 0).1
          ≡ count_id s.object id s.sessions
    counted id = omega (
      arith,
      erase_all-count (length s.sessions) s.object id s.sessions 0 (omega arith) (omega arith),
      v.unique id,
    )

module _ (w : World) where
  pub register-once :
      (websocket_id : Bytes) (ref : ℕ) (s : State)
      → length websocket_id ≡ 16
      → Inv s
      → count_id
          (register w websocket_id ref s).object
          websocket_id
          (register w websocket_id ref s).sessions
        ≡ 1
  unfolding register
  register-once websocket_id ref s h v =
      subst
        (λ id.
          count_id (register w websocket_id ref s).object id
            (register w websocket_id ref s).sessions
          ≡ 1)
        same_id (add_session-once w _ _ (allocate-Inv session s session_id v))
    where
      session : Session
      session = set_node_id (s.object ref).node_id (websocket_session websocket_id)

      session_id : length session.id ≡ 16
      session_id = unfold set_node_id websocket_session in h

      same_id : ((allocate session s).0.object (allocate session s).1).id ≡ websocket_id
      same_id = unfold allocate assign set_node_id websocket_session in ground arith

  -- A join message from a TCP session, with at least 16 bytes of payload and not a response, leaves
  -- the id in the payload registered once, whether or not it was before, and the answer says so.
  pub join_handler-once :
      (type : ℕ) (tx payload : Bytes) (ref : ℕ) (b : Builder) (s : State)
      → Inv s
      → (s.object ref).type ≡ tcp
      → type ≢ MessageType.response
      → 16 ≤ length payload
      → Returns
          (λ (r : Builder × State).
            (r.0 ≡ Response.add_join tx 1 b)
            × (count_id r.1.object (take 16 payload) r.1.sessions ≡ 1))
          (join_handler w type tx payload ref (b, s))
  unfolding join_handler
  join_handler-once type tx payload ref b s v t ne long =
      Ends-if (is_websocket (s.object ref).type || type == MessageType.response)
        (λ e. absurd (ground arith))
        λ _.
          Ends-if (ltb (length payload) 16) (λ short. absurd (ground arith))
            λ _. rw (slice_ok 0 16 payload long) (
              returns (
                ap (λ n. Response.add_join tx n b)
                    (register-once (take 16 payload) ref s (length-take 16 payload long) v),
                register-once (take 16 payload) ref s (length-take 16 payload long) v,
              ))
