-- ===== src/Node/Threads/Alone.antt =====
-- A call whose pieces no other thread interrupts is the call in one step.
use aurum.Base.{
  ℕ, ◌≡◌, refl, sym, ap, ◌∙◌, ◌↔◌, subst, List, [], ◌∷◌, length, Option-cases, inl, inr, true,
}
use aurum.Outcome.{Outcome, ok, ◌>>=◌, bind_assoc, bind-eq-ok}
use aurum.Bytes.{Bytes}
use aurum.Protocol.SessionType.{SessionType, tcp, websocket}
use aurum.World.{World}
use aurum.State.Defs.{State, draw, find_id, erase_id}
use aurum.State.Routing.{send_to_node, send_each, broadcast_to_nodes}
use aurum.State.Registry.{
  add_session, close_socket, leave_frame, announce_leave, disconnect_session, remove_session,
  remove_each, disconnect, disconnect_all,
}
use aurum.Handlers.Membership.{erase_all}
use aurum.Node.Threads.Cases.{send_to_node-pick}
use aurum.Node.Threads.{
  routes, erase_next, close_next, Todo, idle, collects_all, adds, erases, collects, removes, closes,
  leaves, broadcasts, sends, advance,
}

-- What is left of a call, done at once.
abbrev pub at_once : World → Todo → State → Outcome State
at_once w idle s = ok s
at_once w collects_all s = disconnect_all w s
at_once w (adds ref) s = ok (add_session w ref s).1
at_once w (erases id) s =
    ok (record s { sessions = (erase_all (length s.sessions) s.object id s.sessions 0).0 })
at_once w (collects node_id) s = disconnect w node_id s
at_once w (removes ids) s = remove_each w ids s
at_once w (closes ref ids) s = disconnect_session w ref s >>= remove_each w ids
at_once w (leaves ref ids) s = announce_leave w ref s >>= remove_each w ids
at_once w (broadcasts message ids) s = remove_each w ids (broadcast_to_nodes message s)
at_once w (sends message rs ids) s = remove_each w ids (send_each rs message s)
at_once w (routes node_id message) s = ok (send_to_node w node_id message s)

-- The pieces of a call, one after the other to the end.
pub data Alone (w : World) : Todo → State → State → Type 0 where
  finished : {s : State} → Alone w idle s s
  continues :
      {todo todo' : Todo} {s s' t : State}
      → advance w todo s ≡ ok (todo', s')
      → Alone w todo' s' t
      → Alone w todo s t

module _ (w : World) where
  -- A piece does a part of the call.
  advance-at_once :
      (todo : Todo) (s : State) → at_once w todo s ≡ (advance w todo s >>= λ r. at_once w r.0 r.1)
  unfolding advance disconnect_session disconnect disconnect_all remove_each remove_session
      announce_leave broadcast_to_nodes send_each
  advance-at_once idle s = refl
  advance-at_once collects_all s = refl
  advance-at_once (adds ref) s = refl
  advance-at_once (erases id) s = refl
  advance-at_once (collects node_id) s = refl
  advance-at_once (removes []) s = refl
  advance-at_once (removes (id ∷ ids)) s = elim (Option-cases (find_id s.object id s.sessions)) [
    | inl missing ↦ rw (missing, remove_session, erase_next, close_next, advance, erase_next) refl
    | inr (e, found) ↦
        rw (found, remove_session, advance, erase_next)
          (bind_assoc
            (disconnect_session w e.ref (record s { sessions = erase_id s.object id s.sessions }))
            (λ s'. ok (true, s')) (λ r. remove_each w ids r.1))
  ]
  advance-at_once (closes ref ids) s = by_type (s.object ref).type
    where
      by_type :
          (type : SessionType)
          → (elim type [
            | tcp ↦ ok (close_socket w ref s)
            | websocket ↦ announce_leave w ref (close_socket w ref s)
          ]
              >>= remove_each w ids)
            ≡ (elim type [
              | tcp ↦ ok (removes ids, close_socket w ref s)
              | websocket ↦ ok (leaves ref ids, close_socket w ref s)
            ]
                >>= λ (r : Todo × State). at_once w r.0 r.1)
      by_type tcp = refl
      by_type websocket = refl
  advance-at_once (leaves ref ids) s =
      let m = leave_frame w (s.object ref).id (draw w s).1 in
      bind_assoc m (λ frame. ok (broadcast_to_nodes frame (draw w s).0)) (remove_each w ids)
      ∙ sym
          (bind_assoc m (λ frame. ok (broadcasts frame ids, (draw w s).0)) (λ r. at_once w r.0 r.1))
  advance-at_once (broadcasts message ids) s = refl
  advance-at_once (sends message [] ids) s = refl
  advance-at_once (sends message (r ∷ rs) ids) s = refl
  advance-at_once (routes node_id message) s = ap ok (send_to_node-pick w node_id message s)

  -- With the pieces that follow, a piece ends the call.
  carry_on :
      (todo : Todo) (s : State) {r : Todo × State} {t : State}
      → advance w todo s ≡ ok r
      → at_once w todo s ≡ ok t
      → at_once w r.0 r.1 ≡ ok t
  carry_on todo s e h =
      sym (ap (λ m. m >>= λ r. at_once w r.0 r.1) e) ∙ sym (advance-at_once todo s) ∙ h

  Alone-at_once : {todo : Todo} {s t : State} → Alone w todo s t → at_once w todo s ≡ ok t
  Alone-at_once finished = refl
  Alone-at_once (continues {todo} {s} e a) =
      advance-at_once todo s ∙ ap (λ m. m >>= λ r. at_once w r.0 r.1) e ∙ Alone-at_once a

  -- The loop of `send_each`, then the loop of `remove_each`.
  sends-Alone :
      (rs : List ℕ) (message : Bytes) (ids : List Bytes)
      → ((s t : State) → remove_each w ids s ≡ ok t → Alone w (removes ids) s t)
      → (s t : State) → remove_each w ids (send_each rs message s) ≡ ok t
      → Alone w (sends message rs ids) s t
  unfolding advance send_each
  sends-Alone [] message ids rest s t h = continues refl (rest s t h)
  sends-Alone (r ∷ rs) message ids rest s t h =
      continues refl (sends-Alone rs message ids rest _ t h)

  -- The first piece of `announce_leave`, then the broadcast.
  leaves-Alone :
      (ref : ℕ) (ids : List Bytes)
      → ((s t : State) → remove_each w ids s ≡ ok t → Alone w (removes ids) s t)
      → (s t : State) → at_once w (leaves ref ids) s ≡ ok t
      → Alone w (leaves ref ids) s t
  unfolding advance broadcast_to_nodes announce_leave
  leaves-Alone ref ids rest s t h =
      let (frame, built) = frame_built in
      let e : advance w (leaves ref ids) s ≡ ok (broadcasts frame ids, (draw w s).0) =
        ap (λ m. m >>= λ f. ok (broadcasts f ids, (draw w s).0)) built in
      continues e
        (continues refl (sends-Alone _ frame ids rest _ t (carry_on (leaves ref ids) s e h)))
    where
      frame_built : (frame : Bytes) × (leave_frame w (s.object ref).id (draw w s).1 ≡ ok frame)
      frame_built =
          let (s', announced, _) = bind-eq-ok (announce_leave w ref s) (remove_each w ids) h in
          let (frame, built, _) =
            bind-eq-ok (leave_frame w (s.object ref).id (draw w s).1)
              (λ frame. ok (broadcast_to_nodes frame (draw w s).0)) announced in
          (frame, built)

  closes-Alone :
      (ref : ℕ) (ids : List Bytes)
      → ((s t : State) → remove_each w ids s ≡ ok t → Alone w (removes ids) s t)
      → (s t : State) → at_once w (closes ref ids) s ≡ ok t
      → Alone w (closes ref ids) s t
  unfolding advance
  closes-Alone ref ids rest s t h = by_type (s.object ref).type refl
    where
      by_type : (type : SessionType) → (s.object ref).type ≡ type → Alone w (closes ref ids) s t
      by_type tcp q =
          let e : advance w (closes ref ids) s ≡ ok (removes ids, close_socket w ref s) =
            rw (q, advance, close_next) refl in
          continues e (rest _ t (carry_on (closes ref ids) s e h))
      by_type websocket q =
          let e : advance w (closes ref ids) s ≡ ok (leaves ref ids, close_socket w ref s) =
            rw (q, advance, close_next) refl in
          continues e (leaves-Alone ref ids rest _ t (carry_on (closes ref ids) s e h))

  removes-Alone :
      (ids : List Bytes) (s t : State) → remove_each w ids s ≡ ok t → Alone w (removes ids) s t
  unfolding advance remove_each
  removes-Alone [] s t h =
      let same : s ≡ t = cc in continues refl (subst (Alone w idle s) same finished)
  removes-Alone (id ∷ ids) s t h = elim (Option-cases (find_id s.object id s.sessions)) [
    | inl missing ↦
        let e : advance w (removes (id ∷ ids)) s ≡ ok (removes ids, s) =
          rw (missing, advance, erase_next) refl in
        continues e (removes-Alone ids s t (carry_on (removes (id ∷ ids)) s e h))
    | inr (e, found) ↦
        let s' = record s { sessions = erase_id s.object id s.sessions } in
        let p : advance w (removes (id ∷ ids)) s ≡ ok (closes e.ref ids, s') =
          rw (found, advance, erase_next) refl in
        continues p
          (closes-Alone e.ref ids (removes-Alone ids) s' t (carry_on (removes (id ∷ ids)) s p h))
  ]

  at_once-Alone : (todo : Todo) (s t : State) → at_once w todo s ≡ ok t → Alone w todo s t
  unfolding advance disconnect disconnect_all broadcast_to_nodes remove_each
  at_once-Alone idle s t h = let same : s ≡ t = cc in subst (Alone w idle s) same finished
  at_once-Alone collects_all s t h = continues refl (removes-Alone _ s t h)
  at_once-Alone (adds ref) s t h =
      let same : (add_session w ref s).1 ≡ t = cc in
      continues refl (subst (Alone w idle (add_session w ref s).1) same finished)
  at_once-Alone (erases id) s t h =
      let left = record s {
        sessions = (erase_all (length s.sessions) s.object id s.sessions 0).0;
      } in
      let same : left ≡ t = cc in continues refl (subst (Alone w idle left) same finished)
  at_once-Alone (collects node_id) s t h = continues refl (removes-Alone _ s t h)
  at_once-Alone (removes ids) s t h = removes-Alone ids s t h
  at_once-Alone (closes ref ids) s t h = closes-Alone ref ids (removes-Alone ids) s t h
  at_once-Alone (leaves ref ids) s t h = leaves-Alone ref ids (removes-Alone ids) s t h
  at_once-Alone (broadcasts message ids) s t h =
      continues refl (sends-Alone _ message ids (removes-Alone ids) s t h)
  at_once-Alone (sends message rs ids) s t h = sends-Alone rs message ids (removes-Alone ids) s t h
  at_once-Alone (routes node_id message) s t h = continues refl (
      sends-Alone _ message [] (removes-Alone []) _ t
        (ap ok (sym (send_to_node-pick w node_id message s)) ∙ h))

-- The pieces of a call, run one after the other with nothing between them, end in a state exactly if
-- the call done at once returns, and then in the state that it returns.
pub Alone-iff-at_once :
    (w : World) (todo : Todo) (s t : State) → Alone w todo s t ↔ (at_once w todo s ≡ ok t)
Alone-iff-at_once w todo s t = (Alone-at_once w, at_once-Alone w todo s t)
