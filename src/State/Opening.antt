-- ===== src/State/Opening.antt =====
-- What `state::connect` does when it works, and that it does nothing when it does not.
use aurum.Base.{
  ℕ, ◌+◌, ◌≡◌, ◌⊎◌, inl, inr, refl, sym, ◌∙◌, ap, subst, Bool, true, false, [], ◌∷◌, ◌++◌,
  append_assoc, arith, Option-cases, Perm,
}
use aurum.Outcome.{Returns, returns, Ends-bind, Ends-mono, ok}
use aurum.Bytes.{Bytes}
use aurum.Protocol.SessionType.{tcp}
use aurum.Session.{tcp_session, nil_uuid}
use aurum.World.{World, Dial, resolve_failed, connect_failed, connected}
use aurum.State.Defs.{State, write, start, draw, allocate, assign, post, find_id}
use aurum.State.Registry.{add_session}
use aurum.State.Routing.{send}
use aurum.State.Connect.{connect, open_session, introduce, append_discovery}
use aurum.State.Invariant.{Inv}
use aurum.State.Invariant.Objects.{allocate-Inv, add_session-Inv}
use aurum.State.Invariant.Connect.{introduction-Fits, introduction, introduction-SameSessions}
use aurum.Protocol.Frame.Layout.{get_data-Returns}

-- The session is in the container, once more than before, or nothing has happened.
add_session-cases :
    (w : World) (ref : ℕ) (s : State)
    → (((add_session w ref s).0 ≡ true)
        × Perm
            (add_session w ref s).1.sessions
            (record { ref = ref; filed = (s.object ref).node_id } ∷ s.sessions)
        × ((add_session w ref s).1.object ≡ s.object)
        × ((add_session w ref s).1.posted ≡ s.posted))
      ⊎ (((add_session w ref s).0 ≡ false) × ((add_session w ref s).1 ≡ s))
unfolding add_session
add_session-cases w ref s = elim (Option-cases (find_id s.object (s.object ref).id s.sessions)) [
  | inr (e, found) ↦ rw (found, add_session) (inr (refl, refl))
  | inl missing ↦ rw (missing, add_session) (inl (refl, w.insert-perm _ s.sessions, refl, refl))
]

-- A TCP session has been registered, under the nil node id, and two tasks posted for it: the write
-- of a frame, then its start. Its host and port are those of a new session.
pub record Opened (s t : State) : Type 0 where
  pub ref : ℕ
  pub frame : Bytes
  pub registered : Perm t.sessions (record { ref = ref; filed = nil_uuid } ∷ s.sessions)
  pub posted : t.posted ≡ s.posted ++ (write ref frame ∷ start ref ∷ [])
  pub type : (t.object ref).type ≡ tcp
  pub node_id : (t.object ref).node_id ≡ nil_uuid
  pub host : (t.object ref).host ≡ []
  pub port : (t.object ref).port ≡ 0

-- A session is opened where a new object has been registered and its tasks posted.
opened :
    (s made t : State) (ref : ℕ) (id frame : Bytes)
    → made.sessions ≡ s.sessions
    → made.object ref ≡ tcp_session id
    → t.object ≡ made.object
    → Perm t.sessions (record { ref = ref; filed = (made.object ref).node_id } ∷ made.sessions)
    → t.posted ≡ s.posted ++ (write ref frame ∷ start ref ∷ [])
    → Opened s t
unfolding tcp_session
opened s made t ref id frame sessions new object perm posted = record {
  ref = ref;
  frame = frame;
  registered =
      subst (λ es. Perm t.sessions (record { ref = ref; filed = nil_uuid } ∷ es)) sessions
        (subst (λ k. Perm t.sessions (record { ref = ref; filed = k.node_id } ∷ made.sessions)) new
          perm);
  posted = posted;
  type = rw (object, new) refl;
  node_id = rw (object, new) refl;
  host = rw (object, new) refl;
  port = rw (object, new) refl;
}

module _ (w : World) where
  introduction-posted :
      (with_discovery : Bool) (connections : ℕ) (s : State)
      → (introduction w with_discovery connections s).1.posted ≡ s.posted
  unfolding introduction append_discovery draw
  introduction-posted false connections s = refl
  introduction-posted true connections s = refl

  introduce-posts :
      (ref : ℕ) (with_discovery : Bool) (connections : ℕ) (s : State)
      → Inv s
      → Returns
          (λ t.
            (t.sessions ≡ s.sessions)
            × (t.object ≡ s.object)
            × ((frame : Bytes) × (t.posted ≡ s.posted ++ (write ref frame ∷ start ref ∷ []))))
          (introduce w ref with_discovery connections s)
  unfolding introduce introduction post send
  introduce-posts ref with_discovery connections s v =
      let same = introduction-SameSessions w with_discovery connections s in
      Ends-bind (get_data-Returns w.crc true _ (introduction-Fits w with_discovery connections s v))
        (λ frame h. returns (
          same.sessions,
          same.object,
          (
            frame,
            append_assoc _ (write ref frame ∷ []) (start ref ∷ [])
                ∙ ap (λ ts. ts ++ (write ref frame ∷ start ref ∷ []))
                    (introduction-posted with_discovery connections s),
          ),
        ))

  -- Either nothing is registered and nothing posted, or a session has been opened.
  abbrev pub Connected : State → Bool × State → Type 0
  Connected s r =
      ((r.0 ≡ true) × Opened s r.1)
      ⊎ ((r.0 ≡ false) × (r.1.sessions ≡ s.sessions) × (r.1.posted ≡ s.posted))

  open_session-Connected :
      (with_discovery : Bool) (connections : ℕ) (s : State)
      → Inv s
      → Returns (Connected s) (open_session w with_discovery connections s)
  unfolding open_session
  open_session-Connected with_discovery connections s v = elim (add_session-cases w ref made) [
    | inr (refused, unchanged) ↦
        rw (refused, open_session)
          (returns (
            inr (
              refl,
              ap (λ (t : State). t.sessions) unchanged ∙ sessions,
              ap (λ (t : State). t.posted) unchanged ∙ untouched,
            )))
    | inl (inserted, perm, object, posted) ↦
        rw (inserted, open_session)
          (Ends-bind (introduce-posts ref with_discovery connections _ registered) (λ t h.
            let (same, object', (frame, tasks)) = h in
            returns (
              inl (
                refl,
                opened s made t ref (draw w s).1 frame sessions new (object' ∙ object)
                    (subst
                      (λ es.
                        Perm es
                          (record { ref = ref; filed = (made.object ref).node_id } ∷ made.sessions))
                      (sym same) perm)
                    (tasks
                      ∙ ap (λ ts. ts ++ (write ref frame ∷ start ref ∷ [])) (posted ∙ untouched)),
              ))))
  ]
    where
      made : State
      made = (allocate (tcp_session (draw w s).1) (draw w s).0).0

      ref : ℕ
      ref = (allocate (tcp_session (draw w s).1) (draw w s).0).1

      sessions : made.sessions ≡ s.sessions
      sessions = unfold allocate assign draw in refl

      untouched : made.posted ≡ s.posted
      untouched = unfold allocate assign draw in refl

      new : made.object ref ≡ tcp_session (draw w s).1
      new = unfold allocate assign in ground arith

      object-Inv : Inv made
      object-Inv = allocate-Inv _ _ (unfold draw tcp_session in (w.random-IsUuid s.clock).sixteen) (
          unfold draw in
          record { unique = v.unique; allocated = v.allocated; sixteen = v.sixteen; self = v.self })

      registered : Inv (add_session w ref made).1
      registered = add_session-Inv w _ _ (unfold allocate assign in omega arith) object-Inv

  -- In a well-formed state `connect` returns. Either it returns false, no session is registered and
  -- no task posted; or it returns true, a TCP session is registered in addition, under the nil node
  -- id and without the host and port that were connected to, and its tasks are a write and then the
  -- start of its reading.
  pub connect-Connected :
      (host : Bytes) (port : ℕ) (with_discovery : Bool) (connections : ℕ) (s : State)
      → Inv s
      → Returns
          (λ (r : Bool × State).
            ((r.0 ≡ true) × Opened s r.1)
            ⊎ ((r.0 ≡ false) × (r.1.sessions ≡ s.sessions) × (r.1.posted ≡ s.posted)))
          (connect w host port with_discovery connections s)
  unfolding connect
  connect-Connected host port with_discovery connections s v = by_dial (w.dial s.clock host port)
    where
      later : State
      later = record s { clock = s.clock + 1 }

      later-Inv : Inv later
      later-Inv = record {
        unique = v.unique;
        allocated = v.allocated;
        sixteen = v.sixteen;
        self = v.self;
      }

      later-Connected : (r : Bool × State) → Connected later r → Connected s r
      later-Connected r (inl (true_, o)) = inl (
        true_,
        record {
          ref = o.ref;
          frame = o.frame;
          registered = o.registered;
          posted = o.posted;
          type = o.type;
          node_id = o.node_id;
          host = o.host;
          port = o.port;
        },
      )
      later-Connected r (inr h) = inr h

      by_dial :
          (dial : Dial)
          → Returns (Connected s) (elim dial [
            | resolve_failed ↦ ok (false, later)
            | connect_failed ↦ ok (false, later)
            | connected ↦ open_session w with_discovery connections later
          ])
      by_dial resolve_failed = returns (inr (refl, refl, refl))
      by_dial connect_failed = returns (inr (refl, refl, refl))
      by_dial connected =
          Ends-mono later-Connected
            (open_session-Connected with_discovery connections later later-Inv)
