-- ===== src/Node/Threads/Conserved.antt =====
-- What becomes of a registered session when several threads add, remove and erase sessions.
use aurum.Base.{
  sum_by-set, sum_by-append, ℕ, ◌+◌, ◌≡◌, refl, ap, some, List, [], ◌∷◌, arith, if◌then◌else◌, ◌==◌,
  sum_by, sum_by-perm, Option-cases, inl, inr, length,
}
use aurum.Outcome.{Ends, returns, Ends-ok}
use aurum.Node.History.{after}
use aurum.Bytes.{Bytes}
use aurum.Session.{Session}
use aurum.World.{World, Entry}
use aurum.State.Defs.{keyed, State, find_id, erase_id, draw, post}
use aurum.State.Registry.{add_session, leave_frame}
use aurum.State.Routing.{send}
use aurum.State.Removal.{close_socket-sessions}
use aurum.State.Removal.Lists.{without, without-nil, without-cons}
use aurum.Handlers.Members.{erase_all-without}
use aurum.Node.Threads.Cases.{pick-SameSessions, erase_next-Ends, close_next-Ends}
use aurum.Node.Threads.{
  routes, send_to_node_called, Todo, idle, collects_all, adds, erases, collects, removes, closes,
  leaves, broadcasts, sends, advance, Happening, registered, disconnected, dropped, drops,
  happenings, System, Step, Reaches, moves, calls, elsewhere, here, there, Call, add_session_called,
  remove_session_called, disconnect_called, disconnect_all_called, broadcast_called,
  leave_handler_called,
}

-- How often the session is registered.
abbrev pub entries : ℕ → List Entry → ℕ
entries r es = sum_by (λ e. if e.ref == r then 1 else 0) es

-- Whether a thread has erased the session and disconnects it next.
abbrev pub taken : ℕ → Todo → ℕ
taken r (closes ref ids) = if ref == r then 1 else 0
taken r todo = 0

abbrev pub held : ℕ → System → ℕ
held r x = sum_by (taken r) x.threads

-- A registration, a disconnection or a drop of the session.
abbrev pub registers : ℕ → Happening → ℕ
registers r (registered ref) = if ref == r then 1 else 0
registers r h = 0

abbrev pub disconnects : ℕ → Happening → ℕ
disconnects r (disconnected ref) = if ref == r then 1 else 0
disconnects r h = 0

abbrev pub drops_it : ℕ → Happening → ℕ
drops_it r (dropped ref) = if ref == r then 1 else 0
drops_it r h = 0

-- How often something has happened.
abbrev pub since : (Happening → ℕ) → System → ℕ
since f x = sum_by f x.log

module _ (r : ℕ) where
  entries-erase_id :
      (o : ℕ → Session) (id : Bytes) (es : List Entry) {e : Entry}
      → find_id o id es ≡ some e
      → entries r es ≡ entries r (erase_id o id es) + (if e.ref == r then 1 else 0)
  unfolding find_id erase_id
  entries-erase_id o id [] q = cc
  entries-erase_id o id (x ∷ es) {e} q = ground (arith, entries-erase_id o id es {e = e})

  entries-drops :
      (o : ℕ → Session) (id : Bytes) (es : List Entry)
      → entries r es ≡ entries r (without o (id ∷ []) es) + sum_by (drops_it r) (drops o id es)
  unfolding drops
  entries-drops o id [] = rw (without-nil o id) refl
  entries-drops o id (e ∷ es) = ground (arith, entries-drops o id es, without-cons o id e es)

  -- Registered sessions, sessions that a thread is about to disconnect, and what has happened.
  abbrev Balanced : Todo → State → Todo → State → Type 0
  Balanced todo s todo' s' =
      let hs = happenings todo s in
      entries r s'.sessions + taken r todo' + sum_by (disconnects r) hs + sum_by (drops_it r) hs
      ≡ entries r s.sessions + taken r todo + sum_by (registers r) hs

  module _ (w : World) where
    add_session-entries :
        (ref : ℕ) (s : State)
        → entries r (add_session w ref s).1.sessions
          ≡ entries r s.sessions + sum_by (registers r) (happenings (adds ref) s)
    unfolding add_session happenings
    add_session-entries ref s =
        elim (Option-cases (find_id s.object (s.object ref).id s.sessions)) [
          | inr (e, found) ↦ rw (found, add_session, happenings) (omega arith)
          | inl missing ↦
              rw (missing, add_session, happenings)
                (omega (
                  arith,
                  sum_by-perm (λ e. if e.ref == r then 1 else 0)
                      (w.insert-perm (record { ref = ref; filed = (s.object ref).node_id })
                        s.sessions),
                ))
        ]

    adds-only :
        (ref : ℕ) (s : State)
        → sum_by (disconnects r) (happenings (adds ref) s)
            + sum_by (drops_it r) (happenings (adds ref) s)
          ≡ 0
    unfolding happenings
    adds-only ref s = elim (Option-cases (find_id s.object (s.object ref).id s.sessions)) [
      | inr (e, found) ↦ rw (found, happenings) refl
      | inl missing ↦ rw (missing, happenings) refl
    ]

    drops-only :
        (o : ℕ → Session) (id : Bytes) (es : List Entry)
        → sum_by (disconnects r) (drops o id es) + sum_by (registers r) (drops o id es) ≡ 0
    unfolding drops
    drops-only o id [] = refl
    drops-only o id (e ∷ es) = ground (arith, drops-only o id es)

    advance-Balanced :
        (todo : Todo) (s : State)
        → Ends (λ e. Unit {0}) (λ r'. Balanced todo s r'.0 r'.1) (advance w todo s)
    unfolding advance happenings
    advance-Balanced idle s = returns (omega arith)
    advance-Balanced collects_all s = returns (omega arith)
    advance-Balanced (adds ref) s =
        returns (omega (arith, add_session-entries ref s, adds-only ref s))
    advance-Balanced (erases id) s = returns (
        omega (
          arith,
          ap (entries r)
              (erase_all-without (length s.sessions) s.object id s.sessions 0 (omega arith)),
          entries-drops s.object id s.sessions,
          drops-only s.object id s.sessions,
        ))
    advance-Balanced (collects node_id) s = returns (omega arith)
    advance-Balanced (removes []) s = returns (omega arith)
    advance-Balanced (removes (id ∷ ids)) s =
        erase_next-Ends _ ids s id (λ missing. omega arith)
          (λ e found. omega (arith, entries-erase_id s.object id s.sessions {e = e} found))
    advance-Balanced (closes ref ids) s =
        let same_entries = ap (entries r) (close_socket-sessions w ref s) in
        close_next-Ends _ ids s w ref (omega (arith, same_entries)) (omega (arith, same_entries))
    advance-Balanced (leaves ref ids) s =
        after (leave_frame w _ _)
          λ frame. returns {a = (broadcasts frame ids, (draw w s).0)} (unfold draw in omega arith)
    advance-Balanced (broadcasts message ids) s = returns (omega arith)
    advance-Balanced (sends message [] ids) s = returns (omega arith)
    advance-Balanced (sends message (x ∷ rs) ids) s =
        returns {a = (sends message rs ids, send x message s)} (unfold send post in omega arith)
    advance-Balanced (routes node_id message) s = returns (
        omega (
          arith,
          ap (entries r)
              (pick-SameSessions (w.equal_range_tcp node_id (keyed s)) node_id s).sessions,
        ))

    Call-taken : {s : State} {todo : Todo} → Call s todo → taken r todo ≡ 0
    Call-taken (add_session_called ref h) = refl
    Call-taken (remove_session_called id) = refl
    Call-taken (disconnect_called node_id) = refl
    Call-taken disconnect_all_called = refl
    Call-taken (broadcast_called message) = refl
    Call-taken (send_to_node_called node_id message) = refl
    Call-taken (leave_handler_called id) = refl

    Step-conserved :
        {x y : System}
        → Step w x y
        → entries r y.state.sessions
            + held r y
            + since (disconnects r) y
            + since (drops_it r) y
            + since (registers r) x
          ≡ entries r x.state.sessions
            + held r x
            + since (disconnects r) x
            + since (drops_it r) x
            + since (registers r) y
    Step-conserved (moves {x} {y} i todo todo' at e threads log) =
        rw (threads, log)
          (omega (
            arith,
            Ends-ok e (advance-Balanced todo x.state),
            sum_by-set (taken r) x.threads i todo todo' at,
            sum_by-append (disconnects r) x.log (happenings todo x.state),
            sum_by-append (drops_it r) x.log (happenings todo x.state),
            sum_by-append (registers r) x.log (happenings todo x.state),
          ))
    Step-conserved (calls {x} {y} i todo at call state threads log) =
        rw (state, threads, log)
          (omega (arith, sum_by-set (taken r) x.threads i idle todo at, Call-taken call))
    Step-conserved (elsewhere sessions evolves sixteen threads log) =
        rw (sessions, threads, log) refl

    Reaches-sums :
        {x y : System}
        → Reaches w x y
        → entries r y.state.sessions
            + held r y
            + since (disconnects r) y
            + since (drops_it r) y
            + since (registers r) x
          ≡ entries r x.state.sessions
            + held r x
            + since (disconnects r) x
            + since (drops_it r) x
            + since (registers r) y
    Reaches-sums here = refl
    Reaches-sums (there step rest) = omega (arith, Step-conserved step, Reaches-sums rest)

-- However the threads interleave, a session is disconnected or dropped only as often as it was
-- registered: what the registry holds of it at the end, the threads that are about to disconnect it,
-- and the disconnections and drops that have happened come to what the registry and the threads had
-- of it at the start, with the registrations that have happened. In particular a
-- session that was registered once is disconnected at most once, also where several threads remove it.
pub Reaches-conserved :
    (w : World) (x y : System) (r : ℕ)
    → x.log ≡ []
    → Reaches w x y
    → entries r y.state.sessions + held r y + since (disconnects r) y + since (drops_it r) y
      ≡ entries r x.state.sessions + held r x + since (registers r) y
Reaches-conserved w x y r new run =
    let sums = Reaches-sums r w run in
    let none_since : (f : Happening → ℕ) → since f x ≡ 0 = λ f. rw new refl in
    omega
      (arith, sums, none_since (disconnects r), none_since (drops_it r), none_since (registers r))
