-- ===== src/Node/Threads/Removed/Pieces.antt =====
-- What one piece of a call does to the registrations of an id.
use aurum.Base.{
  ap₂, ℕ, ◌+◌, ◌≤◌, ◌<◌, ◌≡◌, ◌⊎◌, refl, Bool, true, false, List, [], ◌∷◌, some, arith,
  if◌then◌else◌, sum_by, Option-cases, Bool-cases, inl, inr, length,
}
use aurum.Outcome.{Ends, returns}
use aurum.Bytes.{Bytes, same}
use aurum.Session.{Session}
use aurum.World.{World, Entry}
use aurum.State.Defs.{keyed, State, find_id, erase_id, count_id, draw, post}
use aurum.State.Registry.{add_session, close_socket, leave_frame}
use aurum.State.Routing.{send}
use aurum.State.Counts.{
  count_id-perm, count_id-ids, count_id-erase_id, count_id-erase_id_le, find_id-count,
}
use aurum.State.Removal.{close_socket-SameKeys, close_socket-sessions}
use aurum.State.Removal.Lists.{listed}
use aurum.State.Invariant.{Inv}
use aurum.Handlers.Safety.Membership.{erase_all-le}
use aurum.Node.History.{after}
use aurum.Node.Threads.Cases.{pick-SameSessions, erase_next-Ends, close_next-Ends}
use aurum.Node.Threads.{
  routes, Todo, idle, collects_all, adds, erases, collects, removes, closes, leaves, broadcasts,
  sends, advance, Happening, registered, drops, happenings,
}
use aurum.Node.Threads.Unique.{Allowed}

-- The id is one that the thread has still to remove.
abbrev pub pending : Bytes → Todo → Bool
pending id (removes ids) = listed id ids
pending id (closes ref ids) = listed id ids
pending id (leaves ref ids) = listed id ids
pending id (broadcasts message ids) = listed id ids
pending id (sends message rs ids) = listed id ids
pending id todo = false

-- A registration of a session with the id.
abbrev pub registers_id : (ℕ → Session) → Bytes → Happening → ℕ
registers_id o id (registered ref) = if same (o ref).id id then 1 else 0
registers_id o id h = 0

-- How many registered sessions have the id.
abbrev pub copies : Bytes → State → ℕ
copies id s = count_id s.object id s.sessions

module _ (id : Bytes) where
  drops-registers_id :
      (o p : ℕ → Session) (other : Bytes) (es : List Entry)
      → sum_by (registers_id p id) (drops o other es) ≡ 0
  unfolding drops
  drops-registers_id o p other [] = refl
  drops-registers_id o p other (e ∷ es) = ground (arith, drops-registers_id o p other es)

  abbrev pub Fewer : (o : ℕ → Session) → Todo → State → Todo × State → Type 0
  Fewer o todo s r = copies id r.1 ≤ copies id s + sum_by (registers_id o id) (happenings todo s)

  -- The id is not registered, or the thread has still to remove it.
  abbrev pub Due : Todo × State → Type 0
  Due r = (copies id r.1 ≡ 0) ⊎ (pending id r.0 ≡ true)

  module _ (w : World) where
    close_socket-copies : (ref : ℕ) (s : State) → copies id (close_socket w ref s) ≡ copies id s
    close_socket-copies ref s =
        rw (close_socket-sessions w ref s)
          (count_id-ids _ s.object id s.sessions (close_socket-SameKeys w ref s).id)

    -- A piece makes the id no commoner, unless it registers a session with it.
    add_session-Fewer :
        (o : ℕ → Session) (ref : ℕ) (s : State)
        → (o ref).id ≡ (s.object ref).id
        → Fewer o (adds ref) s (idle, (add_session w ref s).1)
    unfolding add_session happenings
    add_session-Fewer o ref s same_id =
        elim (Option-cases (find_id s.object (s.object ref).id s.sessions)) [
          | inr (e, found) ↦ rw (found, add_session, happenings) (omega arith)
          | inl missing ↦
              rw (missing, add_session, happenings, same_id)
                (unfold count_id in
                  rw
                    (count_id-perm s.object id (
                      w.insert-perm (record { ref = ref; filed = (s.object ref).node_id })
                        s.sessions))
                    (unfold count_id in omega arith))
        ]

    pub advance-Fewer :
        (o : ℕ → Session) (todo : Todo) (s : State)
        → ((r : ℕ) → r < s.next_ref → (o r).id ≡ (s.object r).id)
        → Allowed s.next_ref todo
        → Ends (λ e. Unit {0}) (Fewer o todo s) (advance w todo s)
    unfolding advance happenings
    advance-Fewer o idle s same_id h = returns (omega arith)
    advance-Fewer o collects_all s same_id h = returns (omega arith)
    advance-Fewer o (adds ref) s same_id h = returns (add_session-Fewer o ref s (same_id ref h))
    advance-Fewer o (erases other) s same_id h =
        returns (omega (arith, erase_all-le (length s.sessions) s.object other id s.sessions 0))
    advance-Fewer o (collects node_id) s same_id h = returns (omega arith)
    advance-Fewer o (removes []) s same_id h = returns (omega arith)
    advance-Fewer o (removes (other ∷ ids)) s same_id h =
        erase_next-Ends _ ids s other (λ missing. omega arith)
          (λ e found. omega (arith, count_id-erase_id_le s.object other id s.sessions))
    advance-Fewer o (closes ref ids) s same_id h =
        let same_copies = close_socket-copies ref s in
        close_next-Ends _ ids s w ref (omega (arith, same_copies)) (omega (arith, same_copies))
    advance-Fewer o (leaves ref ids) s same_id h =
        after (leave_frame w _ _)
          λ frame. returns {a = (broadcasts frame ids, (draw w s).0)} (unfold draw in omega arith)
    advance-Fewer o (broadcasts message ids) s same_id h = returns (omega arith)
    advance-Fewer o (sends message [] ids) s same_id h = returns (omega arith)
    advance-Fewer o (sends message (r ∷ rs) ids) s same_id h =
        returns {a = (sends message rs ids, send r message s)} (unfold send post in omega arith)
    advance-Fewer o (routes node_id message) s same_id h =
        let same = pick-SameSessions (w.equal_range_tcp node_id (keyed s)) node_id s in
        returns (
          omega
            (arith, ap₂ (λ object sessions. count_id object id sessions) same.object same.sessions))

    due :
        (s : State) (other : Bytes) (ids : List Bytes)
        → copies other s ≡ 0
        → listed id (other ∷ ids) ≡ true
        → Due (removes ids, s)
    unfolding listed
    due s other ids gone h = elim (Bool-cases (same other id)) [
      | inl this ↦ let same_id : other ≡ id = ground arith in inl (rw (← same_id) gone)
      | inr another ↦ inr (ground arith)
    ]

    erased :
        (o : ℕ → Session) (other : Bytes) (es : List Entry) {e : Entry}
        → find_id o other es ≡ some e
        → count_id o other es ≤ 1
        → count_id o other (erase_id o other es) ≡ 0
    erased o other es {e} found unique = omega (arith, count_id-erase_id o other es {e = e} found)

    pub advance-Due :
        (todo : Todo) (s : State)
        → Inv s
        → pending id todo ≡ true
        → Ends (λ e. Unit {0}) Due (advance w todo s)
    unfolding advance listed
    advance-Due idle s v h = absurd (ground arith)
    advance-Due collects_all s v h = absurd (ground arith)
    advance-Due (adds ref) s v h = absurd (ground arith)
    advance-Due (erases other) s v h = absurd (ground arith)
    advance-Due (collects node_id) s v h = absurd (ground arith)
    advance-Due (removes []) s v h = absurd (ground arith)
    advance-Due (removes (other ∷ ids)) s v h =
        erase_next-Ends Due ids s other
          (λ missing. due s other ids (find_id-count s.object other s.sessions missing) h)
          (λ e found.
            due (record s { sessions = erase_id s.object other s.sessions }) other ids
              (erased s.object other s.sessions {e = e} found (v.unique other)) h)
    advance-Due (closes ref ids) s v h = close_next-Ends Due ids s w ref (inr h) (inr h)
    advance-Due (leaves ref ids) s v h =
        after (leave_frame w _ _)
          λ frame. returns {a = (broadcasts frame ids, (draw w s).0)} (inr h)
    advance-Due (broadcasts message ids) s v h = returns (inr h)
    advance-Due (sends message [] ids) s v h = returns (inr h)
    advance-Due (sends message (r ∷ rs) ids) s v h = returns (inr h)
    advance-Due (routes node_id message) s v h = absurd (ground arith)
