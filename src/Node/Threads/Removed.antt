-- ===== src/Node/Threads/Removed.antt =====
-- The ids that a thread removes are gone when its call has ended, whatever other threads did.
pub mod Pieces
use aurum.Base.{
  ℕ, ◌+◌, ◌≤◌, ◌<◌, ◌≡◌, ◌⊎◌, refl, sym, ap, ◌∙◌, Bool, true, false, List, [], ◌∷◌, some, arith,
  if◌then◌else◌, sum_by, sum_by-append, Option-cases, Bool-cases, inl, inr, length, get_elem?, set,
  get_elem-set, get_elem-set_other, All-get_elem, ℕ_discrete,
}
use native.Mathlib.Nat.{le_trans}
use aurum.Outcome.{Ends, returns, ok, Ends-ok}
use aurum.Bytes.{Bytes, same}
use aurum.Protocol.SessionType.{SessionType, tcp, websocket}
use aurum.Session.{Session}
use aurum.World.{World, Entry}
use aurum.State.Defs.{State, find_id, erase_id, count_id, draw, post}
use aurum.State.Registry.{add_session, close_socket, leave_frame}
use aurum.State.Routing.{send}
use aurum.State.Counts.{
  count_id-perm, count_id-ids, count_id-below, count_id-erase_id, count_id-erase_id_le,
  find_id-count,
}
use aurum.State.Removal.{close_socket-SameKeys, close_socket-sessions}
use aurum.State.Removal.Lists.{listed}
use aurum.State.Invariant.{Inv}
use aurum.Handlers.Safety.Membership.{erase_all-le}
use aurum.Node.History.{Evolves, after}
use aurum.Node.Threads.{
  Todo, idle, collects_all, adds, erases, collects, removes, closes, leaves, broadcasts, sends,
  advance, Happening, registered, drops, happenings, System, Step, Reaches, moves, calls, elsewhere,
  here, there,
}
use aurum.Node.Threads.Conserved.{since}
use aurum.Node.Threads.Unique.{Allowed, Sound, Step-Sound, Step-Evolves, Reaches-Evolves}
use Pieces.{pending, registers_id, copies, Fewer, Due, advance-Fewer, advance-Due}

module _ (id : Bytes) (w : World) where
  -- The same for one thread of several.
  abbrev DueOf : ℕ → List Todo → State → Type 0
  DueOf k threads s =
      (copies id s ≡ 0)
      ⊎ ((todo : Todo) × (get_elem? threads k ≡ some todo) × (pending id todo ≡ true))

  idle-gone :
      (k : ℕ) (threads : List Todo) (s : State)
      → DueOf k threads s
      → get_elem? threads k ≡ some idle
      → copies id s ≡ 0
  idle-gone k threads s (inl gone) at = gone
  idle-gone k threads s (inr (todo, has, due_id)) at =
      let same_todo : todo ≡ idle = cc in
      let impossible : false ≡ true = sym (ap (pending id) same_todo) ∙ due_id in
      absurd (ground arith)

  -- The thread in question goes on, or another does.
  set-DueOf :
      (k i : ℕ) (threads : List Todo) (todo todo' : Todo) (s s' : State)
      → get_elem? threads i ≡ some todo
      → (pending id todo ≡ true → Due id (todo', s'))
      → (copies id s ≡ 0 → copies id s' ≡ 0)
      → DueOf k threads s
      → DueOf k (set threads i todo') s'
  set-DueOf k i threads todo todo' s s' at own others (inl gone) = inl (others gone)
  set-DueOf k i threads todo todo' s s' at own others (inr (todo₀, has, due_id)) =
      elim (ℕ_discrete i k) [
        | no other ↦ inr (todo₀, get_elem-set_other threads i k todo' other ∙ has, due_id)
        | yes this ↦
            let same_todo : todo ≡ todo₀ = cc in
            still this (own (ap (pending id) same_todo ∙ due_id))
      ]
    where
      still : i ≡ k → Due id (todo', s') → DueOf k (set threads i todo') s'
      still this (inl gone) = inl gone
      still this (inr due') = inr (todo', rw (← this) (get_elem-set threads i at), due')

  -- Nothing is taken out of the log.
  Step-since : (f : Happening → ℕ) {x y : System} → Step w x y → since f x ≤ since f y
  Step-since f (moves {x} i todo todo' at e threads log) =
      rw log (omega (arith, sum_by-append f x.log (happenings todo x.state)))
  Step-since f (calls i todo at call state threads log) = rw log (omega arith)
  Step-since f (elsewhere sessions evolves sixteen threads log) = rw log (omega arith)

  Reaches-since : (f : Happening → ℕ) {x y : System} → Reaches w x y → since f x ≤ since f y
  Reaches-since f here = omega arith
  Reaches-since f (there step rest) = le_trans (Step-since f step) (Reaches-since f rest)

  Step-DueOf :
      (k : ℕ) (o : ℕ → Session) {x y : System}
      → Step w x y
      → Sound x
      → ((r : ℕ) → r < x.state.next_ref → (o r).id ≡ (x.state.object r).id)
      → since (registers_id o id) y ≤ since (registers_id o id) x
      → DueOf k x.threads x.state
      → DueOf k y.threads y.state
  Step-DueOf k o (moves {x} {y} i todo todo' at e threads log) sound same_id none_new p =
      rw threads (
        set-DueOf k i x.threads todo todo' x.state y.state at
          (λ h. Ends-ok e (advance-Due id w todo x.state sound.inv h))
          (λ gone. omega (arith, fewer, none, gone)) p)
    where
      fewer : Fewer id o todo x.state (todo', y.state)
      fewer =
          Ends-ok e (
            advance-Fewer id w o todo x.state same_id (All-get_elem _ x.threads i at sound.allowed))

      none : sum_by (registers_id o id) (happenings todo x.state) ≡ 0
      none =
          let more : since (registers_id o id) y
              ≡ since (registers_id o id) x + sum_by (registers_id o id) (happenings todo x.state) =
            rw log (sum_by-append (registers_id o id) x.log (happenings todo x.state)) in
          omega arith
  Step-DueOf k o (calls {x} {y} i todo at call state threads log) sound same_id none_new p =
      rw (state, threads)
        (set-DueOf k i x.threads idle todo x.state x.state at (λ h. absurd (ground arith))
          (λ gone. gone) p)
  Step-DueOf k o (elsewhere {x} {y} sessions evolves sixteen threads log) sound same_id none_new
        (inl gone) =
      inl (
        rw
          (
            sessions,
            count_id-below y.state.object x.state.object x.state.next_ref id x.state.sessions
                sound.inv.allocated evolves.id,
          )
          gone)
  Step-DueOf k o (elsewhere {x} {y} sessions evolves sixteen threads log) sound same_id none_new
        (inr q) =
      inr (rw threads q)

  Reaches-DueOf :
      (k : ℕ) {x y : System}
      → Reaches w x y
      → Sound x
      → (o : ℕ → Session) → ((r : ℕ) → r < y.state.next_ref → (o r).id ≡ (y.state.object r).id)
      → since (registers_id o id) y ≤ since (registers_id o id) x
      → DueOf k x.threads x.state
      → DueOf k y.threads y.state
  Reaches-DueOf k here sound o same_id none_new p = p
  Reaches-DueOf k (there {x} {y} {z} step rest) sound o same_id none_new p =
      Reaches-DueOf k rest later o same_id (le_trans none_new (Step-since (registers_id o id) step))
        (Step-DueOf k o step sound
          (λ r old.
            same_id r (omega (arith, first.next_ref, second.next_ref))
            ∙ second.id r (omega (arith, first.next_ref))
            ∙ first.id r old)
          (le_trans (Reaches-since (registers_id o id) rest) none_new) p)
    where
      later : Sound y
      later = Step-Sound w step sound

      first : Evolves x.state y.state
      first = Step-Evolves w step sound

      second : Evolves y.state z.state
      second = Reaches-Evolves w rest later

-- However the threads interleave, from a system in which the state is well formed: an id that a
-- thread was to remove is registered no more when the thread's call has ended, unless a session with
-- the id was registered meanwhile. That holds of every id that `disconnect` or `disconnect_all` has
-- collected, of those in particular that another thread removes or erases first.
pub Reaches-removed :
    (w : World) (x y : System) (k : ℕ) (id : Bytes) (todo : Todo)
    → Sound x
    → get_elem? x.threads k ≡ some todo
    → pending id todo ≡ true
    → Reaches w x y
    → get_elem? y.threads k ≡ some idle
    → since (registers_id y.state.object id) y ≡ since (registers_id y.state.object id) x
    → count_id y.state.object id y.state.sessions ≡ 0
Reaches-removed w x y k id todo sound at due run ended none_new =
    idle-gone id w k y.threads y.state
      (Reaches-DueOf id w k run sound y.state.object (λ r h. refl) (omega (arith, none_new))
        (inr (todo, at, due)))
      ended
