-- ===== src/Node/Threads/Ending.antt =====
-- A call ends, whatever other threads do between its pieces.
use aurum.Base.{ℕ, ◌≡◌, ◌≢◌, refl, List, [], ◌∷◌}
use mathlib.Core.WellFounded.{Acc}
use aurum.Outcome.{Ends, returns, ok, Ends-ok}
use aurum.Bytes.{Bytes}
use aurum.World.{World}
use aurum.State.Defs.{State, draw}
use aurum.State.Registry.{leave_frame}
use aurum.Node.History.{after}
use aurum.Node.Threads.Cases.{erase_next-Ends, close_next-Ends}
use aurum.Node.Threads.{
  routes, Todo, idle, collects_all, adds, erases, collects, removes, closes, leaves, broadcasts,
  sends, advance,
}

-- What can be left of a call after its next piece, in whatever state the piece runs.
pub data Follows (w : World) : Todo → Todo → Type 0 where
  follows :
      {todo todo' : Todo} (s : State) {s' : State}
      → todo ≢ idle
      → advance w todo s ≡ ok (todo', s')
      → Follows w todo' todo

module _ (w : World) where
  abbrev IsEnding : Todo → Type 0
  IsEnding = Acc (Follows w)

  after_piece :
      (todo : Todo)
      → ((s : State) → Ends (λ e. Unit {0}) (λ (r : Todo × State). IsEnding r.0) (advance w todo s))
      → IsEnding todo
  after_piece todo h = Acc.intro todo λ todo' f. followed f
    where
      followed : {todo' : Todo} → Follows w todo' todo → IsEnding todo'
      followed (follows s busy e) = Ends-ok e (h s)

  idle-IsEnding : IsEnding idle
  idle-IsEnding = Acc.intro idle λ todo' f. followed f refl
    where
      followed : {todo todo' : Todo} → Follows w todo' todo → todo ≡ idle → IsEnding todo'
      followed (follows s busy e) q = absurd (busy q)

  module _ (ids : List Bytes) (rest : IsEnding (removes ids)) where
    sends-IsEnding : (message : Bytes) (rs : List ℕ) → IsEnding (sends message rs ids)
    unfolding advance
    sends-IsEnding message [] = after_piece _ λ s. returns rest
    sends-IsEnding message (r ∷ rs) = after_piece _ λ s. returns (sends-IsEnding message rs)

    broadcasts-IsEnding : (message : Bytes) → IsEnding (broadcasts message ids)
    unfolding advance
    broadcasts-IsEnding message = after_piece _ λ s. returns (sends-IsEnding message _)

    leaves-IsEnding : (ref : ℕ) → IsEnding (leaves ref ids)
    unfolding advance
    leaves-IsEnding ref = after_piece _ λ s.
        after (leave_frame w _ _)
          λ frame. returns {a = (broadcasts frame ids, (draw w s).0)} (broadcasts-IsEnding frame)

    closes-IsEnding : (ref : ℕ) → IsEnding (closes ref ids)
    unfolding advance
    closes-IsEnding ref =
        after_piece _ λ s. close_next-Ends _ ids s w ref rest (leaves-IsEnding ref)

  removes-IsEnding : (ids : List Bytes) → IsEnding (removes ids)
  unfolding advance
  removes-IsEnding [] = after_piece _ λ s. returns idle-IsEnding
  removes-IsEnding (id ∷ ids) =
      let rest = removes-IsEnding ids in
      after_piece _ λ s.
        erase_next-Ends _ ids s id (λ missing. rest) (λ e found. closes-IsEnding ids rest e.ref)

-- Every call ends: there is no endless sequence of pieces of a call, each run in any state that the
-- other threads may have left.
pub todo-IsEnding : (w : World) (todo : Todo) → Acc (Follows w) todo
unfolding advance
todo-IsEnding w idle = idle-IsEnding w
todo-IsEnding w collects_all = after_piece w _ λ s. returns (removes-IsEnding w _)
todo-IsEnding w (adds ref) = after_piece w _ λ s. returns (idle-IsEnding w)
todo-IsEnding w (erases id) = after_piece w _ λ s. returns (idle-IsEnding w)
todo-IsEnding w (collects node_id) = after_piece w _ λ s. returns (removes-IsEnding w _)
todo-IsEnding w (removes ids) = removes-IsEnding w ids
todo-IsEnding w (closes ref ids) = closes-IsEnding w ids (removes-IsEnding w ids) ref
todo-IsEnding w (leaves ref ids) = leaves-IsEnding w ids (removes-IsEnding w ids) ref
todo-IsEnding w (broadcasts message ids) =
    broadcasts-IsEnding w ids (removes-IsEnding w ids) message
todo-IsEnding w (sends message rs ids) = sends-IsEnding w ids (removes-IsEnding w ids) message rs
todo-IsEnding w (routes node_id message) =
    after_piece w _ λ s. returns (sends-IsEnding w [] (removes-IsEnding w []) message _)
