-- ===== src/Examples/Threads.antt =====
-- Two threads that remove the same session, and the theorems about interleaved calls at that run.
use aurum.Base.{ℕ, ◌≡◌, refl, ◌+◌, [], ◌∷◌, ◌++◌, All, set}
use mathlib.Core.WellFounded.{Acc}
use aurum.Outcome.{Returns}
use aurum.Bytes.{bytes_discrete}
use aurum.State.Removal.Lists.{listed}
use aurum.State.Defs.{State, find_id, erase_id, count_id}
use aurum.State.Registry.{close_socket}
use aurum.Node.Threads.{
  Todo, idle, collects_all, removes, closes, advance, happenings, System, Step, Reaches, moves,
  here, there,
}
use aurum.Node.Threads.Conserved.{
  entries, held, since, registers, disconnects, drops_it, Reaches-conserved,
}
use aurum.Node.Threads.Unique.{Sound, Reaches-Sound}
use aurum.Node.Threads.Ending.{Follows, todo-IsEnding}
use aurum.Node.Threads.Removed.{Reaches-removed}
use aurum.Examples.Setting.{world, state, state-Inv, id_of}

-- Thread `i` is left with `todo'`, and the state is `s'`.
abbrev after_piece : ℕ → Todo → Todo → State → System → System
after_piece i todo todo' s' x = record {
  state = s';
  threads = set x.threads i todo';
  log = x.log ++ happenings todo x.state;
}

-- Both threads have called `remove_session`.
abbrev both_called : System
both_called = record {
  state = state;
  threads = removes (id_of 0 ∷ []) ∷ removes (id_of 0 ∷ []) ∷ [];
  log = [];
}

abbrev erased_state : State
erased_state = record state { sessions = erase_id state.object (id_of 0) state.sessions }

-- The first thread erases the session, the second finds none, and the first closes it.
abbrev one_erased : System
one_erased = after_piece 0 (removes (id_of 0 ∷ [])) (closes 0 []) erased_state both_called

abbrev one_missed : System
one_missed = after_piece 1 (removes (id_of 0 ∷ [])) (removes []) erased_state one_erased

abbrev one_closed : System
one_closed = after_piece 0 (closes 0 []) (removes []) (close_socket world 0 erased_state) one_missed

abbrev second_ended : System
second_ended = after_piece 1 (removes []) idle one_closed.state one_closed

abbrev both_ended : System
both_ended = after_piece 0 (removes []) idle one_closed.state second_ended

erasing : Step world both_called one_erased
unfolding advance find_id erase_id bytes_discrete
erasing = moves 0 (removes (id_of 0 ∷ [])) (closes 0 []) refl refl refl refl

missing : Step world one_erased one_missed
unfolding advance find_id erase_id bytes_discrete
missing = moves 1 (removes (id_of 0 ∷ [])) (removes []) refl refl refl refl

closing : Step world one_missed one_closed
unfolding advance
closing = moves 0 (closes 0 []) (removes []) refl refl refl refl

ending_second : Step world one_closed second_ended
unfolding advance
ending_second = moves 1 (removes []) idle refl refl refl refl

ending_first : Step world second_ended both_ended
unfolding advance
ending_first = moves 0 (removes []) idle refl refl refl refl

race : Reaches world both_called both_ended
race = there erasing (there missing (there closing (there ending_second (there ending_first here))))

both_called-Sound : Sound both_called
both_called-Sound = record { inv = state-Inv; allowed = (tt, (tt, tt)) }

-- The session has been disconnected once, by the first thread.
disconnected_once : since (disconnects 0) both_ended ≡ 1
unfolding happenings
disconnected_once = refl

Reaches-conserved_example :
    entries 0 both_ended.state.sessions
      + held 0 both_ended
      + since (disconnects 0) both_ended
      + since (drops_it 0) both_ended
    ≡ entries 0 both_called.state.sessions + held 0 both_called + since (registers 0) both_ended
Reaches-conserved_example = Reaches-conserved world both_called both_ended 0 refl race

Reaches-Sound_example :
    Sound both_ended
    × All (λ todo. Returns (λ r. Unit {0}) (advance world todo both_ended.state)) both_ended.threads
Reaches-Sound_example = Reaches-Sound world both_called both_ended both_called-Sound race

Reaches-removed_example : count_id both_ended.state.object (id_of 0) both_ended.state.sessions ≡ 0
unfolding happenings listed bytes_discrete
Reaches-removed_example =
    Reaches-removed world both_called both_ended 1 (id_of 0) (removes (id_of 0 ∷ []))
      both_called-Sound refl refl race refl refl

todo-IsEnding_example : Acc (Follows world) collects_all
todo-IsEnding_example = todo-IsEnding world collects_all
