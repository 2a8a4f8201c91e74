-- ===== src/Examples/Turns.antt =====
-- A connection is accepted, started and lost, and the theorems about reads in turn at that run.
use aurum.Base.{◌≡◌, refl, [], ◌++◌, ◌==◌, if◌then◌else◌}
use aurum.Bytes.{bytes_discrete}
use aurum.Session.{close, tcp_session}
use aurum.State.Defs.{
  assign, allocate, draw, post, find_id, erase_id, default_configuration, count_id,
}
use aurum.State.Registry.{remove_session, disconnect_session, close_socket, add_session}
use aurum.Node.Reading.{header, stopped, on_header, stop_reading, drop_session}
use aurum.Node.Listeners.{accept_tcp, initial}
use aurum.Node.Steps.{tcp_accepted, run_event, take_task}
use aurum.Node.History.{starts_of}
use aurum.Node.Turns.{
  Program, Waiting, unstarted, reads, Turns, begins, happens, here, there, boot, finish, Loses,
  read_fails,
}
use aurum.Node.Turns.Once.{Turns-started_once}
use aurum.Node.Turns.Stopped.{Turns-stay_stopped}
use aurum.Examples.Setting.{world}

abbrev connected : Program
connected = record {
  state = accept_tcp world (initial world default_configuration);
  waiting = λ r. unstarted;
}

abbrev waiting_for : Waiting → Program
waiting_for v = record {
  state = take_task world [] [] connected.state;
  waiting = λ r. if r == 0 then v else unstarted;
}

-- The read of the first header ends with an error.
abbrev lost : Program
lost = record {
  state =
      assign 0 (close (connected.state.object 0))
        (record connected.state { posted = []; sessions = [] });
  waiting = λ r. if r == 0 then reads stopped else if r == 0 then reads header else unstarted;
}

connecting : Turns world (boot world default_configuration) connected
unfolding boot run_event
connecting = there (happens tcp_accepted tt refl refl) here

Turns-started_once_example : (connected.waiting 0 ≡ unstarted) × (starts_of 0 ([] ++ []) ≡ 0)
unfolding accept_tcp draw allocate assign add_session post find_id initial
Turns-started_once_example =
    Turns-started_once world default_configuration connected [] 0 [] connecting refl

-- The session waits for its first header.
reading : Turns world (boot world default_configuration) (waiting_for (reads header))
unfolding boot run_event accept_tcp draw allocate assign add_session post find_id initial take_task
    tcp_session
reading =
    there {y = connected} (happens tcp_accepted tt refl refl)
      (there (begins [] 0 [] refl refl refl) here)

losing : Loses world 0 (waiting_for (reads header)) lost
unfolding accept_tcp draw allocate assign add_session post find_id erase_id initial take_task finish
    on_header stop_reading drop_session remove_session disconnect_session close_socket close
    bytes_discrete tcp_session
losing = read_fails header stopped refl tt refl refl

-- Another connection is accepted afterwards.
abbrev accepted_again : Program
accepted_again = record lost { state = accept_tcp world lost.state }

accepting_again : Turns world lost accepted_again
unfolding run_event
accepting_again = there (happens tcp_accepted tt refl refl) here

Turns-stay_stopped_example :
    (count_id lost.state.object ((waiting_for (reads header)).state.object 0).id lost.state.sessions
      ≡ 0)
    × (accepted_again.waiting 0 ≡ reads stopped)
Turns-stay_stopped_example =
    Turns-stay_stopped world default_configuration (waiting_for (reads header)) lost accepted_again
      0 reading losing accepting_again
