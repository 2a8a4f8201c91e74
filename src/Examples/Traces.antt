-- ===== src/Examples/Traces.antt =====
-- The theorems about runs, at concrete runs.
use aurum.Base.{◌≡◌, refl, [], ◌∷◌, ◌++◌, some, none, arith, true, false, if◌then◌else◌}
use aurum.Outcome.{Ends, payload_too_large}
use aurum.Protocol.SessionType.{tcp}
use aurum.Session.{Session, new_session}
use aurum.Session.Queue.{front, enqueue}
use aurum.Session.Delivery.{
  Wire, open_wire, after_send, after_write, after_failure, Reaches, here, there, sends, writes,
  fails, Reaches-in_order, Reaches-drained, broken-Reaches,
}
use aurum.State.Defs.{State, default_configuration}
use aurum.State.Invariant.{Inv}
use aurum.Node.Listeners.{initial, accept_tcp}
use aurum.Node.Steps
use aurum.Node.Safety.{Reaches-Inv, run_event-Ends}
use aurum.Examples.Setting.{world, id_of}

abbrev connected_once : State
connected_once = accept_tcp world (initial world default_configuration)

accepting : Steps.Step world (initial world default_configuration) connected_once
unfolding Steps.run_event
accepting = Steps.happens Steps.tcp_accepted refl

one_connection : Steps.Reaches world (initial world default_configuration) connected_once
one_connection = Steps.there accepting Steps.here

Reaches-Inv_example : Inv connected_once
Reaches-Inv_example = Reaches-Inv world default_configuration connected_once one_connection

-- A frame of two bytes arrives on the connection.
abbrev two_bytes : Steps.Buffer
two_bytes = record { bytes = 7 ∷ 9 ∷ []; each = omega arith; small = omega arith }

run_event-Ends_example :
    Ends
      (λ e. e ≡ payload_too_large)
      Inv
      (Steps.run_event world (Steps.body_read 0 (some two_bytes)) connected_once)
run_event-Ends_example =
    run_event-Ends world default_configuration connected_once (Steps.body_read 0 (some two_bytes))
      one_connection

abbrev session : Session
session = new_session tcp (id_of 0) true

-- Two messages are handed over, and the write of the first ends.
abbrev two_sent : Wire
two_sent = after_send (2 ∷ []) (after_send (1 ∷ []) (open_wire session))

two_handed : Reaches (open_wire session) two_sent
two_handed = there (sends (1 ∷ []) _) (there (sends (2 ∷ []) _) here)

append_step : {x y z : Wire} → Reaches x y → Reaches y z → Reaches x z
append_step here r = r
append_step (there s r) r' = there s (append_step r r')

one_written : Reaches (open_wire session) (after_write (1 ∷ []) two_sent)
one_written =
    append_step two_handed (there (writes (1 ∷ []) two_sent (unfold enqueue front in refl)) here)

one_failed : Reaches (open_wire session) (after_failure two_sent)
one_failed =
    append_step two_handed (there (fails (1 ∷ []) two_sent (unfold enqueue front in refl)) here)

Reaches-in_order_example :
    ((after_write (1 ∷ []) two_sent).accepted
      ≡ (after_write (1 ∷ []) two_sent).sent ++ (after_write (1 ∷ []) two_sent).session.queue)
    × ((after_write (1 ∷ []) two_sent).session.writing
        ≡ (if false then none else front (after_write (1 ∷ []) two_sent).session.queue))
Reaches-in_order_example =
    Reaches-in_order session (after_write (1 ∷ []) two_sent) refl refl one_written

Reaches-drained_example :
    (y : Wire) × Reaches (after_write (1 ∷ []) two_sent) y
    × (y.sent ≡ (1 ∷ []) ∷ (2 ∷ []) ∷ [])
    × (y.session.queue ≡ [])
Reaches-drained_example =
    Reaches-drained session (after_write (1 ∷ []) two_sent) refl refl one_written refl

-- A third message is handed over after the failure.
broken-Reaches_example :
    ((after_send (3 ∷ []) (after_failure two_sent)).sent ≡ [])
    × ((after_send (3 ∷ []) (after_failure two_sent)).session.writing ≡ none)
broken-Reaches_example =
    broken-Reaches session (after_failure two_sent) (after_send (3 ∷ []) (after_failure two_sent))
      refl refl one_failed refl (there (sends (3 ∷ []) _) here)
